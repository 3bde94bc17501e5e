-- ===== src/Discovery/Refresh.antt =====
-- `merge_generated_document` of discovery/refresh.py: a regenerated Thing Description laid over the
-- stored one. `to_text` is Python's `str` on a value that is no string.
pub mod Actions
use Prim.Native.Nat.{Ordering}
use Prim.Native.String.{compare}
use wotbot.Base.{
  ℕ, String, ◌≡◌, refl, Bool, true, false, not, ◌&&◌, ◌||◌, Option, none, some, List, [], ◌∷◌, ◌++◌,
  map, take, keep_if, is_in, ◌==◌, if◌then◌else◌,
}
use wotbot.Base.Dict.{Dict, lookup, has_key, insert, merge, keys, keep_entries}
use wotbot.Json.{Json, str, as_dict, as_list, get, dict, list, is_dict, json_eq}

-- `is_generated_by`
unfoldable pub is_generated_by : Json → String → Bool
unfolding get json_eq
is_generated_by value marker =
    is_dict value && json_eq (get "wotbot:generatedBy" (as_dict value)) (str marker)

-- `_partition`: the manual entries, and the generated names.
unfoldable pub manual_entries : String → Dict Json → Dict Json
unfolding is_generated_by keep_entries
manual_entries marker values = keep_entries (λ _ v. not (is_generated_by v marker)) values

unfoldable pub generated_names : String → Dict Json → List String
unfolding is_generated_by keep_entries
generated_names marker values = keys (keep_entries (λ _ v. is_generated_by v marker) values)

-- `sorted`, of different texts.
abbrev pub goes_before : String → String → Bool
goes_before s t = elim (compare s t) [ Ordering.lt ↦ true | _ ↦ false ]

abbrev pub insert_sorted : String → List String → List String
insert_sorted s [] = s ∷ []
insert_sorted s (t ∷ ts) = if goes_before s t then s ∷ t ∷ ts else t ∷ insert_sorted s ts

abbrev pub sorted : List String → List String
sorted [] = []
sorted (s ∷ ss) = insert_sorted s (sorted ss)

-- `set(manual) & set(generated)`
abbrev pub common_keys : Dict Json → Dict Json → List String
common_keys d e = keep_if (λ k. has_key k e) (keys d)

-- `list(dict.fromkeys(names))`
abbrev pub unique_after : List String → List String → List String
unique_after seen [] = []
unique_after seen (s ∷ ss) =
    if is_in s seen then unique_after seen ss else s ∷ unique_after (s ∷ seen) ss

abbrev pub non_empty : Dict Json → Bool
non_empty [] = false
non_empty (e ∷ d) = true

-- `replacement[field] = current[field]`, if it is there.
abbrev pub keep_field : String → Dict Json → Dict Json → Dict Json
unfolding insert
keep_field field current replacement = elim (lookup field current) [
  | none ↦ replacement
  | some v ↦ insert field v replacement
]

-- The stored affordances of a kind that is never generated.
abbrev pub keep_kind : String → Dict Json → Dict Json → Dict Json
unfolding insert get
keep_kind kind current replacement =
    if non_empty (as_dict (get kind current))
    then insert kind (get kind current) replacement
    else replacement

-- A credential whose definition has gone or changed; both reads are `dict.get`.
abbrev pub is_outdated : Dict Json → Dict Json → String → Bool
unfolding get json_eq
is_outdated current generated name =
    not (has_key name generated) || not (json_eq (get name current) (get name generated))

pub data Merged : Type 0 where
  conflict : (names : List String) → Merged
  merged : (document : Dict Json) (credentials_to_remove : List String) → Merged

abbrev pub section : String → Dict Json → Dict Json
unfolding get
section key d = as_dict (get key d)

abbrev pub text_of : (Json → String) → Json → String
text_of to_text value = elim value [ str s ↦ s | v ↦ to_text v ]

-- The security names: the manual ones, then the generated ones.
unfoldable pub merged_security : (Json → String) → List String → Json → Json → Json
merged_security to_text old_generated_names current generated =
    let manual =
      keep_if (λ s. not (is_in s old_generated_names)) (map (text_of to_text) (as_list current)) in
    list (map str (unique_after [] (manual ++ map (text_of to_text) (as_list generated))))

unfoldable pub merged_links : String → Json → Json → Json
unfolding is_generated_by
merged_links marker current generated =
    list (keep_if (λ v. not (is_generated_by v marker)) (as_list current) ++ as_list generated)

-- The actions, or the security definitions: generated entries over manual ones.
unfoldable pub merged_section : String → Dict Json → Dict Json → Dict Json
unfolding manual_entries merge
merged_section marker current generated = merge (manual_entries marker current) generated

-- The document that is returned when no name collides.
unfoldable pub replacement : (Json → String) → Dict Json → Dict Json → String → Dict Json
unfolding generated_names merged_section merged_security merged_links insert get
replacement to_text current generated marker =
    let kept =
      keep_field "description" current
        (keep_field "title" current (insert "id" (get "id" current) generated)) in
    let with_kinds = keep_kind "events" current (keep_kind "properties" current kept) in
    let definitions = section "securityDefinitions" current in
    insert "links" (merged_links marker (get "links" current) (get "links" generated)) (
      insert "security"
        (merged_security to_text (generated_names marker definitions) (get "security" current)
          (get "security" generated))
        (insert "securityDefinitions"
          (dict (merged_section marker definitions (section "securityDefinitions" generated)))
          (insert "actions"
            (dict (merged_section marker (section "actions" current) (section "actions" generated)))
            with_kinds)))

-- `RefreshConflictError` names at most ten of the names; actions are looked at first.
abbrev pub unless_conflict : List String → List String → Merged → Merged
unless_conflict (c ∷ cs) definitions result = conflict (take 10 (sorted (c ∷ cs)))
unless_conflict [] (c ∷ cs) result = conflict (take 10 (sorted (c ∷ cs)))
unless_conflict [] [] result = result

unfoldable pub merge_generated_document : (Json → String) → Dict Json → Dict Json → String → Merged
unfolding manual_entries generated_names replacement
merge_generated_document to_text current generated marker =
    let actions = section "actions" current in
    let definitions = section "securityDefinitions" current in
    let new_definitions = section "securityDefinitions" generated in
    unless_conflict (common_keys (manual_entries marker actions) (section "actions" generated))
      (common_keys (manual_entries marker definitions) new_definitions)
      (merged (replacement to_text current generated marker) (
        sorted
          (keep_if (is_outdated definitions new_definitions) (generated_names marker definitions))))

-- ===== src/Discovery/Refresh/Actions.antt =====
-- What a refresh does to the actions of a Thing.
use wotbot.Base.{
  String, ◌≡◌, inl, inr, refl, sym, ap, ◌∙◌, subst, Bool, true, false, not, Option, none, some,
  List, [], ◌∷◌, arith, eq_iff, ◌==◌, Bool-cases, if◌then◌else◌,
}
use wotbot.Base.Dict.{
  Dict, lookup, has_key, IsDict, or_else, lookup-insert, lookup-insert_self, lookup-merge,
  lookup-keep_entries_eq, kept,
}
use wotbot.Json.{Json, get, to_dict-of_dict}
use wotbot.Discovery.Refresh.{
  is_generated_by, manual_entries, common_keys, merged_section, section, merged, replacement,
  unless_conflict, merge_generated_document,
}

-- The stored entry, unless the provider generated it.
abbrev pub manual : String → Option Json → Option Json
manual marker = kept λ v. not (is_generated_by v marker)

lookup-manual_entries :
    (marker k : String) (d : Dict Json)
    → IsDict d
    → lookup k (manual_entries marker d) ≡ manual marker (lookup k d)
unfolding manual_entries
lookup-manual_entries marker k d h =
    lookup-keep_entries_eq (λ _ v. not (is_generated_by v marker)) k d h

lookup-merged_section :
    (marker k : String) (current generated : Dict Json)
    → IsDict current
    → IsDict generated
    → lookup k (merged_section marker current generated)
      ≡ or_else (lookup k generated) (manual marker (lookup k current))
unfolding merged_section
lookup-merged_section marker k current generated h g =
    lookup-merge k (manual_entries marker current) generated g
    ∙ ap (or_else (lookup k generated)) (lookup-manual_entries marker k current h)

section-replacement :
    (to_text : Json → String) (current generated : Dict Json) (marker : String)
    → section "actions" (replacement to_text current generated marker)
      ≡ merged_section marker (section "actions" current) (section "actions" generated)
unfolding replacement get
section-replacement to_text current generated marker =
    rw
      (
        lookup-insert "links" "actions" _ _,
        lookup-insert "security" "actions" _ _,
        lookup-insert "securityDefinitions" "actions" _ _,
        lookup-insert_self "actions" _ _,
      )
      (to_dict-of_dict
        (merged_section marker (section "actions" current) (section "actions" generated)))

unless_conflict-merged :
    (cs ds : List String) (d doc : Dict Json) (c credentials : List String)
    → unless_conflict cs ds (merged d c) ≡ merged doc credentials
    → (cs ≡ []) × (d ≡ doc)
unless_conflict-merged [] [] d doc c credentials e = (refl, cc (e))
unless_conflict-merged [] (x ∷ ds) d doc c credentials e = cc
unless_conflict-merged (x ∷ cs) ds d doc c credentials e = cc

none_kept {ℓ} :
    {A : Type ℓ} (b : Bool) (x : A) (xs : List A)
    → (if b then x ∷ xs else xs) ≡ []
    → (b ≡ false) × (xs ≡ [])
none_kept true x xs h = cc
none_kept false x xs h = (refl, h)

-- Dicts without a common key.
common_keys-none :
    (d e : Dict Json) (k : String) (v : Json)
    → common_keys d e ≡ []
    → lookup k d ≡ some v
    → lookup k e ≡ none
unfolding lookup
common_keys-none [] e k v h found = cc
common_keys-none ((j, w) ∷ d) e k v h found =
    let (apart, rest) = none_kept (has_key j e) j (common_keys d e) h in
    elim (Bool-cases (j == k)) [
      | inl q ↦
          let here : lookup j e ≡ none = ground (arith, apart) in
          subst (λ z. lookup z e ≡ none) ((eq_iff j k).0 q) here
      | inr q ↦ common_keys-none d e k v rest (ground (arith, q, found))
    ]

-- When a refresh does not conflict, an action of the new document is the generated one of that name,
-- or else the stored one, unless the provider had generated it; and an action that a person added
-- stays as it is. The sections of actions are dicts.
pub merge_generated_document-actions :
    (to_text : Json → String) (current generated doc : Dict Json) (marker : String)
    (credentials : List String) (name : String)
    → IsDict (section "actions" current)
    → IsDict (section "actions" generated)
    → merge_generated_document to_text current generated marker ≡ merged doc credentials
    → (lookup name (section "actions" doc)
        ≡ or_else
            (lookup name (section "actions" generated))
            (manual marker (lookup name (section "actions" current))))
      × ((v : Json)
          → lookup name (section "actions" current) ≡ some v
          → is_generated_by v marker ≡ false
          → lookup name (section "actions" doc) ≡ some v)
unfolding merge_generated_document
merge_generated_document-actions to_text current generated doc marker credentials name h g e =
    let (free, same) = unless_conflict-merged _ _ _ doc _ credentials e in
    let all_names =
      ap (λ d. lookup name (section "actions" d)) (sym same)
      ∙ ap (lookup name) (section-replacement to_text current generated marker)
      ∙ lookup-merged_section marker name (section "actions" current) (section "actions" generated)
          h g in
    (
      all_names,
      λ v found own.
          let is_manual : manual marker (lookup name (section "actions" current)) ≡ some v =
            ap (manual marker) found ∙ rw own refl in
          let not_new =
            common_keys-none (manual_entries marker (section "actions" current))
              (section "actions" generated) name v free
              (lookup-manual_entries marker name (section "actions" current) h ∙ is_manual) in
          all_names
          ∙ ap (λ o. or_else o (manual marker (lookup name (section "actions" current)))) not_new
          ∙ is_manual,
    )

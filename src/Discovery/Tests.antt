-- ===== src/Discovery/Tests.antt =====
-- A Thing with an action of the provider and one of a person, refreshed.
use wotbot.Base.{String, ◌≡◌, refl, false, some, [], ◌∷◌}
use wotbot.Base.Dict.{Dict, lookup, keep_entries, or_else}
use wotbot.Json.{Json, str, dict, get, json_eq}
use wotbot.Discovery.Refresh.{
  is_generated_by, manual_entries, generated_names, replacement, section, merge_generated_document,
}
use wotbot.Discovery.Refresh.Actions.{manual, merge_generated_document-actions}

abbrev own_action : Json
own_action = dict (("title", str "Open") ∷ [])

abbrev made : String → Json
made title = dict (("title", str title) ∷ ("wotbot:generatedBy", str "openapi") ∷ [])

abbrev current : Dict Json
current =
    ("id", str "urn:t1")
    ∷ ("actions", dict (("open", own_action) ∷ ("listPets", made "List") ∷ []))
    ∷ []

abbrev generated : Dict Json
generated = ("actions", dict (("addPet", made "Add") ∷ [])) ∷ []

abbrev refreshed : Dict Json
refreshed = replacement (λ v. "") current generated "openapi"

merge_generated_document-actions_example :
    (lookup "open" (section "actions" refreshed)
      ≡ or_else
          (lookup "open" (section "actions" generated))
          (manual "openapi" (lookup "open" (section "actions" current))))
    × ((v : Json)
        → lookup "open" (section "actions" current) ≡ some v
        → is_generated_by v "openapi" ≡ false
        → lookup "open" (section "actions" refreshed) ≡ some v)
unfolding merge_generated_document lookup get keep_entries is_generated_by json_eq manual_entries
    generated_names
merge_generated_document-actions_example =
    merge_generated_document-actions (λ v. "") current generated refreshed "openapi" [] "open"
      (refl, (refl, tt)) (refl, tt) refl

-- ===== src/AgentApi/Interrupts.antt =====
-- `validate_reply` of agent_api/interrupts.py. `matches` is the validation of `jsonschema`.
pub mod Answered
use wotbot.Base.{
  String, Bool, true, ◌&&◌, Option, none, some, List, [], ◌∷◌, length, nat_eq, if◌then◌else◌,
}
use wotbot.Base.Dict.{Dict, lookup, insert, has_key, keys}
use wotbot.Json.{Json, as_dict, as_str, get}
use wotbot.AgentApi.Types.{Error, invalid_params, Result, ok, err, ◌>>=◌}

-- What `describe_interrupt` returns; the other fields are only shown.
pub record Pending : Type 0 where
  pub request_id : String
  pub kind : String
  pub explanation : String
  pub response_schema : Json

-- `{p["requestId"]: p for p in pending}`
unfoldable pub by_id : Dict Pending → List Pending → Dict Pending
unfolding insert
by_id d [] = d
by_id d (p ∷ ps) = by_id (insert p.request_id p d) ps

-- `part.get("data")`
abbrev pub body : Json → Dict Json
body part = as_dict (get "data" (as_dict part))

-- `set(body) == {"requestId", "response"}`; a body that is no object has no keys.
abbrev pub is_reply_body : Dict Json → Bool
is_reply_body b = nat_eq (length b) 2 && has_key "requestId" b && has_key "response" b

abbrev pub malformed : Error
malformed = invalid_params "A continuation needs JSON parts containing requestId and response"

abbrev pub unknown : Error
unknown = invalid_params "Unknown or duplicate interruption requestId"

abbrev pub mismatched : Error
mismatched = invalid_params "Response does not match the interruption responseSchema"

abbrev pub incomplete : Error
incomplete = invalid_params "Reply to every pending interruption in this task"

-- `all(test(x) for x in xs)`
abbrev pub every {ℓ} : {A : Type ℓ} → (A → Bool) → List A → Bool
every test [] = true
every test (x ∷ xs) = test x && every test xs

-- `set(d) == set(e)`
abbrev pub same_keys {ℓ κ} : {V : Type ℓ} {W : Type κ} → Dict V → Dict W → Bool
same_keys d e = every (λ k. has_key k e) (keys d) && every (λ k. has_key k d) (keys e)

module _ (matches : Json → Json → Bool) where
  abbrev pub answer : Dict Pending → Dict Json → Option String → Json → Result (Dict Json)
  answer asked replies none response = err unknown
  answer asked replies (some k) response = elim (lookup k asked) [
    | none ↦ err unknown
    | some p ↦
        if has_key k replies
        then err unknown
        else if matches response p.response_schema
        then ok (insert k response replies)
        else err mismatched
  ]

  -- A round of the loop.
  unfoldable pub reply_to : Dict Pending → Dict Json → Json → Result (Dict Json)
  unfolding lookup insert
  reply_to asked replies part =
      if is_reply_body (body part)
      then answer asked replies (as_str (get "requestId" (body part))) (get "response" (body part))
      else err malformed

  unfoldable pub collect : Dict Pending → Dict Json → List Json → Result (Dict Json)
  unfolding reply_to
  collect asked replies [] = ok replies
  collect asked replies (part ∷ parts) = do
    replies' ← reply_to asked replies part
    collect asked replies' parts

  abbrev pub complete : Dict Pending → Dict Json → Result (Dict Json)
  complete asked replies = if same_keys replies asked then ok replies else err incomplete

  unfoldable pub validate_reply : List Pending → List Json → Result (Dict Json)
  unfolding by_id collect
  validate_reply pending parts = do
    let asked = by_id [] pending
    replies ← collect asked [] parts
    complete asked replies

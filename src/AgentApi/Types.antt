-- ===== src/AgentApi/Types.antt =====
-- agent_api/types.py and agent_api/errors.py. A stored payload is the `Task` that `task_json` prints
-- and `task_from_json` reads.
use wotbot.Base.{
  ℕ, String, ◌≡◌, refl, Bool, true, false, ◌||◌, Option, none, some, List, [], ◌==◌, if◌then◌else◌,
}
use wotbot.Base.Dict.{Dict, lookup}
use wotbot.Json.{Json, null, str, obj, to_dict}

pub data TaskState : Type 0 where
  submitted working input_required auth_required completed failed canceled rejected : TaskState

-- `ACTIVE`
abbrev pub is_active : TaskState → Bool
is_active submitted = true
is_active working = true
is_active _ = false

-- `PAUSED`
abbrev pub is_paused : TaskState → Bool
is_paused input_required = true
is_paused auth_required = true
is_paused _ = false

-- `RESERVED`
abbrev pub is_reserved : TaskState → Bool
is_reserved s = is_active s || is_paused s

-- A message; `parts` are the JSON objects of its parts.
pub record Message : Type 0 where
  pub message_id : String
  pub context_id : Option String
  pub task_id : Option String
  pub role : String
  pub parts : List Json

pub record Status : Type 0 where
  pub state : TaskState
  pub timestamp : ℕ
  pub message : Option Message

pub record Task : Type 0 where
  pub id : String
  pub context_id : String
  pub status : Status
  pub history : List Message
  pub artifacts : List Json
  pub metadata : Dict Json

pub data OperationKind : Type 0 where
  assistant intent raw : OperationKind

pub record Operation : Type 0 where
  pub kind : OperationKind
  pub name : Option String
  pub arguments : Dict Json

-- `Operation.family`
pub data Family : Type 0 where
  assistant raw : Family

abbrev pub family_of_kind : OperationKind → Family
family_of_kind OperationKind.raw = Family.raw
family_of_kind OperationKind.intent = Family.assistant
family_of_kind OperationKind.assistant = Family.assistant

abbrev pub family_of : Operation → Family
family_of operation = family_of_kind operation.kind

-- `invalid_params` carries the message; `attribute_error` is the read of a row that is not there,
-- `integrity_error` any other violation of a constraint.
pub data Error : Type 0 where
  invalid_params : String → Error
  task_not_found validation_error attribute_error integrity_error : Error

-- A transaction that raises is rolled back: it returns no tables.
pub data Result {ℓ} (A : Type ℓ) : Type ℓ where
  ok : A → Result A
  err : Error → Result A

-- The next step of a transaction, unless this one has raised.
infixl 5 ◌>>=◌ ◌>>◌
abbrev pub ◌>>=◌ {ℓ κ} : {A : Type ℓ} {B : Type κ} → Result A → (A → Result B) → Result B
err raised >>= next = err raised
ok value >>= next = next value

abbrev pub ◌>>◌ {κ} : {B : Type κ} → Result (Unit {0}) → Result B → Result B
step >> next = step >>= λ _. next

-- `Operation.model_validate`: the field `kind` is one of three literals; a missing field has its
-- default, and other fields are kept without a use.
abbrev pub kind_of : Option Json → Option OperationKind
kind_of none = some OperationKind.assistant
kind_of (some (str s)) =
    if s == "assistant"
    then some OperationKind.assistant
    else if s == "intent"
    then some OperationKind.intent
    else if s == "raw"
    then some OperationKind.raw
    else none
kind_of (some _) = none

abbrev pub name_of : Option Json → Option (Option String)
name_of none = some none
name_of (some null) = some none
name_of (some (str s)) = some (some s)
name_of (some _) = none

abbrev pub arguments_of : Option Json → Option (Dict Json)
arguments_of none = some []
arguments_of (some (obj fs)) = some (to_dict fs)
arguments_of (some _) = none

abbrev pub validated :
    Option OperationKind → Option (Option String) → Option (Dict Json) → Result Operation
validated (some k) (some n) (some a) = ok (record { kind = k; name = n; arguments = a })
validated _ _ _ = err validation_error

unfoldable pub validate_operation : Dict Json → Result Operation
unfolding lookup
validate_operation fields =
    validated (kind_of (lookup "kind" fields)) (name_of (lookup "name" fields))
      (arguments_of (lookup "arguments" fields))

-- Both steps of a transaction that has committed.
pub both_ok {ℓ κ} :
    {A : Type ℓ} {B : Type κ} (step : Result A) (next : A → Result B) {result : B}
    → (step >>= next) ≡ ok result
    → (value : A) × (step ≡ ok value) × (next value ≡ ok result)
both_ok (err raised) next done = cc
both_ok (ok value) next done = (value, refl, done)

pub ok_inj {ℓ} : {A : Type ℓ} (a b : A) → ok a ≡ ok b → a ≡ b
ok_inj a b h = cc h

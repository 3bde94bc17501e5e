-- ===== src/VirtualThings/Tables.antt =====
-- The tables of virtual_things/db.py and the errors of the store.
use wotbot.Base.{
  ℕ, String, ◌≡◌, refl, Bool, Option, none, some, List, [], ◌∷◌, ◌&&◌, ◌==◌, if◌then◌else◌,
}
use wotbot.Base.Dict.{Dict}
use wotbot.Json.{Json}

-- `shared_state` is the JSON object of the column.
pub record VirtualThing : Type 0 where
  pub id : String
  pub title : String
  pub description : String
  pub owner_thread_id : Option String
  pub abstract_td : Json
  pub version : ℕ
  pub status : String
  pub shared_state : Json
  pub shared_state_version : ℕ
  pub created_at : ℕ
  pub updated_at : ℕ

-- A binding as it is requested, `VirtualThingBindingSpec`.
pub record BindingSpec : Type 0 where
  pub affordance_type : String
  pub affordance_name : String
  pub kind : String
  pub handler_code : Option String
  pub config : Json
  pub capabilities : List Json
  pub trigger : Option Json
  pub state : Json
  pub timeout_seconds : ℕ
  pub cache_ttl_seconds : ℕ

pub record VirtualThingBinding : Type 0 where
  pub thing_id : String
  pub spec : BindingSpec
  pub state : Json
  pub created_at : ℕ
  pub updated_at : ℕ

-- The bindings are by their primary key. `outbox` holds the events that wait to be published.
pub record Db : Type 0 where
  pub things : Dict VirtualThing
  pub bindings : Dict VirtualThingBinding
  pub outbox : List Json

pub data Error : Type 0 where
  key_error : String → Error
  state_conflict : String → Error
  value_error : String → Error
  integrity_error : String → Error
  handler_error : String → Error

-- A call that raises commits nothing.
pub data Result {ℓ} (A : Type ℓ) : Type ℓ where
  ok : A → Result A
  err : Error → Result A

infixl 5 ◌>>=◌
abbrev pub ◌>>=◌ {ℓ κ} : {A : Type ℓ} {B : Type κ} → Result A → (A → Result B) → Result B
err raised >>= next = err raised
ok value >>= next = next value

abbrev pub or_raise {ℓ} : {A : Type ℓ} → Option A → Error → Result A
or_raise (some a) raised = ok a
or_raise none raised = err raised

abbrev pub is_affordance : String → String → String → VirtualThingBinding → Bool
is_affordance thing_id affordance_type affordance_name b =
    b.thing_id == thing_id
    && b.spec.affordance_type == affordance_type
    && b.spec.affordance_name == affordance_name

-- The binding of an affordance, with its id.
unfoldable pub find_binding :
    String → String → String → Dict VirtualThingBinding → Option (String × VirtualThingBinding)
find_binding thing_id affordance_type affordance_name [] = none
find_binding thing_id affordance_type affordance_name ((k, b) ∷ bindings) =
    if is_affordance thing_id affordance_type affordance_name b
    then some (k, b)
    else find_binding thing_id affordance_type affordance_name bindings

-- Both steps of a call that has committed.
pub both_ok {ℓ κ} :
    {A : Type ℓ} {B : Type κ} (step : Result A) (next : A → Result B) {result : B}
    → (step >>= next) ≡ ok result
    → (value : A) × (step ≡ ok value) × (next value ≡ ok result)
both_ok (err raised) next done = cc
both_ok (ok value) next done = (value, refl, done)

pub ok_inj {ℓ} : {A : Type ℓ} (a b : A) → ok a ≡ ok b → a ≡ b
ok_inj a b h = cc h

pub raised_none {ℓ} :
    {A : Type ℓ} (o : Option A) (raised : Error) (a : A) → or_raise o raised ≡ ok a → o ≡ some a
raised_none none raised a h = cc h
raised_none (some b) raised a h = cc h

-- ===== src/VirtualThings/Tests.antt =====
-- Runs of the store and the dispatcher of virtual Things at concrete inputs.
use wotbot.Base.{
  eq_iff, ℕ, zero, suc, ◌+◌, ◌<◌, String, ◌≡◌, refl, true, false, Option, none, some, [], ◌∷◌,
  arith,
}
use wotbot.Base.Dict.{lookup}
use wotbot.Json.{Json, null, bool, num, dict, json_eq, get}
use wotbot.VirtualThings.Tables.{VirtualThing, BindingSpec, Db, Result, ok, err, state_conflict}
use wotbot.VirtualThings.Store.{
  DefineRequest, RuntimeBinding, created_thing, stated, define_thing, write_definition,
  delete_thing, get_runtime_binding, update_shared_state, enqueue_event_emission,
}
use wotbot.VirtualThings.Lifecycle.{here, next, emit}
use wotbot.VirtualThings.SharedState.Fresh.{update_shared_state_fresh}
use wotbot.VirtualThings.Dispatcher.{
  HandlerRunResult, hit, EventResult, Cache, start_read, finish_read, start_event,
  validate_event_result, finish_event,
}
use wotbot.VirtualThings.Bindings.{AreFresh, given, get_runtime_binding-define_thing}
use wotbot.VirtualThings.Emission.{Evaluated, finish_event-Evaluated}

abbrev no_things : Db
no_things = record { things = []; bindings = []; outbox = [] }

abbrev text : ℕ → String
text n = "n"

abbrev ids : ℕ → String
ids n = "b1"

abbrev spec : String → String → String → BindingSpec
spec affordance_type kind code = record {
  affordance_type = affordance_type;
  affordance_name = "level";
  kind = kind;
  handler_code = some code;
  config = null;
  capabilities = [];
  trigger = none;
  state = null;
  timeout_seconds = 30;
  cache_ttl_seconds = 30;
}

abbrev request : BindingSpec → Option Json → DefineRequest
request b shared_state = record {
  id = "t";
  title = "Tank";
  description = "";
  owner_thread_id = none;
  td = null;
  bindings = b ∷ [];
  status = "active";
  shared_state = shared_state;
}

abbrev db_of : Result (VirtualThing × Db) → Db
db_of (ok a) = a.1
db_of (err e) = no_things

abbrev or_start : Result RuntimeBinding → RuntimeBinding
or_start (ok b) = b
or_start (err e) = record {
  id = "";
  thing_id = "";
  spec = spec "" "" "";
  state = null;
  shared_state = null;
  shared_state_version = 0;
}

abbrev tank : BindingSpec → Db
unfolding define_thing
tank b = db_of (define_thing text text ids no_things (request b none) 10)

abbrev event_db : Db
unfolding define_thing
event_db = tank (spec "event" "emitted" "code")

abbrev event_binding : RuntimeBinding
unfolding define_thing start_event
event_binding = or_start (start_event event_db "t" "level")

read_event : get_runtime_binding event_db "t" "event" "level" ≡ ok event_binding
unfolding get_runtime_binding define_thing start_event
read_event = refl

abbrev full : Json
full = dict (("full", bool true) ∷ [])

abbrev emitted : HandlerRunResult
emitted = record {
  value = dict (("emit", bool true) ∷ ("payload", num 7) ∷ ("state", num 1) ∷ []);
  state = null;
  shared_state = full;
}

abbrev evaluation : EventResult × Db
unfolding define_thing start_event finish_event get
evaluation = elim (finish_event false event_db "t" "level" event_binding emitted 20) [
  | ok a ↦ a
  | err e ↦ (record { thing_id = ""; event_name = ""; emitted = false; payload = null }, no_things)
]

finish_event-Evaluated_example :
    Evaluated "t" event_binding emitted 20 event_db evaluation.1
    × (validate_event_result "level" emitted.value ≡ ok evaluation.0.emitted)
    × (finish_event true event_db "t" "level" event_binding emitted 20
        ≡ ok (evaluation.0, event_db))
unfolding define_thing start_event finish_event get
finish_event-Evaluated_example =
    finish_event-Evaluated event_db "t" "level" event_binding emitted 20 evaluation refl

abbrev announced : Db
unfolding enqueue_event_emission
announced = enqueue_event_emission text event_db "t" "level" (num 7) "h" 15

abbrev shared : ℕ × Db
unfolding define_thing start_event update_shared_state enqueue_event_emission
shared = elim (update_shared_state announced "t" 1 full 20) [ ok a ↦ a | err e ↦ (0, no_things) ]

numbered : (t : VirtualThing) → lookup "t" event_db.things ≡ some t → 0 < t.shared_state_version
unfolding define_thing
numbered t h = ground arith

update_shared_state_fresh_example :
    (t : VirtualThing) × (lookup "t" announced.things ≡ some t)
    × (t.shared_state ≡ event_binding.shared_state)
    × (lookup "t" shared.1.things ≡ some (stated t full 20))
    × (shared.0 ≡ event_binding.shared_state_version + 1)
unfolding define_thing start_event update_shared_state enqueue_event_emission
update_shared_state_fresh_example =
    update_shared_state_fresh event_db announced "t" "event" "level" event_binding full 20 shared
      numbered read_event (next here (emit text "t" "level" (num 7) "h" 15)) refl

-- The second of two handlers that have read the same version is refused.
second_refused :
    update_shared_state shared.1 "t" event_binding.shared_state_version (dict []) 30
    ≡ err (state_conflict "t")
unfolding define_thing start_event update_shared_state enqueue_event_emission
second_refused = refl

abbrev state_of : Result (ℕ × Db) → Option Json
unfolding lookup
state_of (err e) = none
state_of (ok a) = elim (lookup "t" a.1.things) [ none ↦ none | some t ↦ some t.shared_state ]

abbrev emptied : Db
unfolding define_thing delete_thing
emptied = elim (delete_thing text text event_db "t" 20) [ ok db ↦ db | err e ↦ no_things ]

-- A Thing that is deleted and defined again counts from 1 once more, so that the update of a
-- handler of the old Thing is taken.
recreated :
    state_of (
      update_shared_state
        (db_of (
          define_thing text text ids emptied
            (request (spec "event" "emitted" "new") (some (num 5)))
            30))
        "t"
        event_binding.shared_state_version
        full
        40)
    ≡ some full
unfolding define_thing start_event delete_thing update_shared_state
recreated = refl

abbrev third : RuntimeBinding
unfolding define_thing start_event update_shared_state enqueue_event_emission
third = or_start (start_event shared.1 "t" "level")

-- A definition that was begun before an update writes the version that the update has given: a
-- handler that read it overwrites the state of the definition.
overtaken :
    state_of (
      update_shared_state
        (db_of (
          write_definition text text ids shared.1
            (lookup "t" event_db.things)
            (request (spec "event" "emitted" "new") (some (num 5)))
            30))
        "t"
        third.shared_state_version
        (num 6)
        40)
    ≡ some (num 6)
unfolding define_thing write_definition start_event update_shared_state enqueue_event_emission
    json_eq
overtaken = refl

abbrev property_db : Db
unfolding define_thing
property_db = tank (spec "property" "computed" "old")

abbrev property_binding : RuntimeBinding
unfolding define_thing get_runtime_binding
property_binding = or_start (get_runtime_binding property_db "t" "property" "level")

abbrev warm : Cache
unfolding define_thing get_runtime_binding finish_read
warm =
    (finish_read text [] "t" "level" property_binding
      (record { value = num 1; state = null; shared_state = dict [] }) 20).1

-- A value that the old handler has computed is read after the Thing is defined anew.
stale_read :
    start_read text
      (db_of (
        define_thing text text ids property_db
          (request (spec "property" "computed" "new") none)
          25))
      warm
      "t"
      "level"
      30
    ≡ ok (hit (num 1), warm)
unfolding define_thing get_runtime_binding finish_read start_read
stale_read = refl

-- A Thing with a property and an event, defined over one with another event.
abbrev pair_ids : ℕ → String
pair_ids zero = "p0"
pair_ids (suc n) = "p1"

abbrev pair : DefineRequest
pair = record (request (spec "property" "computed" "read") none) {
  bindings = spec "property" "computed" "read" ∷ spec "event" "emitted" "watch" ∷ [];
}

abbrev paired : VirtualThing × Db
unfolding define_thing
paired = elim (define_thing text text pair_ids event_db pair 20) [
  | ok a ↦ a
  | err e ↦ (created_thing pair 20, no_things)
]

pair_ids_once : (i j : ℕ) → i < 2 → j < 2 → pair_ids i ≡ pair_ids j → i ≡ j
pair_ids_once zero zero a b h = refl
pair_ids_once zero (suc j) a b h = cc ((eq_iff "p0" "p1").1 h)
pair_ids_once (suc i) zero a b h = cc ((eq_iff "p1" "p0").1 h)
pair_ids_once (suc i) (suc j) a b h = omega arith

pair_ids_new : (i : ℕ) → i < 2 → lookup (pair_ids i) event_db.bindings ≡ none
unfolding define_thing
pair_ids_new zero a = refl
pair_ids_new (suc i) a = refl

pair_ids-AreFresh : AreFresh 2 pair_ids event_db.bindings
unfolding define_thing
pair_ids-AreFresh = (pair_ids_once, pair_ids_new)

get_runtime_binding-define_thing_example :
    given (get_runtime_binding paired.1 "t" "event" "level") ≡ some (spec "event" "emitted" "watch")
unfolding define_thing
get_runtime_binding-define_thing_example =
    get_runtime_binding-define_thing text text pair_ids event_db pair 20 paired "event" "level"
      pair_ids-AreFresh refl refl

-- ===== src/VirtualThings/Dispatcher.antt =====
-- virtual_things/dispatcher.py, virtual_things/cache.py and the result of a handler in
-- virtual_things/handler.py. A handler runs between a read of the store and its writes, so an
-- interaction is a function before and one after the run. `show` prints a number.
use wotbot.Base.{
  ℕ, ◌+◌, String, Bool, false, not, ◌&&◌, Option, none, some, [], leb, ltb, ◌==◌, if◌then◌else◌,
}
use wotbot.Base.Dict.{Dict, lookup, insert, erase, has_key}
use wotbot.Base.Text.{◌<>◌}
use wotbot.Json.{Json, null, bool, num, obj, dict, to_dict, get, json_eq}
use wotbot.VirtualThings.Tables.{Db, key_error, value_error, handler_error, Result, ok, err, ◌>>=◌}
use wotbot.VirtualThings.Store.{
  RuntimeBinding, get_runtime_binding, update_binding_state, update_shared_state,
  update_binding_and_shared_state, enqueue_event_emission,
}

pub record HandlerRunResult : Type 0 where
  pub value : Json
  pub state : Json
  pub shared_state : Json

-- `_normalize_shared_state`
abbrev pub normalize_shared_state : Json → Result Json
normalize_shared_state null = ok (dict [])
normalize_shared_state (obj fs) = ok (obj fs)
normalize_shared_state _ = err (handler_error "context.shared_state must be a JSON object")

abbrev pub is_envelope : Json → Bool
is_envelope (obj fs) = json_eq (get "__virtual_thing_result_version" (to_dict fs)) (num 1)
is_envelope _ = false

abbrev pub fields : Json → Dict Json
fields (obj fs) = to_dict fs
fields _ = []

-- `_parse_handler_result`
unfoldable pub parse_handler_result : Json → Json → Json → Result HandlerRunResult
unfolding get json_eq
parse_handler_result payload state shared_state =
    if is_envelope payload
    then (normalize_shared_state (get "shared_state" (fields payload)) >>= λ shared. ok (record {
      value = get "value" (fields payload);
      state = get "state" (fields payload);
      shared_state = shared;
    }))
    else (normalize_shared_state shared_state >>= λ shared.
        ok (record { value = payload; state = state; shared_state = shared }))

-- `_shared_state_changed`
unfoldable pub shared_state_changed : Json → HandlerRunResult → Bool
unfolding json_eq
shared_state_changed original result = not (json_eq original result.shared_state)

-- The cache of read values: when each expires, by a clock in seconds, and the value.
abbrev pub Cache : Type 0
Cache = Dict (ℕ × Json)

abbrev pub cached : String → Cache → ℕ → Option (ℕ × Json) → Option Json × Cache
cached key cache now none = (none, cache)
cached key cache now (some (expires_at, value)) =
    if leb expires_at now then (none, erase key cache) else (some value, cache)

unfoldable pub get_cached_value : Cache → String → ℕ → Option Json × Cache
unfolding lookup erase
get_cached_value cache key now = cached key cache now (lookup key cache)

unfoldable pub set_cached_value : Cache → String → Json → ℕ → ℕ → Cache
unfolding insert
set_cached_value cache key value ttl_seconds now = insert key (now + ttl_seconds, value) cache

abbrev pub cache_key : (ℕ → String) → String → String → ℕ → String
cache_key show thing_id property_name version =
    thing_id <> ":property:" <> property_name <> ":shared:" <> show version

-- What an interaction does next: the record store answers, a value is at hand, or a handler runs.
pub data Start : Type 0 where
  record_store : Start
  hit : Json → Start
  run : RuntimeBinding → Start

-- `read_property` up to the run of the handler.
unfoldable pub start_read : (ℕ → String) → Db → Cache → String → String → ℕ → Result (Start × Cache)
unfolding get_runtime_binding get_cached_value
start_read show db cache thing_id property_name now = do
  b ← get_runtime_binding db thing_id "property" property_name
  if b.spec.kind == "record"
      then ok (record_store, cache)
      else if b.spec.kind == "computed"
      then (let (found, cache') =
            get_cached_value cache (cache_key show thing_id property_name b.shared_state_version)
              now in
          ok (elim found [ none ↦ run b | some v ↦ hit v ], cache'))
      else err (key_error property_name)

-- The rest of `read_property`, with the binding that was read.
unfoldable pub finish_read :
    (ℕ → String) → Cache → String → String → RuntimeBinding → HandlerRunResult → ℕ → Json × Cache
unfolding set_cached_value
finish_read show cache thing_id property_name b result now = (
  result.value,
  if ltb 0 b.spec.cache_ttl_seconds
      then set_cached_value cache (cache_key show thing_id property_name b.shared_state_version)
          result.value b.spec.cache_ttl_seconds now
      else cache,
)

-- `invoke_action` up to the run of the handler.
unfoldable pub start_action : Db → String → String → Result Start
unfolding get_runtime_binding
start_action db thing_id action_name = do
  b ← get_runtime_binding db thing_id "action" action_name
  if b.spec.kind == "record"
      then ok record_store
      else if b.spec.kind == "computed"
      then ok (run b)
      else err (key_error action_name)

-- The rest of `invoke_action`, on the tables that it finds then.
unfoldable pub finish_action :
    Db → String → RuntimeBinding → HandlerRunResult → ℕ → Result (Json × Db)
unfolding shared_state_changed update_shared_state
finish_action db thing_id b result now =
    if shared_state_changed b.shared_state result
    then (update_shared_state db thing_id b.shared_state_version result.shared_state now
        >>= λ updated. ok (result.value, updated.1))
    else ok (result.value, db)

-- `_evaluate_event_result` up to the run of the handler.
unfoldable pub start_event : Db → String → String → Result RuntimeBinding
unfolding get_runtime_binding
start_event db thing_id event_name = do
  b ← get_runtime_binding db thing_id "event" event_name
  if b.spec.kind == "emitted" then ok b else err (key_error event_name)

abbrev pub checked_emit : String → Dict Json → Option Json → Result Bool
checked_emit event_name result (some (bool emit)) =
    if has_key "state" result
    then if emit && not (has_key "payload" result)
      then err (value_error "result.payload is required when emit=true")
      else ok emit
    else err (value_error "result.state is required")
checked_emit event_name result _ = err (value_error "result.emit must be a boolean")

-- `_validate_event_result`, which tells whether the event is emitted.
unfoldable pub validate_event_result : String → Json → Result Bool
unfolding lookup
validate_event_result event_name null = err (value_error "handler returned None")
validate_event_result event_name (obj fs) =
    checked_emit event_name (to_dict fs) (lookup "emit" (to_dict fs))
validate_event_result event_name _ = err (value_error "handlers must return an object")

pub record EventResult : Type 0 where
  pub thing_id : String
  pub event_name : String
  pub emitted : Bool
  pub payload : Json

abbrev pub event_result : String → String → Bool → Json → EventResult
event_result thing_id event_name emitted value = record {
  thing_id = thing_id;
  event_name = event_name;
  emitted = emitted;
  payload = if emitted then get "payload" (fields value) else null;
}

-- The writes of `_evaluate_event_result`.
unfoldable pub keep_event_state : Db → String → RuntimeBinding → HandlerRunResult → ℕ → Result Db
unfolding get shared_state_changed update_binding_state update_binding_and_shared_state
keep_event_state db thing_id b result now =
    let state = get "state" (fields result.value) in
    if shared_state_changed b.shared_state result
    then (update_binding_and_shared_state db b.id state thing_id b.shared_state_version
          result.shared_state now
        >>= λ updated. ok updated.1)
    else update_binding_state db b.id state now

-- The rest of `_evaluate_event_result`, on the tables that it finds then.
unfoldable pub finish_event :
    Bool → Db → String → String → RuntimeBinding → HandlerRunResult → ℕ → Result (EventResult × Db)
unfolding validate_event_result keep_event_state
finish_event dry_run db thing_id event_name b result now = do
  emitted ← validate_event_result event_name result.value
  db' ← (if dry_run then ok db else keep_event_state db thing_id b result now)
  ok (event_result thing_id event_name emitted result.value, db')

-- The end of `emit_event`, a transaction of its own.
unfoldable pub announce : (ℕ → String) → Db → EventResult → String → ℕ → Db
unfolding enqueue_event_emission
announce iso db r hash now =
    if r.emitted
    then enqueue_event_emission iso db r.thing_id r.event_name r.payload hash now
    else db

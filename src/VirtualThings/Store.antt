-- ===== src/VirtualThings/Store.antt =====
-- `VirtualThingStore` of virtual_things/store.py, a transaction to a method. `iso` prints a time.
use wotbot.Base.{
  ℕ, zero, suc, ◌+◌, String, Bool, true, false, not, ◌&&◌, ◌||◌, Option, none, some, List, [], ◌∷◌,
  ◌++◌, any, nat_eq, ◌==◌, if◌then◌else◌,
}
use wotbot.Base.Dict.{Dict, lookup, insert, erase, keep_entries}
use wotbot.Json.{Json, str, num, dict, json_eq}
use wotbot.VirtualThings.Tables.{
  VirtualThing, BindingSpec, VirtualThingBinding, Db, key_error, state_conflict, value_error,
  integrity_error, Result, ok, err, ◌>>=◌, or_raise, find_binding,
}

pub record DefineRequest : Type 0 where
  pub id : String
  pub title : String
  pub description : String
  pub owner_thread_id : Option String
  pub td : Json
  pub bindings : List BindingSpec
  pub status : String
  pub shared_state : Option Json

pub record RuntimeBinding : Type 0 where
  pub id : String
  pub thing_id : String
  pub spec : BindingSpec
  pub state : Json
  pub shared_state : Json
  pub shared_state_version : ℕ

-- The print of a number in an f-string is a parameter of the event.
abbrev pub definition_event : (ℕ → String) → (ℕ → String) → String → String → ℕ → ℕ → Json
definition_event iso show action thing_id version now = dict (
    ("eventType", str "virtualThingDefinitionChanged")
    ∷ ("action", str action)
    ∷ ("id", str thing_id)
    ∷ ("hash", str (show version))
    ∷ ("version", num version)
    ∷ ("occurredAt", str (iso now))
    ∷ [])

-- The unique constraint on the affordance of a Thing.
abbrev pub same_affordance : BindingSpec → BindingSpec → Bool
same_affordance a b =
    a.affordance_type == b.affordance_type && a.affordance_name == b.affordance_name

unfoldable pub is_distinct : List BindingSpec → Bool
is_distinct [] = true
is_distinct (b ∷ bs) = not (any (same_affordance b) bs) && is_distinct bs

abbrev pub new_binding : String → BindingSpec → ℕ → VirtualThingBinding
new_binding thing_id spec now = record {
  thing_id = thing_id;
  spec = spec;
  state = spec.state;
  created_at = now;
  updated_at = now;
}

-- `fresh` draws the ids of the new rows, by their places.
unfoldable pub add_bindings :
    (ℕ → String)
    → String
    → ℕ
    → List BindingSpec
    → ℕ
    → Dict VirtualThingBinding
    → Dict VirtualThingBinding
unfolding insert
add_bindings fresh thing_id n [] now bindings = bindings
add_bindings fresh thing_id n (b ∷ bs) now bindings =
    add_bindings fresh thing_id (n + 1) bs now
      (insert (fresh n) (new_binding thing_id b now) bindings)

abbrev pub is_of : String → String → VirtualThingBinding → Bool
is_of thing_id k b = b.thing_id == thing_id

-- `_replace_bindings`
unfoldable pub replace_bindings :
    (ℕ → String)
    → String
    → List BindingSpec
    → ℕ
    → Dict VirtualThingBinding
    → Result (Dict VirtualThingBinding)
unfolding is_distinct add_bindings keep_entries
replace_bindings fresh thing_id specs now bindings =
    if is_distinct specs
    then ok (
        add_bindings fresh thing_id 0 specs now
          (keep_entries (λ k b. not (is_of thing_id k b)) bindings))
    else err (integrity_error thing_id)

-- The JSON object of a shared state that may be left out.
abbrev pub or_object : Option Json → Json
or_object none = dict []
or_object (some j) = j

abbrev pub created_thing : DefineRequest → ℕ → VirtualThing
created_thing r now = record {
  id = r.id;
  title = r.title;
  description = r.description;
  owner_thread_id = r.owner_thread_id;
  abstract_td = r.td;
  version = 1;
  status = r.status;
  shared_state = or_object r.shared_state;
  shared_state_version = 1;
  created_at = now;
  updated_at = now;
}

-- The columns of the shared state that an existing row gets: `read` is the row that the session
-- has loaded, `thing` the row that it writes to.
unfoldable pub with_shared_state : VirtualThing → Option Json → VirtualThing → VirtualThing
with_shared_state read none thing = thing
with_shared_state read (some next) thing =
    if json_eq next read.shared_state
    then thing
    else record thing { shared_state = next; shared_state_version = read.shared_state_version + 1 }

abbrev pub redefined_thing : DefineRequest → ℕ → VirtualThing → VirtualThing → VirtualThing
redefined_thing r now read thing = record (with_shared_state read r.shared_state thing) {
  title = r.title;
  description = r.description;
  owner_thread_id = r.owner_thread_id;
  abstract_td = r.td;
  version = read.version + 1;
  status = r.status;
  updated_at = now;
}

-- The row, from the one that the session has loaded and the one that the table has. The insert of
-- an id that is there and the update of a row that has gone are refused.
abbrev pub defined_thing :
    DefineRequest → ℕ → Option VirtualThing → Option VirtualThing → Result VirtualThing
defined_thing r now none none = ok (created_thing r now)
defined_thing r now (some read) (some thing) = ok (redefined_thing r now read thing)
defined_thing r now none (some thing) = err (integrity_error r.id)
defined_thing r now (some read) none = err (integrity_error r.id)

abbrev pub status_thing : VirtualThing → String → ℕ → VirtualThing
status_thing thing status now = record thing {
  status = status;
  version = thing.version + 1;
  updated_at = now;
}

abbrev pub checked_status : String → Result (Unit {0})
checked_status status =
    if status == "active" || status == "disabled"
    then ok tt
    else err (value_error "status must be active or disabled")

module _ (iso show : ℕ → String) where
  abbrev pub queue : String → String → ℕ → ℕ → List Json → List Json
  queue action thing_id version now outbox =
      outbox ++ definition_event iso show action thing_id version now ∷ []

  -- The writes of `define_thing`, after its read of the row.
  unfoldable pub write_definition :
      (ℕ → String) → Db → Option VirtualThing → DefineRequest → ℕ → Result (VirtualThing × Db)
  unfolding lookup insert replace_bindings with_shared_state
  write_definition fresh db read r now = do
    thing ← defined_thing r now read (lookup r.id db.things)
    bindings ← replace_bindings fresh r.id r.bindings now db.bindings
    ok (
      thing,
      record {
        things = insert r.id thing db.things;
        bindings = bindings;
        outbox = queue "update" r.id thing.version now db.outbox;
      },
    )

  -- `define_thing`, when no other transaction comes between its read and its writes.
  unfoldable pub define_thing : (ℕ → String) → Db → DefineRequest → ℕ → Result (VirtualThing × Db)
  unfolding lookup write_definition
  define_thing fresh db r now = write_definition fresh db (lookup r.id db.things) r now

  abbrev pub enrich : Db → String → Json → ℕ → ℕ → Option VirtualThing → Bool × Db
  enrich db thing_id td base_version now none = (false, db)
  enrich db thing_id td base_version now (some thing) =
      if nat_eq thing.version base_version
      then (
        true,
        record db {
          things =
              insert thing_id
                (record thing { abstract_td = td; version = thing.version + 1; updated_at = now })
                db.things;
          outbox = queue "update" thing_id (thing.version + 1) now db.outbox;
        },
      )
      else (false, db)

  -- `apply_enrichment`
  unfoldable pub apply_enrichment : Db → String → Json → ℕ → ℕ → Bool × Db
  unfolding lookup insert
  apply_enrichment db thing_id td base_version now =
      enrich db thing_id td base_version now (lookup thing_id db.things)

  -- `delete_thing`, with the cascade to the bindings.
  unfoldable pub delete_thing : Db → String → ℕ → Result Db
  unfolding lookup erase keep_entries
  delete_thing db thing_id now = do
    thing ← or_raise (lookup thing_id db.things) (key_error thing_id)
    ok (record {
      things = erase thing_id db.things;
      bindings = keep_entries (λ k b. not (is_of thing_id k b)) db.bindings;
      outbox = queue "delete" thing_id thing.version now db.outbox;
    })

  unfoldable pub set_status : Db → String → String → ℕ → Result (VirtualThing × Db)
  unfolding lookup insert
  set_status db thing_id status now = do
    u ← checked_status status
    thing ← or_raise (lookup thing_id db.things) (key_error thing_id)
    ok (
      status_thing thing status now,
      record db {
        things = insert thing_id (status_thing thing status now) db.things;
        outbox = queue "update" thing_id (thing.version + 1) now db.outbox;
      },
    )

-- The Thing of an interaction, which must be active.
abbrev pub active_thing : String → Option VirtualThing → Result VirtualThing
active_thing thing_id none = err (key_error thing_id)
active_thing thing_id (some thing) =
    if thing.status == "active" then ok thing else err (key_error thing_id)

-- `value or 1`
abbrev pub or_one : ℕ → ℕ
or_one zero = 1
or_one (suc n) = suc n

-- `_runtime_binding_from_rows`
abbrev pub runtime_binding : VirtualThing → String → VirtualThingBinding → RuntimeBinding
runtime_binding thing id b = record {
  id = id;
  thing_id = b.thing_id;
  spec = b.spec;
  state = b.state;
  shared_state = thing.shared_state;
  shared_state_version = or_one thing.shared_state_version;
}

unfoldable pub get_runtime_binding : Db → String → String → String → Result RuntimeBinding
unfolding lookup find_binding
get_runtime_binding db thing_id affordance_type affordance_name = do
  thing ← active_thing thing_id (lookup thing_id db.things)
  (id, b) ←
      or_raise (find_binding thing_id affordance_type affordance_name db.bindings)
        (key_error affordance_name)
  ok (runtime_binding thing id b)

-- `update_binding_state`
unfoldable pub update_binding_state : Db → String → Json → ℕ → Result Db
unfolding lookup insert
update_binding_state db binding_id state now = do
  b ← or_raise (lookup binding_id db.bindings) (key_error binding_id)
  ok (record db {
    bindings = insert binding_id (record b { state = state; updated_at = now }) db.bindings;
  })

abbrev pub stated : VirtualThing → Json → ℕ → VirtualThing
stated thing state now = record thing {
  shared_state = state;
  shared_state_version = thing.shared_state_version + 1;
  updated_at = now;
}

abbrev pub update_found : Db → String → ℕ → Json → ℕ → Option VirtualThing → Result (ℕ × Db)
update_found db thing_id expected_version state now none = err (key_error thing_id)
update_found db thing_id expected_version state now (some thing) =
    if nat_eq thing.shared_state_version expected_version
    then ok (
      thing.shared_state_version + 1,
      record db { things = insert thing_id (stated thing state now) db.things },
    )
    else err (state_conflict thing_id)

-- `update_shared_state`: one `UPDATE` that compares the version.
unfoldable pub update_shared_state : Db → String → ℕ → Json → ℕ → Result (ℕ × Db)
unfolding lookup insert
update_shared_state db thing_id expected_version state now =
    update_found db thing_id expected_version state now (lookup thing_id db.things)

-- `update_binding_and_shared_state`, in one transaction.
unfoldable pub update_binding_and_shared_state :
    Db → String → Json → String → ℕ → Json → ℕ → Result (ℕ × Db)
unfolding update_binding_state update_shared_state
update_binding_and_shared_state db binding_id state thing_id expected_version shared_state now = do
  db₁ ← update_binding_state db binding_id state now
  update_shared_state db₁ thing_id expected_version shared_state now

-- `enqueue_event_emission`; `hash` is drawn.
unfoldable pub enqueue_event_emission : (ℕ → String) → Db → String → String → Json → String → ℕ → Db
enqueue_event_emission iso db thing_id event_name payload hash now = record db {
  outbox =
      db.outbox
      ++ dict (
          ("eventType", str "virtualThingEventEmissionRequested")
          ∷ ("id", str thing_id)
          ∷ ("eventName", str event_name)
          ∷ ("payload", payload)
          ∷ ("hash", str hash)
          ∷ ("occurredAt", str (iso now))
          ∷ [])
        ∷ [];
}

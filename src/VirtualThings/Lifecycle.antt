-- ===== src/VirtualThings/Lifecycle.antt =====
-- The calls on virtual_things/store.py in any order, as a step relation on the tables. A definition
-- writes later than it reads, and other calls may come between; so its step has the row that was
-- read beside the tables that it writes to.
use wotbot.Base.{ℕ, String, ◌≡◌, Option, some}
use wotbot.Base.Dict.{lookup}
use wotbot.Json.{Json}
use wotbot.VirtualThings.Tables.{VirtualThing, Db, ok}
use wotbot.VirtualThings.Store.{
  DefineRequest, write_definition, apply_enrichment, delete_thing, set_status, update_binding_state,
  update_shared_state, update_binding_and_shared_state, enqueue_event_emission,
}

-- A definition that replaces the shared state has read the one that the Thing has.
abbrev pub Agrees : Option Json → Option VirtualThing → Option VirtualThing → Type 0
Agrees (some state) (some read) (some thing) =
    (read.shared_state ≡ thing.shared_state)
    × (read.shared_state_version ≡ thing.shared_state_version)
Agrees _ _ _ = Unit

-- One call on the store; `MayGo` says which Things may be deleted.
pub data Step (MayGo : String → Type 0) (db : Db) : Db → Type 0 where
  define :
      {db' : Db} {thing : VirtualThing} (iso show fresh : ℕ → String) (read : Option VirtualThing)
      (r : DefineRequest) (now : ℕ)
      → Agrees r.shared_state read (lookup r.id db.things)
      → write_definition iso show fresh db read r now ≡ ok (thing, db')
      → Step MayGo db db'
  enriched :
      (iso show : ℕ → String) (thing_id : String) (td : Json) (base_version now : ℕ)
      → Step MayGo db ((apply_enrichment iso show db thing_id td base_version now).1)
  delete :
      {db' : Db} (iso show : ℕ → String) (thing_id : String) (now : ℕ)
      → MayGo thing_id
      → delete_thing iso show db thing_id now ≡ ok db'
      → Step MayGo db db'
  change_status :
      {db' : Db} {thing : VirtualThing} (iso show : ℕ → String) (thing_id status : String) (now : ℕ)
      → set_status iso show db thing_id status now ≡ ok (thing, db')
      → Step MayGo db db'
  keep_state :
      {db' : Db} (binding_id : String) (state : Json) (now : ℕ)
      → update_binding_state db binding_id state now ≡ ok db'
      → Step MayGo db db'
  share :
      {db' : Db} {n : ℕ} (thing_id : String) (expected_version : ℕ) (state : Json) (now : ℕ)
      → update_shared_state db thing_id expected_version state now ≡ ok (n, db')
      → Step MayGo db db'
  keep_both :
      {db' : Db} {n : ℕ} (binding_id : String) (state : Json) (thing_id : String)
      (expected_version : ℕ) (shared_state : Json) (now : ℕ)
      → update_binding_and_shared_state db binding_id state thing_id expected_version shared_state
          now
        ≡ ok (n, db')
      → Step MayGo db db'
  emit :
      (iso : ℕ → String) (thing_id event_name : String) (payload : Json) (hash : String) (now : ℕ)
      → Step MayGo db (enqueue_event_emission iso db thing_id event_name payload hash now)

pub data Steps (MayGo : String → Type 0) (db : Db) : Db → Type 0 where
  here : Steps MayGo db db
  next : {db' db'' : Db} → Steps MayGo db db' → Step MayGo db' db'' → Steps MayGo db db''

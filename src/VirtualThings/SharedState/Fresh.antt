-- ===== src/VirtualThings/SharedState/Fresh.antt =====
-- When an update of the shared state of a virtual Thing replaces the state that its handler was given.
use wotbot.Base.{ℕ, ◌+◌, ◌<◌, String, ◌≡◌, ◌≢◌, sym, ap, ◌∙◌, some, arith}
use wotbot.Base.Dict.{lookup, lookup-insert_self}
use wotbot.Json.{Json}
use wotbot.VirtualThings.Tables.{
  VirtualThing, Db, key_error, ok, or_raise, both_ok, ok_inj, find_binding,
}
use wotbot.VirtualThings.Store.{
  RuntimeBinding, active_thing, or_one, runtime_binding, get_runtime_binding, stated,
  update_shared_state,
}
use wotbot.VirtualThings.Lifecycle.{Steps}
use wotbot.VirtualThings.SharedState.{
  Advances-refl, Steps-Later, active_found, update_shared_state-eq_ok,
}

-- The Thing of a binding that is read.
get_runtime_binding-eq_ok :
    (db : Db) (thing_id affordance_type affordance_name : String) (b : RuntimeBinding)
    → get_runtime_binding db thing_id affordance_type affordance_name ≡ ok b
    → (thing : VirtualThing) × (lookup thing_id db.things ≡ some thing)
      × (b.shared_state ≡ thing.shared_state)
      × (b.shared_state_version ≡ or_one thing.shared_state_version)
unfolding get_runtime_binding
get_runtime_binding-eq_ok db thing_id affordance_type affordance_name b h =
    let (thing, active, h₁) = both_ok (active_thing thing_id (lookup thing_id db.things)) _ h in
    let ((id, row), there, h₂) =
      both_ok
        (or_raise (find_binding thing_id affordance_type affordance_name db.bindings)
          (key_error affordance_name))
        _ h₁ in
    let same = ok_inj (runtime_binding thing id row) b h₂ in
    (
      thing,
      active_found thing_id (lookup thing_id db.things) thing active,
      ap (λ (r : RuntimeBinding). r.shared_state) (sym same),
      ap (λ (r : RuntimeBinding). r.shared_state_version) (sym same),
    )

-- When a handler's update is taken, the Thing still has the shared state that the handler was given,
-- and afterwards it has the new state, under the next version. This holds whatever calls on the
-- store ran between the handler's read and its update, if none of them deleted the Thing, and if
-- each definition that came with a shared state of its own wrote it over the one that it had read;
-- other definitions may have read any earlier row. The versions count from 1.
pub update_shared_state_fresh :
    (db db' : Db) (thing_id affordance_type affordance_name : String) (b : RuntimeBinding)
    (state : Json) (now : ℕ) (a : ℕ × Db)
    → ((t : VirtualThing) → lookup thing_id db.things ≡ some t → 0 < t.shared_state_version)
    → get_runtime_binding db thing_id affordance_type affordance_name ≡ ok b
    → Steps (λ j. j ≢ thing_id) db db'
    → update_shared_state db' thing_id b.shared_state_version state now ≡ ok a
    → (t : VirtualThing) × (lookup thing_id db'.things ≡ some t)
      × (t.shared_state ≡ b.shared_state)
      × (lookup thing_id a.1.things ≡ some (stated t state now))
      × (a.0 ≡ b.shared_state_version + 1)
update_shared_state_fresh db db' thing_id affordance_type affordance_name b state now a numbered
      read steps h =
    let (thing, found, given, version) =
      get_runtime_binding-eq_ok db thing_id affordance_type affordance_name b read in
    let (t, there, expected, written) =
      update_shared_state-eq_ok db' thing_id b.shared_state_version state now a h in
    let (t', there', (grows, keeps)) =
      Steps-Later thing_id thing steps (thing, found, Advances-refl thing) in
    let same : t' ≡ t = ground (arith, there, there') in
    let positive = numbered thing found in
    let old : t'.shared_state ≡ thing.shared_state =
      keeps (ground (arith, version, expected, same, positive)) in
    (
      t,
      there,
      ap (λ (r : VirtualThing). r.shared_state) (sym same) ∙ old ∙ sym given,
      ap (λ (p : ℕ × Db). lookup thing_id p.1.things) written
          ∙ lookup-insert_self thing_id (stated t state now) db'.things,
      ap (λ (p : ℕ × Db). p.0) written ∙ ap (λ n. n + 1) expected,
    )

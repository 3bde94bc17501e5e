-- ===== src/VirtualThings/Emission.antt =====
-- What the evaluation of an event writes, and what a dry run of it does not.
use wotbot.Base.{
  ℕ, String, ◌≡◌, ◌⊎◌, inl, inr, sym, ap, ◌∙◌, subst, true, false, some, arith, Bool-cases,
}
use wotbot.Base.Dict.{lookup, insert, lookup-insert_self}
use wotbot.Json.{Json, get}
use wotbot.VirtualThings.Tables.{
  VirtualThing, VirtualThingBinding, Db, key_error, ok, ◌>>=◌, or_raise, both_ok, ok_inj,
  raised_none,
}
use wotbot.VirtualThings.Store.{
  RuntimeBinding, update_binding_state, stated, update_binding_and_shared_state,
}
use wotbot.VirtualThings.SharedState.{update_shared_state-eq_ok}
use wotbot.VirtualThings.Dispatcher.{
  HandlerRunResult, shared_state_changed, fields, validate_event_result, EventResult, event_result,
  keep_event_state, finish_event,
}

-- The binding gets a new state, and the queue of events stays.
abbrev pub Kept : String → Json → ℕ → Db → Db → Type 0
Kept id state now db db' =
    (old : VirtualThingBinding) × (lookup id db.bindings ≡ some old)
    × (lookup id db'.bindings ≡ some (record old { state = state; updated_at = now }))
    × (db'.outbox ≡ db.outbox)

-- The Thing gets the shared state, from the version that was read.
abbrev pub Shared : String → ℕ → Json → ℕ → Db → Db → Type 0
Shared thing_id version state now db db' =
    (t : VirtualThing) × (lookup thing_id db.things ≡ some t)
    × (t.shared_state_version ≡ version)
    × (db'.things ≡ insert thing_id (stated t state now) db.things)

update_binding_state-Kept :
    (db db' : Db) (id : String) (state : Json) (now : ℕ)
    → update_binding_state db id state now ≡ ok db'
    → Kept id state now db db' × (db'.things ≡ db.things)
unfolding update_binding_state
update_binding_state-Kept db db' id state now h =
    let (old, found, h₁) = both_ok (or_raise (lookup id db.bindings) (key_error id)) _ h in
    let new = record old { state = state; updated_at = now } in
    let written = ok_inj _ db' h₁ in
    (
      (
        old,
        raised_none (lookup id db.bindings) (key_error id) old found,
        ap (λ (d : Db). lookup id d.bindings) (sym written) ∙ lookup-insert_self id new db.bindings,
        ap (λ (d : Db). d.outbox) (sym written),
      ),
      ap (λ (d : Db). d.things) (sym written),
    )

update_both-Kept :
    (db : Db) (id : String) (state : Json) (thing_id : String) (version : ℕ) (shared_state : Json)
    (now : ℕ) (a : ℕ × Db)
    → update_binding_and_shared_state db id state thing_id version shared_state now ≡ ok a
    → Kept id state now db a.1 × Shared thing_id version shared_state now db a.1
unfolding update_binding_and_shared_state
update_both-Kept db id state thing_id version shared_state now a h =
    let (db₁, first, h₁) = both_ok (update_binding_state db id state now) _ h in
    let ((old, found, kept, queue), things) = update_binding_state-Kept db db₁ id state now first in
    let (t, there, same, written) =
      update_shared_state-eq_ok db₁ thing_id version shared_state now a h₁ in
    (
      (
        old,
        found,
        ap (λ (p : ℕ × Db). lookup id p.1.bindings) written ∙ kept,
        ap (λ (p : ℕ × Db). p.1.outbox) written ∙ queue,
      ),
      (
        t,
        ap (lookup thing_id) (sym things) ∙ there,
        same,
        ap (λ (p : ℕ × Db). p.1.things) written
            ∙ ap (insert thing_id (stated t shared_state now)) things,
      ),
    )

-- The writes of an evaluation: the state of the binding, and the shared state if it has changed.
abbrev pub Evaluated : String → RuntimeBinding → HandlerRunResult → ℕ → Db → Db → Type 0
Evaluated thing_id b result now db db' =
    Kept b.id (get "state" (fields result.value)) now db db'
    × (((shared_state_changed b.shared_state result ≡ true)
          × Shared thing_id b.shared_state_version result.shared_state now db db')
        ⊎ ((shared_state_changed b.shared_state result ≡ false) × (db'.things ≡ db.things)))

keep_event_state-Evaluated :
    (db db' : Db) (thing_id : String) (b : RuntimeBinding) (result : HandlerRunResult) (now : ℕ)
    → keep_event_state db thing_id b result now ≡ ok db'
    → Evaluated thing_id b result now db db'
unfolding keep_event_state
keep_event_state-Evaluated db db' thing_id b result now h =
    let state = get "state" (fields result.value) in
    elim (Bool-cases (shared_state_changed b.shared_state result)) [
      | inl q ↦
          let h₁ : (update_binding_and_shared_state db b.id state thing_id b.shared_state_version
                  result.shared_state now
                >>= λ updated. ok updated.1)
              ≡ ok db' =
            ground (arith, h, q) in
          let (a, updated, h₂) =
            both_ok
              (update_binding_and_shared_state db b.id state thing_id b.shared_state_version
                result.shared_state now)
              _ h₁ in
          let (kept, shared) =
            update_both-Kept db b.id state thing_id b.shared_state_version result.shared_state now a
              updated in
          let same = ok_inj a.1 db' h₂ in
          subst (Evaluated thing_id b result now db) same (kept, inl (q, shared))
      | inr q ↦
          let h₁ : update_binding_state db b.id state now ≡ ok db' = ground (arith, h, q) in
          let (kept, things) = update_binding_state-Kept db db' b.id state now h₁ in
          (kept, inr (q, things))
    ]

-- An evaluation of an event that commits gives its binding the state that the handler returned, and
-- the Thing the handler's shared state exactly if that has changed and the version is still the one
-- that was read; it queues no event. A dry run on the same tables reports the same result, and
-- changes none of them.
pub finish_event-Evaluated :
    (db : Db) (thing_id event_name : String) (b : RuntimeBinding) (result : HandlerRunResult)
    (now : ℕ) (a : EventResult × Db)
    → finish_event false db thing_id event_name b result now ≡ ok a
    → Evaluated thing_id b result now db a.1
      × (validate_event_result event_name result.value ≡ ok a.0.emitted)
      × (finish_event true db thing_id event_name b result now ≡ ok (a.0, db))
unfolding finish_event
finish_event-Evaluated db thing_id event_name b result now a h =
    let (emitted, valid, h₁) = both_ok (validate_event_result event_name result.value) _ h in
    let (db', kept, h₂) = both_ok (keep_event_state db thing_id b result now) _ h₁ in
    let same = ok_inj (event_result thing_id event_name emitted result.value, db') a h₂ in
    subst
      (λ (p : EventResult × Db).
        Evaluated thing_id b result now db p.1
        × (validate_event_result event_name result.value ≡ ok p.0.emitted)
        × (finish_event true db thing_id event_name b result now ≡ ok (p.0, db)))
      same
      (
        keep_event_state-Evaluated db db' thing_id b result now kept,
        valid,
        ap (λ r. r >>= λ e. ok (event_result thing_id event_name e result.value, db)) valid,
      )

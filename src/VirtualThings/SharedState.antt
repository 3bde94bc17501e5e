-- ===== src/VirtualThings/SharedState.antt =====
-- What the calls on the store do to the shared state of a virtual Thing.
pub mod Fresh
use wotbot.Base.{
  ℕ, zero, suc, ◌+◌, ◌≤◌, ◌<◌, String, ◌≡◌, ◌≢◌, ◌⊎◌, inl, inr, refl, sym, ap, ◌∙◌, subst, Bool,
  true, false, Option, none, some, List, [], ◌∷◌, arith, Bool-cases, Option-cases, nat_eq, eq_iff,
  ==_self, ◌==◌, if◌then◌else◌,
}
use wotbot.Base.Dict.{
  Dict, lookup, insert, erase, lookup-insert_self, lookup-insert_ne, lookup-insert_cases,
  lookup-erase,
}
use wotbot.Json.{Json, json_eq}
use wotbot.VirtualThings.Tables.{
  VirtualThing, VirtualThingBinding, Db, Error, key_error, Result, ok, err, ◌>>=◌, or_raise,
  both_ok, ok_inj, raised_none, find_binding,
}
use wotbot.VirtualThings.Store.{
  DefineRequest, RuntimeBinding, with_shared_state, redefined_thing, created_thing, defined_thing,
  replace_bindings, write_definition, define_thing, enrich, apply_enrichment, delete_thing,
  status_thing, checked_status, set_status, active_thing, or_one, runtime_binding,
  get_runtime_binding, update_binding_state, stated, update_found, update_shared_state,
  update_binding_and_shared_state, enqueue_event_emission,
}
use wotbot.VirtualThings.Lifecycle.{
  Agrees, Step, define, enriched, delete, change_status, keep_state, share, keep_both, emit, Steps,
  here, next,
}

-- An update that is taken: the Thing has the expected version.
pub update_shared_state-eq_ok :
    (db : Db) (thing_id : String) (expected : ℕ) (state : Json) (now : ℕ) (a : ℕ × Db)
    → update_shared_state db thing_id expected state now ≡ ok a
    → (thing : VirtualThing) × (lookup thing_id db.things ≡ some thing)
      × (thing.shared_state_version ≡ expected)
      × (a ≡ (
        thing.shared_state_version + 1,
        record db { things = insert thing_id (stated thing state now) db.things },
      ))
unfolding update_shared_state
update_shared_state-eq_ok db thing_id expected state now a h =
    elim (Option-cases (lookup thing_id db.things)) [
      | inl n ↦ absurd (ground (arith, h, n))
      | inr (thing, f) ↦ elim (Bool-cases (nat_eq thing.shared_state_version expected)) [
        | inl q ↦ (thing, f, ground arith, ground (arith, h, f, q))
        | inr q ↦ absurd (ground (arith, h, f, q))
      ]
    ]

-- A newer row of a Thing: the version counts up, and the state is the same if the version is.
abbrev pub Advances : VirtualThing → VirtualThing → Type 0
Advances t t' =
    (t.shared_state_version ≤ t'.shared_state_version)
    × (t.shared_state_version ≡ t'.shared_state_version → t'.shared_state ≡ t.shared_state)

pub Advances-refl : (t : VirtualThing) → Advances t t
Advances-refl t = (omega arith, λ e. refl)

Advances-trans : (r s t : VirtualThing) → Advances r s → Advances s t → Advances r t
Advances-trans r s t (u, p) (v, q) = (omega arith, λ e. q (omega arith) ∙ p (omega arith))

-- The Thing is in the table, with a row that advances from `t`.
abbrev pub Later : String → VirtualThing → Dict VirtualThing → Type 0
Later k t things = (t' : VirtualThing) × (lookup k things ≡ some t') × Advances t t'

-- A write of a row keeps the Thing.
insert-Later :
    (k id : String) (t new : VirtualThing) (things : Dict VirtualThing)
    → ((old : VirtualThing) → lookup id things ≡ some old → Advances old new)
    → Later k t things
    → Later k t (insert id new things)
insert-Later k id t new things advances (old, found, a) = elim (Bool-cases (id == k)) [
  | inl q ↦
      let same = (eq_iff id k).0 q in
      (
        new,
        subst (λ j. lookup j (insert id new things) ≡ some new) same
            (lookup-insert_self id new things),
        Advances-trans t old new a
            (advances old (subst (λ j. lookup j things ≡ some old) (sym same) found)),
      )
  | inr q ↦
      let differ : id ≢ k = λ p. cc (q, (eq_iff id k).1 p) in
      (old, lookup-insert_ne id k new things differ ∙ found, a)
]

-- The row that a write replaces is the one that was found.
Advances-found :
    (id : String) (row new : VirtualThing) (things : Dict VirtualThing)
    → lookup id things ≡ some row
    → Advances row new
    → (old : VirtualThing) → lookup id things ≡ some old
    → Advances old new
Advances-found id row new things found a old there =
    let same : row ≡ old = ground (arith, found, there) in
    subst (λ (o : VirtualThing). Advances o new) same a

with_shared_state-Advances :
    (read thing : VirtualThing) (next : Option Json)
    → Agrees next (some read) (some thing)
    → Advances thing (with_shared_state read next thing)
unfolding with_shared_state
with_shared_state-Advances read thing none agrees = Advances-refl thing
with_shared_state-Advances read thing (some new) (_, version) =
    elim (Bool-cases (json_eq new read.shared_state)) [
      | inl q ↦ rw q (Advances-refl thing)
      | inr q ↦ rw q (omega (arith, version), λ e. absurd (omega (arith, version, e)))
    ]

defined_thing-Advances :
    (r : DefineRequest) (now : ℕ) (read o : Option VirtualThing) (old new : VirtualThing)
    → Agrees r.shared_state read o
    → o ≡ some old
    → defined_thing r now read o ≡ ok new
    → Advances old new
defined_thing-Advances r now read none old new agrees e h = cc e
defined_thing-Advances r now none (some thing) old new agrees e h = cc h
defined_thing-Advances r now (some read) (some thing) old new agrees e h =
    let same : thing ≡ old = cc e in
    subst (λ (t : VirtualThing). Advances t new) same
      (subst (Advances thing) (ok_inj (redefined_thing r now read thing) new h)
        (with_shared_state-Advances read thing r.shared_state agrees))

pub active_found :
    (thing_id : String) (o : Option VirtualThing) (thing : VirtualThing)
    → active_thing thing_id o ≡ ok thing
    → o ≡ some thing
active_found thing_id none thing h = cc h
active_found thing_id (some row) thing h = ground arith

module _ (k : String) (t : VirtualThing) where
  define-Later :
      (iso show fresh : ℕ → String) (db : Db) (read : Option VirtualThing) (r : DefineRequest)
      (now : ℕ) (a : VirtualThing × Db)
      → Agrees r.shared_state read (lookup r.id db.things)
      → write_definition iso show fresh db read r now ≡ ok a
      → Later k t db.things
      → Later k t a.1.things
  unfolding write_definition
  define-Later iso show fresh db read r now a agrees h later =
      let (new, defined, h₁) = both_ok (defined_thing r now read (lookup r.id db.things)) _ h in
      let (bindings, replaced, h₂) =
        both_ok (replace_bindings fresh r.id r.bindings now db.bindings) _ h₁ in
      subst (λ (p : VirtualThing × Db). Later k t p.1.things) (ok_inj _ a h₂)
        (insert-Later k r.id t new db.things
          (λ old found.
            defined_thing-Advances r now read (lookup r.id db.things) old new agrees found defined)
          later)

  enrich-Later :
      (iso show : ℕ → String) (db : Db) (thing_id : String) (td : Json) (base_version now : ℕ)
      (o : Option VirtualThing)
      → lookup thing_id db.things ≡ o
      → Later k t db.things
      → Later k t (enrich iso show db thing_id td base_version now o).1.things
  enrich-Later iso show db thing_id td base_version now none found later = later
  enrich-Later iso show db thing_id td base_version now (some thing) found later =
      let new = record thing { abstract_td = td; version = thing.version + 1; updated_at = now } in
      elim (Bool-cases (nat_eq thing.version base_version)) [
        | inl q ↦ rw q (
            insert-Later k thing_id t new db.things
              (Advances-found thing_id thing new db.things found (omega arith, λ e. refl)) later)
        | inr q ↦ rw q later
      ]

  delete-Later :
      (iso show : ℕ → String) (db db' : Db) (thing_id : String) (now : ℕ)
      → thing_id ≢ k
      → delete_thing iso show db thing_id now ≡ ok db'
      → Later k t db.things
      → Later k t db'.things
  unfolding delete_thing
  delete-Later iso show db db' thing_id now differ h (old, found, a) =
      let (thing, there, h₁) =
        both_ok (or_raise (lookup thing_id db.things) (key_error thing_id)) _ h in
      (
        old,
        sym (ap (λ (d : Db). lookup k d.things) (ok_inj _ db' h₁))
            ∙ ground (arith, found, lookup-erase thing_id k db.things, eq_iff thing_id k),
        a,
      )

  set_status-Later :
      (iso show : ℕ → String) (db : Db) (thing_id status : String) (now : ℕ) (a : VirtualThing × Db)
      → set_status iso show db thing_id status now ≡ ok a
      → Later k t db.things
      → Later k t a.1.things
  unfolding set_status
  set_status-Later iso show db thing_id status now a h later =
      let (u, valid, h₁) = both_ok (checked_status status) _ h in
      let (thing, there, h₂) =
        both_ok (or_raise (lookup thing_id db.things) (key_error thing_id)) _ h₁ in
      let found = raised_none (lookup thing_id db.things) (key_error thing_id) thing there in
      let new = status_thing thing status now in
      subst (λ (p : VirtualThing × Db). Later k t p.1.things) (ok_inj _ a h₂)
        (insert-Later k thing_id t new db.things
          (Advances-found thing_id thing new db.things found (omega arith, λ e. refl)) later)

  update_binding_state-Later :
      (db db' : Db) (binding_id : String) (state : Json) (now : ℕ)
      → update_binding_state db binding_id state now ≡ ok db'
      → Later k t db.things
      → Later k t db'.things
  unfolding update_binding_state
  update_binding_state-Later db db' binding_id state now h (old, found, a) =
      let (b, there, h₁) =
        both_ok (or_raise (lookup binding_id db.bindings) (key_error binding_id)) _ h in
      (old, sym (ap (λ (d : Db). lookup k d.things) (ok_inj _ db' h₁)) ∙ found, a)

  share-Later :
      (db : Db) (thing_id : String) (expected : ℕ) (state : Json) (now : ℕ) (a : ℕ × Db)
      → update_shared_state db thing_id expected state now ≡ ok a
      → Later k t db.things
      → Later k t a.1.things
  share-Later db thing_id expected state now a h later =
      let (thing, found, same, written) =
        update_shared_state-eq_ok db thing_id expected state now a h in
      subst (λ (p : ℕ × Db). Later k t p.1.things) (sym written)
        (insert-Later k thing_id t (stated thing state now) db.things
          (Advances-found thing_id thing (stated thing state now) db.things found
            (omega arith, λ e. absurd (omega arith)))
          later)

  both-Later :
      (db : Db) (binding_id : String) (state : Json) (thing_id : String) (expected : ℕ)
      (shared_state : Json) (now : ℕ) (a : ℕ × Db)
      → update_binding_and_shared_state db binding_id state thing_id expected shared_state now
        ≡ ok a
      → Later k t db.things
      → Later k t a.1.things
  unfolding update_binding_and_shared_state
  both-Later db binding_id state thing_id expected shared_state now a h later =
      let (db₁, kept, h₁) = both_ok (update_binding_state db binding_id state now) _ h in
      share-Later db₁ thing_id expected shared_state now a h₁
        (update_binding_state-Later db db₁ binding_id state now kept later)

  -- Every call that does not delete the Thing keeps it, with a row that advances.
  Step-Later : {db db' : Db} → Step (λ j. j ≢ k) db db' → Later k t db.things → Later k t db'.things
  unfolding apply_enrichment enqueue_event_emission
  Step-Later {db} (define iso show fresh read r now agrees h) later =
      define-Later iso show fresh db read r now _ agrees h later
  Step-Later {db} (enriched iso show thing_id td base_version now) later =
      enrich-Later iso show db thing_id td base_version now (lookup thing_id db.things) refl later
  Step-Later {db} (delete iso show thing_id now other h) later =
      delete-Later iso show db _ thing_id now other h later
  Step-Later {db} (change_status iso show thing_id status now h) later =
      set_status-Later iso show db thing_id status now _ h later
  Step-Later {db} (keep_state binding_id state now h) later =
      update_binding_state-Later db _ binding_id state now h later
  Step-Later {db} (share thing_id expected state now h) later =
      share-Later db thing_id expected state now _ h later
  Step-Later {db} (keep_both binding_id state thing_id expected shared_state now h) later =
      both-Later db binding_id state thing_id expected shared_state now _ h later
  Step-Later (emit iso thing_id event_name payload hash now) later = later

  pub Steps-Later :
      {db db' : Db} → Steps (λ j. j ≢ k) db db' → Later k t db.things → Later k t db'.things
  Steps-Later here later = later
  Steps-Later (next r s) later = Step-Later s (Steps-Later r later)

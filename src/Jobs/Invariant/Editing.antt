-- ===== src/Jobs/Invariant/Editing.antt =====
-- Creating a job and changing its definition keep the tables consistent.
use wotbot.Base.{
  ℕ, String, ◌≡◌, ◌≢◌, ◌⊎◌, inl, inr, refl, sym, ap, ◌∙◌, Bool, true, Option, none, some, arith,
  Bool-cases, Option-cases, eq_iff, ◌==◌, subst, ◌||◌, truthy,
}
use wotbot.Base.Dict.{
  Dict, lookup, has_key, insert, insert-IsDict, lookup-insert_cases, lookup-insert_self,
  lookup-insert_ne,
}
use wotbot.Json.{Json}
use wotbot.Jobs.Enums.{in_progress, has_status}
use wotbot.Jobs.Records.{JobRow, RunRow, Db, get_job, get_run, save_job, locked_job_row, Thread}
use wotbot.Jobs.Schedule.{TimeSchedule}
use wotbot.Jobs.Definitions.{
  Definition, created_job, job_thread, create_job, update_job_row, disabled_job, disable_job,
  subscribed_job, set_subscription_id, reported_health, set_job_resource_health, updated_job,
  update_job_metadata, redefined_job, replace_job_definition,
}
use wotbot.Jobs.Invariant.{IsTidy, IsConsistent, CommitsConsistent}

-- The columns that the runs use are kept.
abbrev KeepsRuns : JobRow → JobRow → Type 0
KeepsRuns row row' =
    (row'.id ≡ row.id)
    × (row'.active_run_id ≡ row.active_run_id)
    × (row'.active_run_started_at ≡ row.active_run_started_at)
    × (row'.active_run_source ≡ row.active_run_source)
    × (row'.last_run_status ≡ row.last_run_status)

KeepsRuns-IsTidy : (row row' : JobRow) → KeepsRuns row row' → IsTidy row → IsTidy row'
KeepsRuns-IsTidy row row' (i, a, t, s, l) tidy = record {
  busy = λ h. ap truthy a ∙ tidy.busy (ap (has_status in_progress) (sym l) ∙ h);
  idle = λ h. let (x, y) = tidy.idle (sym a ∙ h) in (t ∙ x, s ∙ y);
}

module _ {Late : String → Type 0} (db : Db) (k : String) (row row' : JobRow)
    (before : IsConsistent Late db) (found : get_job db k ≡ some row)
    (keeps : KeepsRuns row row') where
  abbrev edited : Db
  edited = record db { jobs = insert k row' db.jobs }

  abbrev Edited : String → JobRow → Type 0
  Edited i x = ((k ≡ i) × (x ≡ row')) ⊎ ((k ≢ i) × (get_job db i ≡ some x))

  cases : (i : String) (x : JobRow) → get_job edited i ≡ some x → Edited i x
  cases i x h = lookup-insert_cases k i row' x db.jobs h

  -- Each row has the active run that the row before had.
  old :
      (i : String) (x : JobRow)
      → Edited i x
      → (y : JobRow) × (get_job db i ≡ some y) × (KeepsRuns y x)
  old i x (inl (e, p)) =
      (row, subst (λ z. get_job db z ≡ some row) e found, subst (KeepsRuns row) (sym p) keeps)
  old i x (inr (ne, h)) = (x, h, (refl, refl, refl, refl, refl))

  kept :
      (i : String) (x : JobRow) → get_job db i ≡ some x → (y : JobRow) × (get_job edited i ≡ some y)
  kept i x h = elim (Bool-cases (k == i)) [
    | inl e ↦ (
      row',
      subst (λ z. get_job edited z ≡ some row') ((eq_iff k i).0 e)
          (lookup-insert_self k row' db.jobs),
    )
    | inr e ↦ (x, lookup-insert_ne k i row' db.jobs (λ p. cc (e, (eq_iff k i).1 p)) ∙ h)
  ]

  kept_turn :
      (i j : String) (y x : JobRow)
      → KeepsRuns y x
      → Late i ⊎ (y.active_run_id ≡ some j)
      → Late i ⊎ (x.active_run_id ≡ some j)
  kept_turn i j y x q (inl late) = inl late
  kept_turn i j y x q (inr a) = inr (q.1 ∙ a)

  edited-IsConsistent : IsConsistent Late edited
  edited-IsConsistent = record {
    table = insert-IsDict k row' db.jobs before.table;
    run_table = before.run_table;
    job_id = λ i x h. let (y, g, q) = old i x (cases i x h) in q.0 ∙ before.job_id i y g;
    run_id = before.run_id;
    tidy = λ i x h.
        let (y, g, q) = old i x (cases i x h) in KeepsRuns-IsTidy y x q (before.tidy i y g);
    owner = λ j r h. let (y, g) = before.owner j r h in kept r.job_id y g;
    active =
        λ i j x h a. let (y, g, q) = old i x (cases i x h) in before.active i j y g (sym (q.1) ∙ a);
    single = λ j r x h pr g.
        let (y, g', q) = old r.job_id x (cases r.job_id x g) in
        kept_turn r.job_id j y x q (before.single j r y h pr g');
  }

-- A change of the definition, saved under the row's own key.
save-IsConsistent :
    {Late : String → Type 0}
    → (db : Db) (k : String) (row row' : JobRow) → IsConsistent Late db
    → get_job db k ≡ some row
    → KeepsRuns row row'
    → IsConsistent Late (save_job row' db)
save-IsConsistent {Late} db k row row' before found keeps =
    subst (λ z. IsConsistent Late (record db { jobs = insert z row' db.jobs }))
      (sym (keeps.0 ∙ before.job_id k row found))
      (edited-IsConsistent db k row row' before found keeps)

update_job_row-IsConsistent :
    {Late : String → Type 0}
    → (change : JobRow → JobRow) → ((row : JobRow) → KeepsRuns row (change row))
    → (db : Db) (k : String) → IsConsistent Late db
    → IsConsistent Late (update_job_row change db k)
update_job_row-IsConsistent change keeps db k before = elim (Option-cases (get_job db k)) [
  | inl e ↦ rw (e, update_job_row) before
  | inr (row, e) ↦
      rw (e, update_job_row) (save-IsConsistent db k row (change row) before e (keeps row))
]

pub disable_job-IsConsistent :
    {Late : String → Type 0}
    → (db : Db) (k : String) (now : ℕ) → IsConsistent Late db
    → IsConsistent Late (disable_job db k now)
unfolding disable_job
disable_job-IsConsistent db k now =
    update_job_row-IsConsistent (disabled_job now) (λ row. (refl, refl, refl, refl, refl)) db k

pub set_subscription_id-IsConsistent :
    {Late : String → Type 0}
    → (db : Db) (k : String) (subscription_id : Option String) (now : ℕ) → IsConsistent Late db
    → IsConsistent Late (set_subscription_id db k subscription_id now)
unfolding set_subscription_id
set_subscription_id-IsConsistent db k subscription_id now =
    update_job_row-IsConsistent (subscribed_job subscription_id now)
      (λ row. (refl, refl, refl, refl, refl)) db k

pub set_job_resource_health-IsConsistent :
    {Late : String → Type 0}
    → (iso : ℕ → String) (db : Db) (k resource status : String) (message : Option String) (now : ℕ)
    → IsConsistent Late db
    → IsConsistent Late (set_job_resource_health iso db k resource status message now)
unfolding set_job_resource_health
set_job_resource_health-IsConsistent iso db k resource status message now =
    update_job_row-IsConsistent (reported_health iso resource status message now)
      (λ row. (refl, refl, refl, refl, refl)) db k

pub update_job_metadata-IsConsistent :
    {Late : String → Type 0}
    → (time_schedule : Json → Option TimeSchedule)
      (cron_next : String → Option String → ℕ → Option ℕ) (db : Db) (k : String)
      (name : Option String) (enabled : Option Bool) (now : ℕ)
    → IsConsistent Late db
    → CommitsConsistent Late (update_job_metadata time_schedule cron_next db k name enabled now)
unfolding update_job_metadata locked_job_row
update_job_metadata-IsConsistent time_schedule cron_next db k name enabled now before =
    elim (Option-cases (get_job db k)) [
      | inl e ↦ rw e tt
      | inr (row, e) ↦ rw e (
          save-IsConsistent db k row (updated_job time_schedule cron_next name enabled now row)
            before e (refl, refl, refl, refl, refl))
    ]

pub replace_job_definition-IsConsistent :
    {Late : String → Type 0}
    → (db : Db) (k : String) (d : Definition) (next_run_at : Option ℕ)
      (subscription_id : Option String) (now : ℕ)
    → IsConsistent Late db
    → CommitsConsistent Late (replace_job_definition db k d next_run_at subscription_id now)
unfolding replace_job_definition locked_job_row
replace_job_definition-IsConsistent db k d next_run_at subscription_id now before =
    elim (Option-cases (get_job db k)) [
      | inl e ↦ rw e tt
      | inr (row, e) ↦ rw e (
          save-IsConsistent db k row (redefined_job d next_run_at subscription_id now row) before e
            (refl, refl, refl, refl, refl))
    ]

-- A new job has no run.
module _ {Late : String → Type 0} (db : Db) (k : String) (row : JobRow)
    (before : IsConsistent Late db) (new : get_job db k ≡ none) (id' : row.id ≡ k)
    (active : row.active_run_id ≡ none) (tidy : IsTidy row) where
  new_cases :
      (i : String) (x : JobRow)
      → lookup i (insert k row db.jobs) ≡ some x
      → ((k ≡ i) × (x ≡ row)) ⊎ ((k ≢ i) × (get_job db i ≡ some x))
  new_cases i x = lookup-insert_cases k i row x db.jobs

  abbrev Added : String → JobRow → Type 0
  Added i x = ((k ≡ i) × (x ≡ row)) ⊎ ((k ≢ i) × (get_job db i ≡ some x))

  Added-id : (i : String) (x : JobRow) → Added i x → x.id ≡ i
  Added-id i x (inl (e, p)) = ap (λ (z : JobRow). z.id) p ∙ id' ∙ e
  Added-id i x (inr (_, h)) = before.job_id i x h

  Added-IsTidy : (i : String) (x : JobRow) → Added i x → IsTidy x
  Added-IsTidy i x (inl (e, p)) = subst IsTidy (sym p) tidy
  Added-IsTidy i x (inr (_, h)) = before.tidy i x h

  still :
      (i : String) (x : JobRow) → get_job db i ≡ some x → lookup i (insert k row db.jobs) ≡ some x
  still i x h =
      lookup-insert_ne k i row db.jobs (λ p. cc (subst (λ z. get_job db z ≡ some x) (sym p) h, new))
      ∙ h

  Added-active :
      (i j : String) (x : JobRow)
      → Added i x
      → x.active_run_id ≡ some j
      → (r : RunRow) × (get_run db j ≡ some r) × (r.job_id ≡ i)
  Added-active i j x (inl (e, p)) a = cc (active, p, a)
  Added-active i j x (inr (_, h)) a = before.active i j x h a

  Added-single :
      (j : String) (r : RunRow) (x : JobRow)
      → get_run db j ≡ some r
      → in_progress r.status ≡ true
      → Added r.job_id x
      → Late r.job_id ⊎ (x.active_run_id ≡ some j)
  Added-single j r x h pr (inl (e, p)) =
      let (y, g) = before.owner j r h in
      let g' : get_job db k ≡ some y = subst (λ z. get_job db z ≡ some y) (sym e) g in cc (new, g')
  Added-single j r x h pr (inr (_, g)) = before.single j r x h pr g

  added-IsConsistent :
      (threads : Dict Thread)
      → IsConsistent Late (record db { jobs = insert k row db.jobs; threads = threads })
  added-IsConsistent threads = record {
    table = insert-IsDict k row db.jobs before.table;
    run_table = before.run_table;
    job_id = λ i x h. Added-id i x (new_cases i x h);
    run_id = before.run_id;
    tidy = λ i x h. Added-IsTidy i x (new_cases i x h);
    owner = λ j r h. let (y, g) = before.owner j r h in (y, still r.job_id y g);
    active = λ i j x h a. Added-active i j x (new_cases i x h) a;
    single = λ j r x h pr g. Added-single j r x h pr (new_cases r.job_id x g);
  }

pub create_job-IsConsistent :
    {Late : String → Type 0}
    → (iso : ℕ → String) (db : Db) (job_id name : String) (created_from_thread_id : Option String)
      (d : Definition) (next_run_at : Option ℕ) (subscription_id : Option String) (now : ℕ)
    → IsConsistent Late db
    → CommitsConsistent Late
        (create_job iso db job_id name created_from_thread_id d next_run_at subscription_id now)
unfolding create_job
create_job-IsConsistent iso db job_id name created_from_thread_id d next_run_at subscription_id now
      before =
    let row = created_job job_id name created_from_thread_id d next_run_at subscription_id now in
    let thread = job_thread iso job_id name now in
    elim (Bool-cases (has_key job_id db.jobs || has_key thread.id db.threads)) [
      | inl t ↦ rw t tt
      | inr t ↦ rw t (
          added-IsConsistent db job_id row before (ground (arith, t)) refl refl
            (record { busy = λ h. cc; idle = λ _. (refl, refl) })
            (insert thread.id thread db.threads))
    ]

-- ===== src/Jobs/Invariant.antt =====
-- The invariant of the job tables, and what a transaction on one job and one run must respect.
pub mod Cancelling
pub mod Starting
pub mod Replying
pub mod Finishing
pub mod Sweeping
pub mod Editing
pub mod Deleting
use wotbot.Base.{
  String, ◌≡◌, ◌≢◌, ◌⊎◌, inl, inr, refl, sym, ap, ◌∙◌, subst, subst₂, ◌==◌, eq_iff, Bool-cases,
  Bool, true, false, Option, none, some, arith, truthy,
}
use wotbot.Base.Dict.{
  Dict, lookup, insert, lookup-insert_self, lookup-insert_ne, lookup-insert_cases, IsDict,
  insert-IsDict,
}
use wotbot.Jobs.Enums.{in_progress, has_status}
use wotbot.Jobs.Records.{JobRow, RunRow, Db, Result, ok, err, get_job, get_run}

-- A job in progress names its run, and a job without an active run has none of its columns.
pub record IsTidy (row : JobRow) : Type 0 where
  pub busy : has_status in_progress row.last_run_status ≡ true → truthy row.active_run_id ≡ true
  pub idle :
      row.active_run_id ≡ none → (row.active_run_started_at ≡ none) × (row.active_run_source ≡ none)

-- `Late` tells of which jobs a run may have been left waiting that was not the active one.
pub record IsConsistent (Late : String → Type 0) (db : Db) : Type 0 where
  pub table : IsDict db.jobs
  pub run_table : IsDict db.runs
  pub job_id : (k : String) (row : JobRow) → get_job db k ≡ some row → row.id ≡ k
  pub run_id :
      (j : String) (r : RunRow) → get_run db j ≡ some r → (r.id ≡ j) × (truthy (some j) ≡ true)
  pub tidy : (k : String) (row : JobRow) → get_job db k ≡ some row → IsTidy row
  -- every run belongs to a job
  pub owner :
      (j : String) (r : RunRow)
      → get_run db j ≡ some r
      → (row : JobRow) × (get_job db r.job_id ≡ some row)
  -- the active run of a job is one of its runs
  pub active :
      (k j : String) (row : JobRow)
      → get_job db k ≡ some row
      → row.active_run_id ≡ some j
      → (r : RunRow) × (get_run db j ≡ some r) × (r.job_id ≡ k)
  -- a run in progress is the active run of its job, unless that one is late
  pub single :
      (j : String) (r : RunRow) (row : JobRow)
      → get_run db j ≡ some r
      → in_progress r.status ≡ true
      → get_job db r.job_id ≡ some row
      → Late r.job_id ⊎ (row.active_run_id ≡ some j)

-- A transaction that commits leaves the tables consistent; one that raises changes nothing.
abbrev pub CommitsConsistent {ℓ} : (String → Type 0) → {A : Type ℓ} → Result (A × Db) → Type 0
CommitsConsistent Late (ok (a, db)) = IsConsistent Late db
CommitsConsistent Late (err e) = Unit

-- A transaction replaces job `k` and replaces or adds run `j` of that job.
pub record Respects (Late : String → Type 0) (db : Db) (k j : String) (row row' : JobRow)
    (r' : RunRow) : Type 0 where
  pub found : get_job db k ≡ some row
  pub job_id : row'.id ≡ k
  pub run_id : (r'.id ≡ j) × (truthy (some j) ≡ true)
  pub owner : r'.job_id ≡ k
  pub tidy : IsTidy row'
  pub same_owner : (r : RunRow) → get_run db j ≡ some r → r.job_id ≡ k
  pub active : (i : String) → row'.active_run_id ≡ some i → (j ≡ i) ⊎ (row.active_run_id ≡ some i)
  pub progress : in_progress r'.status ≡ true → row'.active_run_id ≡ some j
  pub others :
      (i : String) (r : RunRow)
      → j ≢ i
      → get_run db i ≡ some r
      → in_progress r.status ≡ true
      → row.active_run_id ≡ some i
      → Late k ⊎ (row'.active_run_id ≡ some i)

module _ {Late : String → Type 0} (db db' : Db) (k j : String) (row row' : JobRow) (r' : RunRow)
    (jobs : db'.jobs ≡ insert k row' db.jobs) (runs : db'.runs ≡ insert j r' db.runs)
    (before : IsConsistent Late db) (step : Respects Late db k j row row' r') where
  abbrev NewJob : String → JobRow → Type 0
  NewJob i x = ((k ≡ i) × (x ≡ row')) ⊎ ((k ≢ i) × (get_job db i ≡ some x))

  abbrev NewRun : String → RunRow → Type 0
  NewRun i x = ((j ≡ i) × (x ≡ r')) ⊎ ((j ≢ i) × (get_run db i ≡ some x))

  job_cases : (i : String) (x : JobRow) → get_job db' i ≡ some x → NewJob i x
  job_cases i x h = lookup-insert_cases k i row' x db.jobs (rw jobs at h)

  run_cases : (i : String) (x : RunRow) → get_run db' i ≡ some x → NewRun i x
  run_cases i x h = lookup-insert_cases j i r' x db.runs (rw runs at h)

  new_job : get_job db' k ≡ some row'
  new_job = rw jobs (lookup-insert_self k row' db.jobs)

  new_run : get_run db' j ≡ some r'
  new_run = rw runs (lookup-insert_self j r' db.runs)

  old_job : (i : String) → k ≢ i → get_job db' i ≡ get_job db i
  old_job i h = rw jobs (lookup-insert_ne k i row' db.jobs h)

  old_run : (i : String) → j ≢ i → get_run db' i ≡ get_run db i
  old_run i h = rw runs (lookup-insert_ne j i r' db.runs h)

  job_id' : (i : String) (x : JobRow) → NewJob i x → x.id ≡ i
  job_id' i x (inl (e, p)) = rw p (step.job_id ∙ e)
  job_id' i x (inr (_, h)) = before.job_id i x h

  run_id' : (i : String) (x : RunRow) → NewRun i x → (x.id ≡ i) × (truthy (some i) ≡ true)
  run_id' i x (inl (e, p)) =
      subst₂ (λ (z : String) (w : RunRow). (w.id ≡ z) × (truthy (some z) ≡ true)) e (sym p)
        step.run_id
  run_id' i x (inr (_, h)) = before.run_id i x h

  tidy' : (i : String) (x : JobRow) → NewJob i x → IsTidy x
  tidy' i x (inl (e, p)) = subst IsTidy (sym p) step.tidy
  tidy' i x (inr (_, h)) = before.tidy i x h

  -- A job that was there is still there.
  kept_job :
      (i : String) (x : JobRow) → get_job db i ≡ some x → (y : JobRow) × (get_job db' i ≡ some y)
  kept_job i x h = elim (Bool-cases (k == i)) [
    | inl e ↦ (row', subst (λ z. get_job db' z ≡ some row') ((eq_iff k i).0 e) new_job)
    | inr e ↦ (x, old_job i (λ p. cc (e, (eq_iff k i).1 p)) ∙ h)
  ]

  owner' : (i : String) (x : RunRow) → NewRun i x → (y : JobRow) × (get_job db' x.job_id ≡ some y)
  owner' i x (inl (e, p)) = (
    row',
    subst (λ (w : RunRow). get_job db' w.job_id ≡ some row') (sym p)
        (subst (λ z. get_job db' z ≡ some row') (sym step.owner) new_job),
  )
  owner' i x (inr (_, h)) = let (y, e) = before.owner i x h in kept_job x.job_id y e

  -- A run of job `i` that was there is there still, or it is run `j`, and `i` is `k`.
  kept_run :
      (m i : String) (r : RunRow)
      → get_run db m ≡ some r
      → r.job_id ≡ i
      → (x : RunRow) × (get_run db' m ≡ some x) × (x.job_id ≡ i)
  kept_run m i r h own = elim (Bool-cases (j == m)) [
    | inl e ↦
        let e' = (eq_iff j m).0 e in
        (
          r',
          subst (λ z. get_run db' z ≡ some r') e' new_run,
          step.owner
              ∙ sym (step.same_owner r (subst (λ z. get_run db z ≡ some r) (sym e') h))
              ∙ own,
        )
    | inr e ↦ (r, old_run m (λ p. cc (e, (eq_iff j m).1 p)) ∙ h, own)
  ]

  active' :
      (i m : String) (x : JobRow)
      → NewJob i x
      → x.active_run_id ≡ some m
      → (r : RunRow) × (get_run db' m ≡ some r) × (r.job_id ≡ i)
  active' i m x (inl (e, p)) a =
      elim (step.active m (subst (λ (w : JobRow). w.active_run_id ≡ some m) p a)) [
        | inl q ↦ (r', subst (λ z. get_run db' z ≡ some r') q new_run, step.owner ∙ e)
        | inr q ↦ let (r, h, own) = before.active k m row step.found q in kept_run m i r h (own ∙ e)
      ]
  active' i m x (inr (_, h)) a = let (r, g, own) = before.active i m x h a in kept_run m i r g own

  others' :
      (i : String) (x : RunRow)
      → j ≢ i
      → get_run db i ≡ some x
      → in_progress x.status ≡ true
      → Late k ⊎ (row.active_run_id ≡ some i)
      → Late k ⊎ (row'.active_run_id ≡ some i)
  others' i x ne h pr (inl late) = inl late
  others' i x ne h pr (inr a) = step.others i x ne h pr a

  single' :
      (i : String) (x : RunRow) (y : JobRow)
      → NewRun i x
      → in_progress x.status ≡ true
      → NewJob x.job_id y
      → Late x.job_id ⊎ (y.active_run_id ≡ some i)
  single' i x y (inl (e, p)) pr (inl (_, q)) = inr (
      subst₂ (λ (z : String) (w : JobRow). w.active_run_id ≡ some z) e (sym q)
        (step.progress (subst (λ (w : RunRow). in_progress w.status ≡ true) p pr)))
  single' i x y (inl (e, p)) pr (inr (ne, _)) =
      absurd (ne (sym step.owner ∙ ap (λ (w : RunRow). w.job_id) (sym p)))
  single' i x y (inr (ne, h)) pr (inl (e, q)) =
      subst₂ (λ (z : String) (w : JobRow). Late z ⊎ (w.active_run_id ≡ some i)) e (sym q)
        (others' i x ne h pr (
          subst (λ z. Late z ⊎ (row.active_run_id ≡ some i)) (sym e)
            (before.single i x row h pr (subst (λ z. get_job db z ≡ some row) e step.found))))
  single' i x y (inr (ne, h)) pr (inr (_, g)) = before.single i x y h pr g

  -- Such a transaction keeps the tables consistent.
  pub Respects-IsConsistent : IsConsistent Late db'
  Respects-IsConsistent = record {
    table = rw jobs (insert-IsDict k row' db.jobs before.table);
    run_table = rw runs (insert-IsDict j r' db.runs before.run_table);
    job_id = λ i x h. job_id' i x (job_cases i x h);
    run_id = λ i x h. run_id' i x (run_cases i x h);
    tidy = λ i x h. tidy' i x (job_cases i x h);
    owner = λ i x h. owner' i x (run_cases i x h);
    active = λ i m x h. active' i m x (job_cases i x h);
    single = λ i x y h pr g. single' i x y (run_cases i x h) pr (job_cases x.job_id y g);
  }

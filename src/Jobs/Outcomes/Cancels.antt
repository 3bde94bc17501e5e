-- ===== src/Jobs/Outcomes/Cancels.antt =====
-- When a run can be cancelled, and what a run that is finished after it was cancelled looks like.
use wotbot.Base.{
  ℕ, ◌+◌, String, ◌≡◌, inl, inr, refl, sym, ap, ◌∙◌, subst, Bool, true, false, Option, none, some,
  arith, Bool-cases, if◌then◌else◌, opt_eq,
}
use wotbot.Base.Dict.{lookup, insert, lookup-insert_self}
use wotbot.Json.{Json}
use wotbot.Jobs.Enums.{JobRunStatus, in_progress, is_waiting, has_status}
use wotbot.Jobs.Records.{
  JobRow, RunRow, Db, job_run_not_cancellable, Result, ok, err, get_job, get_run, locked_job_row,
}
use wotbot.Jobs.Events.{add_job_run_event}
use wotbot.Jobs.Cancel.{cancel_run_row, cancelled_job, cancel_locked, cancel_active_run}
use wotbot.Jobs.Finish.{Outcome, finished_run, ended_job, apply_finished_run_to_job, finish_job_run}
use wotbot.Jobs.Outcomes.Finishes.{finish_job_run-tables}
use wotbot.Jobs.Invariant.{IsConsistent, CommitsConsistent}
use wotbot.Jobs.Invariant.Cancelling.{cancel_active_run-IsConsistent}

abbrev pub can_cancel : JobRow → Bool
can_cancel row = elim row.active_run_id [
  | none ↦ false
  | some _ ↦ has_status in_progress row.last_run_status
]

-- What a call does to job `k`, whose row is `row`.
abbrev pub IsCancel : Db → String → JobRow → ℕ → Result (JobRow × Db) → Type 0
IsCancel db k row now (err e) = (can_cancel row ≡ false) × (e ≡ job_run_not_cancellable k)
IsCancel db k row now (ok (row', db')) =
    (can_cancel row ≡ true)
    × (get_job db' k ≡ some row')
    × (row' ≡ cancelled_job row now)
    × ((j : String) × (r : RunRow) × (row.active_run_id ≡ some j)
        × (get_run db' j ≡ some r)
        × (r.job_id ≡ k)
        × (r.status ≡ JobRunStatus.cancelled))
    × (cancel_active_run db' k now ≡ err (job_run_not_cancellable k))

module _ {Late : String → Type 0} (db : Db) (k : String) (row : JobRow) (now : ℕ)
    (before : IsConsistent Late db) (found : get_job db k ≡ some row) where
  saved_job :
      lookup k (insert row.id (cancelled_job row now) db.jobs) ≡ some (cancelled_job row now)
  saved_job =
      subst
        (λ z. lookup k (insert z (cancelled_job row now) db.jobs) ≡ some (cancelled_job row now))
        (sym (before.job_id k row found)) (lookup-insert_self k (cancelled_job row now) db.jobs)

  id' : row.id ≡ k
  id' = before.job_id k row found

  cancel_again :
      (d : Db)
      → get_job d k ≡ some (cancelled_job row now)
      → cancel_active_run d k now ≡ err (job_run_not_cancellable k)
  unfolding cancel_active_run locked_job_row cancel_locked
  cancel_again d h = rw h (ap (λ z. err (job_run_not_cancellable z)) id')

  cancel_locked-IsCancel :
      (o : Option String)
      → row.active_run_id ≡ o
      → IsCancel db k row now (cancel_locked db row o now)
  unfolding cancel_locked cancel_run_row add_job_run_event
  cancel_locked-IsCancel none a = (rw a refl, ap job_run_not_cancellable id')
  cancel_locked-IsCancel (some j) a =
      elim (Bool-cases (has_status in_progress row.last_run_status)) [
        | inr p ↦ rw p (ground (arith, a, p), ap job_run_not_cancellable id')
        | inl p ↦
            let (r, run, own) = before.active k j row found a in
            let r' : RunRow = record r {
              status = JobRunStatus.cancelled;
              error = some "Run cancelled by user.";
              finished_at = some now;
            } in
            rw p (
              rw run (
                ground (arith, a, p),
                saved_job,
                refl,
                (
                  j,
                  r',
                  a,
                  subst (λ z. lookup j (insert z r' db.runs) ≡ some r')
                      (sym ((before.run_id j r run).0)) (lookup-insert_self j r' db.runs),
                  own,
                  refl,
                ),
                cancel_again _ saved_job,
              ))
      ]

  pub cancel_active_run-IsCancel : IsCancel db k row now (cancel_active_run db k now)
  unfolding cancel_active_run locked_job_row
  cancel_active_run-IsCancel = rw found (cancel_locked-IsCancel row.active_run_id refl)

-- Finishing a run with an outcome that does not wait.
module _ {Late : String → Type 0} (record_message : Json → String) (db : Db) (j k : String)
    (o : Outcome) (now : ℕ) (row : JobRow) (r : RunRow) (before : IsConsistent Late db)
    (found : get_job db k ≡ some row) (run : get_run db j ≡ some r)
    (ends : is_waiting o.status ≡ false) where
  abbrev after : Db
  after = finish_job_run record_message db j k o now

  applied :
      apply_finished_run_to_job row (some (finished_run r o now)) j o now ≡ ended_job row j o now
  unfolding apply_finished_run_to_job
  applied = rw ends refl

  tables :
      (after.jobs ≡ insert k (ended_job row j o now) db.jobs)
      × (after.runs ≡ insert j (finished_run r o now) db.runs)
  tables =
      let t = finish_job_run-tables record_message db j k o now row r before found run in
      (t.0 ∙ ap (λ w. insert k w db.jobs) applied, t.1)

  -- The run has the reported status, the job is counted once more, and its active run is cleared if
  -- it is the finished one and stays otherwise.
  pub finish_job_run-ended :
      (get_run after j ≡ some (finished_run r o now))
      × ((x : JobRow) × (get_job after k ≡ some x)
          × (x.active_run_id ≡ (if opt_eq row.active_run_id j then none else row.active_run_id))
          × (x.run_count ≡ row.run_count + 1)
          × (x.last_run_status ≡ some o.status))
  finish_job_run-ended = (
    ap (lookup j) (tables.1) ∙ lookup-insert_self j (finished_run r o now) db.runs,
    (
      ended_job row j o now,
      ap (lookup k) (tables.0) ∙ lookup-insert_self k (ended_job row j o now) db.jobs,
      ground arith,
      ground arith,
      ground arith,
    ),
  )

cancelled-IsConsistent :
    {Late : String → Type 0}
    → (db db₁ : Db) (k : String) (now : ℕ) (row : JobRow) → IsConsistent Late db
    → cancel_active_run db k now ≡ ok (row, db₁)
    → IsConsistent Late db₁
cancelled-IsConsistent {Late} db db₁ k now row before e =
    subst (CommitsConsistent Late) e (cancel_active_run-IsConsistent db k now before)

-- A cancelled run whose executor reports its end afterwards is counted twice, and the status that
-- the executor reports takes the place of `cancelled`, in the run and in the job.
pub finish_job_run-cancel_active_run :
    {Late : String → Type 0}
    → (record_message : Json → String) (db db₁ : Db) (j k : String) (o : Outcome) (now now' : ℕ)
      (row row₁ : JobRow)
    → IsConsistent Late db
    → get_job db k ≡ some row
    → row.active_run_id ≡ some j
    → cancel_active_run db k now ≡ ok (row₁, db₁)
    → is_waiting o.status ≡ false
    → let db₂ = finish_job_run record_message db₁ j k o now' in
      ((r : RunRow) × (get_run db₂ j ≡ some r) × (r.status ≡ o.status))
      × ((x : JobRow) × (get_job db₂ k ≡ some x)
          × (x.last_run_status ≡ some o.status)
          × (x.run_count ≡ row.run_count + 2))
finish_job_run-cancel_active_run record_message db db₁ j k o now now' row row₁ before found a e
      ends =
    let after₁ = cancelled-IsConsistent db db₁ k now row₁ before e in
    let (_, there, is, (i, r, a', run, _, _), _) =
      subst (IsCancel db k row now) e (cancel_active_run-IsCancel db k row now before found) in
    let same : i ≡ j = ground (arith, a, a') in
    let run' : get_run db₁ j ≡ some r = subst (λ z. get_run db₁ z ≡ some r) same run in
    let (run₂, (x, job₂, _, count, last)) =
      finish_job_run-ended record_message db₁ j k o now' row₁ r after₁ there run' ends in
    let count₁ : row₁.run_count ≡ row.run_count + 1 = ap (λ (z : JobRow). z.run_count) is in
    ((finished_run r o now', run₂, refl), (x, job₂, last, omega (arith, count, count₁)))

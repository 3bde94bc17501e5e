-- ===== src/Jobs/Outcomes/Races.antt =====
-- Orders of transactions after which the active run of a job can no longer be cancelled.
use wotbot.Base.{
  ℕ, String, ◌≡◌, ◌≢◌, refl, sym, subst, true, false, Option, none, some, [], ◌∷◌, ◌++◌, arith,
  eq_iff,
}
use wotbot.Base.Dict.{lookup, insert, lookup-insert_self}
use wotbot.Json.{Json, str, dict}
use wotbot.Jobs.Enums.{
  JobRunSource, JobRunStatus, JobRunEventType, in_progress, is_waiting, is_manual, has_status,
}
use wotbot.Jobs.Records.{
  JobRow, RunRow, Db, job_run_not_cancellable, ok, err, get_job, get_run, save_job, save_run,
  add_run-new, locked_job_row,
}
use wotbot.Jobs.Events.{add_job_run_event}
use wotbot.Jobs.Cancel.{cancel_active_run, cancel_locked}
use wotbot.Jobs.Start.{
  trigger_event, skipped_run, skipped_job, create_skipped_run, try_start_job_run,
}
use wotbot.Jobs.Finish.{Outcome, finish_job_run}
use wotbot.Jobs.Invariant.{IsConsistent}
use wotbot.Jobs.Outcomes.Cancels.{can_cancel, finish_job_run-ended}

cancel_locked_refused :
    (db : Db) (row : JobRow) (o : Option String) (now : ℕ)
    → row.active_run_id ≡ o
    → can_cancel row ≡ false
    → cancel_locked db row o now ≡ err (job_run_not_cancellable row.id)
unfolding cancel_locked
cancel_locked_refused db row none now a h = refl
cancel_locked_refused db row (some i) now a h = ground (arith, a, h)

cancel_refused :
    (db : Db) (k : String) (row : JobRow) (now : ℕ)
    → get_job db k ≡ some row
    → can_cancel row ≡ false
    → cancel_active_run db k now ≡ err (job_run_not_cancellable row.id)
unfolding cancel_active_run locked_job_row
cancel_refused db k row now found h =
    rw found (cancel_locked_refused db row row.active_run_id now refl h)

-- When a run ends while another run of its job is the active one, that run stays active but the
-- user can no longer cancel it.
pub cancel_active_run-finish_job_run :
    {Late : String → Type 0}
    → (record_message : Json → String) (db : Db) (i j k : String) (o : Outcome) (now now' : ℕ)
      (row : JobRow) (r : RunRow)
    → IsConsistent Late db
    → get_job db k ≡ some row
    → get_run db j ≡ some r
    → row.active_run_id ≡ some i
    → i ≢ j
    → in_progress o.status ≡ false
    → let db' = finish_job_run record_message db j k o now in
      (x : JobRow) × (get_job db' k ≡ some x)
      × (x.active_run_id ≡ some i)
      × (cancel_active_run db' k now' ≡ err (job_run_not_cancellable x.id))
cancel_active_run-finish_job_run record_message db i j k o now now' row r before found run a ne
      ended =
    let (_, (x, job', active, _, last)) =
      finish_job_run-ended record_message db j k o now row r before found run
        (ended_no_wait o.status ended) in
    let active' : x.active_run_id ≡ some i = ground (arith, active, a, eq_iff i j, ne) in
    (x, job', active', cancel_refused _ k x now' job' (ground (arith, active', last, ended)))
  where
    ended_no_wait : (s : JobRunStatus) → in_progress s ≡ false → is_waiting s ≡ false
    ended_no_wait JobRunStatus.running h = cc
    ended_no_wait JobRunStatus.waiting_for_input h = cc
    ended_no_wait _ h = refl

-- When a time or event trigger reaches a disabled job, its run is skipped and the active run of the
-- job, which may be running or waiting, stays active, but the user can no longer cancel it.
pub cancel_active_run-try_start_job_run :
    {Late : String → Type 0}
    → (db : Db) (k i : String) (row : JobRow) (source : JobRunSource) (payload : Json)
      (now now' : ℕ)
    → IsConsistent Late db
    → get_job db k ≡ some row
    → get_run db i ≡ none
    → row.enabled ≡ false
    → is_manual source ≡ false
    → (r : RunRow) × (db' : Db) × (x : JobRow) × (try_start_job_run db k i source payload now
        ≡ ok (r, db'))
      × (r.status ≡ JobRunStatus.skipped)
      × (get_job db' k ≡ some x)
      × (x.active_run_id ≡ row.active_run_id)
      × (cancel_active_run db' k now' ≡ err (job_run_not_cancellable x.id))
unfolding try_start_job_run locked_job_row create_skipped_run
cancel_active_run-try_start_job_run db k i row source payload now now' before found new off timed =
    let reason : String = "Job is disabled." in
    let run = skipped_run row i source payload now reason in
    let x = skipped_job row i now reason true in
    let there : lookup k (insert x.id x db.jobs) ≡ some x =
      subst (λ z. lookup k (insert z x db.jobs) ≡ some x) (sym (before.job_id k row found))
        (lookup-insert_self k x db.jobs) in
    let db' : Db = save_job x (
      add_job_run_event (save_run run db) row.id i JobRunEventType.run_skipped now (some reason)
        (some (dict (trigger_event source payload ++ ("error", str reason) ∷ [])))) in
    (
      run,
      db',
      x,
      rw found (rw timed (rw off (rw (add_run-new run db new) refl))),
      refl,
      there,
      refl,
      cancel_refused db' k x now' there (no_status row.active_run_id),
    )
  where
    no_status :
        (o : Option String)
        → elim o [ none ↦ false | some _ ↦ has_status in_progress (some JobRunStatus.skipped) ]
          ≡ false
    no_status none = refl
    no_status (some i) = refl

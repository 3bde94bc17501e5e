-- ===== src/Jobs/Tests/Races.antt =====
-- Two runs of one job: the first is cancelled while it executes, the second is started, and the
-- first reports its end; and a trigger of a job that was disabled during a run.
use wotbot.Base.{String, ◌≡◌, ◌≢◌, inl, refl, sym, arith, eq_iff, true, some, []}
use wotbot.Base.Dict.{lookup, insert}
use wotbot.Json.{dict}
use wotbot.Jobs.Enums.{JobRunSource, JobRunStatus, in_progress}
use wotbot.Jobs.Records.{
  JobRow, RunRow, Db, ok, err, job_run_not_cancellable, get_job, get_run, add_run, locked_job_row,
  has_active_run,
}
use wotbot.Jobs.Events.{add_job_run_event}
use wotbot.Jobs.Cancel.{cancel_active_run, cancel_locked, cancel_run_row, cancelled_job}
use wotbot.Jobs.Start.{try_start_job_run, start_locked, started_run, started_job}
use wotbot.Jobs.Finish.{finish_job_run}
use wotbot.Jobs.Definitions.{create_job, disable_job, disabled_job}
use wotbot.Jobs.Lifecycle.{Reachable, Reachable-IsConsistent}
use wotbot.Jobs.Lifecycle
use wotbot.Jobs.Outcomes.Races.{
  cancel_active_run-finish_job_run, cancel_active_run-try_start_job_run,
}
use wotbot.Jobs.Outcomes.Waiting.{finish_job_run-waiting}
use wotbot.Jobs.Tests.{
  asks, outside, NeverLate, started, running, busy, succeeds, cancelled, started-Reachable, db_of,
}

abbrev restarted : Db
restarted = db_of (try_start_job_run cancelled "j1" "r2" JobRunSource.manual (dict []) 50)

abbrev restarted_job : JobRow
restarted_job = started_job (cancelled_job busy 40) "r2" JobRunSource.manual 50

abbrev stopped_run : RunRow
stopped_run = record running {
  status = JobRunStatus.cancelled;
  error = some "Run cancelled by user.";
  finished_at = some 40;
}

restarted-Reachable : (Late : String → Type 0) → Reachable Late outside restarted
unfolding create_job lookup insert try_start_job_run locked_job_row has_active_run start_locked
    add_run add_job_run_event cancel_active_run cancel_locked cancel_run_row
restarted-Reachable Late =
    Reachable.next
      (Reachable.next (started-Reachable Late)
        (Lifecycle.Step.cancel {row = cancelled_job busy 40} "j1" 40 refl))
      (Lifecycle.Step.start
        {run = started_run (cancelled_job busy 40) "r2" JobRunSource.manual (dict []) 50} "j1" "r2"
        JobRunSource.manual (dict []) 50 refl refl)

abbrev second : String
second = "r2"

other : second ≢ "r1"
other e = ground (arith, (eq_iff second "r1").1 e)

cancel_active_run-finish_job_run_example :
    let db' = finish_job_run outside.record_message restarted "r1" "j1" succeeds 60 in
    (x : JobRow) × (get_job db' "j1" ≡ some x)
    × (x.active_run_id ≡ some "r2")
    × (cancel_active_run db' "j1" 70 ≡ err (job_run_not_cancellable x.id))
unfolding create_job lookup insert try_start_job_run locked_job_row has_active_run start_locked
    add_run add_job_run_event cancel_active_run cancel_locked cancel_run_row
cancel_active_run-finish_job_run_example =
    cancel_active_run-finish_job_run outside.record_message restarted "r2" "r1" "j1" succeeds 60 70
      restarted_job stopped_run (Reachable-IsConsistent (restarted-Reachable NeverLate)) refl refl
      refl other refl

abbrev disabled : Db
disabled = disable_job started "j1" 25

disabled-Reachable : Reachable NeverLate outside disabled
disabled-Reachable = Reachable.next (started-Reachable NeverLate) (Lifecycle.Step.disable "j1" 25)

cancel_active_run-try_start_job_run_example :
    (r : RunRow) × (db' : Db) × (x : JobRow) × (try_start_job_run disabled "j1" "r2"
        JobRunSource.time
        (dict [])
        30
      ≡ ok (r, db'))
    × (r.status ≡ JobRunStatus.skipped)
    × (get_job db' "j1" ≡ some x)
    × (x.active_run_id ≡ some "r1")
    × (cancel_active_run db' "j1" 40 ≡ err (job_run_not_cancellable x.id))
unfolding create_job lookup insert try_start_job_run locked_job_row has_active_run start_locked
    add_run add_job_run_event disable_job
cancel_active_run-try_start_job_run_example =
    cancel_active_run-try_start_job_run disabled "j1" "r2" (disabled_job 25 busy) JobRunSource.time
      (dict []) 30 40 (Reachable-IsConsistent disabled-Reachable) refl refl refl refl

abbrev late_waiting : Db
late_waiting = finish_job_run outside.record_message restarted "r1" "j1" asks 60

-- The report that leaves the first run waiting beside the second, the active one, is a step.
late_waiting-Reachable : Reachable (λ k. k ≡ "j1") outside late_waiting
unfolding create_job lookup insert try_start_job_run locked_job_row has_active_run start_locked
    add_run add_job_run_event cancel_active_run cancel_locked cancel_run_row
late_waiting-Reachable = Reachable.next (restarted-Reachable (λ k. k ≡ "j1")) (
    Lifecycle.Step.finish "r1" "j1" asks 60
      (restarted_job, stopped_run, refl, refl, refl, refl, λ w. inl refl))

abbrev second_run : RunRow
second_run = started_run (cancelled_job busy 40) "r2" JobRunSource.manual (dict []) 50

finish_job_run-waiting_example :
    let after = finish_job_run outside.record_message restarted "r1" "j1" asks 60 in
    (x : JobRow) × (y : RunRow) × (z : JobRow) × (db' : Db) × (get_job after "j1" ≡ some x)
    × (x.active_run_id ≡ some "r1")
    × ((get_run after "r1" ≡ some y) × (y.job_id ≡ "j1") × (in_progress y.status ≡ true))
    × ((get_run after "r2" ≡ some second_run)
        × (second_run.job_id ≡ "j1")
        × (in_progress second_run.status ≡ true))
    × (cancel_active_run after "j1" 70 ≡ ok (z, db'))
    × (get_run db' "r2" ≡ some second_run)
    × (cancel_active_run db' "j1" 80 ≡ err (job_run_not_cancellable "j1"))
unfolding create_job lookup insert try_start_job_run locked_job_row has_active_run start_locked
    add_run add_job_run_event cancel_active_run cancel_locked cancel_run_row
finish_job_run-waiting_example =
    finish_job_run-waiting outside.record_message restarted "r2" "r1" "j1" asks 60 70 80
      restarted_job stopped_run second_run (Reachable-IsConsistent (restarted-Reachable NeverLate))
      refl refl refl refl refl refl (λ e. other (sym e)) refl

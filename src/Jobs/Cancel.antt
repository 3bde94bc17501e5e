-- ===== src/Jobs/Cancel.antt =====
-- `_cancel_active_run_sync` of jobs/stores/runs.py. Each method of the store is one transaction on
-- the database; `now` is the time.
use wotbot.Base.{ℕ, ◌+◌, String, Option, none, some, if◌then◌else◌}
use wotbot.Jobs.Enums.{JobRunStatus, JobRunEventType, in_progress, has_status}
use wotbot.Jobs.Records.{
  JobRow, RunRow, Db, Result, ok, err, job_run_not_cancellable, ◌>>=◌, get_run, save_job, save_run,
  locked_job_row, clear_active,
}
use wotbot.Jobs.Events.{add_job_run_event}

unfoldable pub cancel_run_row : Db → JobRow → Option RunRow → ℕ → Db
unfolding add_job_run_event
cancel_run_row db row none now = db
cancel_run_row db row (some run) now =
    let run' = record run {
      status = JobRunStatus.cancelled;
      error = some "Run cancelled by user.";
      finished_at = some now;
    } in
    add_job_run_event (save_run run' db) row.id run.id JobRunEventType.run_cancelled now
      (some "Run cancelled by user.") none

abbrev pub cancelled_job : JobRow → ℕ → JobRow
cancelled_job row now = record (clear_active row) {
  last_run_status = some JobRunStatus.cancelled;
  last_error = none;
  waiting_question = none;
  run_count = row.run_count + 1;
  updated_at = now;
}

unfoldable pub cancel_locked : Db → JobRow → Option String → ℕ → Result (JobRow × Db)
unfolding cancel_run_row
cancel_locked db row none now = err (job_run_not_cancellable row.id)
cancel_locked db row (some run_id) now =
    if has_status in_progress row.last_run_status
    then ok (
      cancelled_job row now,
      save_job (cancelled_job row now) (cancel_run_row db row (get_run db run_id) now),
    )
    else err (job_run_not_cancellable row.id)

unfoldable pub cancel_active_run : Db → String → ℕ → Result (JobRow × Db)
unfolding locked_job_row cancel_locked
cancel_active_run db job_id now = do
  row ← locked_job_row db job_id
  cancel_locked db row row.active_run_id now

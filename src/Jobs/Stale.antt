-- ===== src/Jobs/Stale.antt =====
-- `_mark_stale_running_runs_failed_sync` of jobs/stores/runs.py.
use wotbot.Base.{
  ℕ, ◌+◌, String, Bool, false, ◌&&◌, Option, none, some, List, [], ◌∷◌, ltb, keep_if, length,
}
use wotbot.Base.Dict.{values}
use wotbot.Jobs.Enums.{JobRunStatus, JobRunEventType, is_running, has_status}
use wotbot.Jobs.Records.{JobRow, RunRow, Db, get_run, save_job, save_run, clear_active}
use wotbot.Jobs.Events.{add_job_run_event}

abbrev pub stale_error : String
stale_error = "Job run exceeded its lease and was marked failed on startup."

-- The `WHERE` clause; a comparison with NULL is not true.
abbrev pub is_stale : ℕ → JobRow → Bool
is_stale cutoff row = elim row.active_run_id [
  | none ↦ false
  | some _ ↦
      elim row.active_run_started_at [ none ↦ false | some t ↦ ltb t cutoff ]
      && has_status is_running row.last_run_status
]

unfoldable pub fail_run_row : Db → JobRow → Option RunRow → ℕ → Db
unfolding add_job_run_event
fail_run_row db row none now = db
fail_run_row db row (some run) now =
    let run' = record run {
      status = JobRunStatus.failed;
      error = some stale_error;
      finished_at = some now;
    } in
    add_job_run_event (save_run run' db) row.id run.id JobRunEventType.run_failed now
      (some stale_error) none

abbrev pub stale_job : JobRow → ℕ → JobRow
stale_job row now = record (clear_active row) {
  last_run_status = some JobRunStatus.failed;
  last_error = some stale_error;
  waiting_question = none;
  updated_at = now;
  run_count = row.run_count + 1;
}

-- The run that `row.active_run_id` names.
abbrev pub active_run : Db → JobRow → Option RunRow
active_run db row = elim row.active_run_id [ none ↦ none | some run_id ↦ get_run db run_id ]

unfoldable pub fail_stale : ℕ → List JobRow → Db → Db
unfolding fail_run_row
fail_stale now [] db = db
fail_stale now (row ∷ rows) db =
    fail_stale now rows (save_job (stale_job row now) (fail_run_row db row (active_run db row) now))

unfoldable pub mark_stale_running_runs_failed : Db → ℕ → ℕ → ℕ × Db
unfolding fail_stale
mark_stale_running_runs_failed db cutoff now =
    let stale = keep_if (is_stale cutoff) (values db.jobs) in
    (length stale, fail_stale now stale db)

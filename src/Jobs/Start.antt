-- ===== src/Jobs/Start.antt =====
-- `_try_start_job_run_sync` of jobs/stores/runs.py; `run_id` is the `uuid4` that the code draws.
use wotbot.Base.{
  ℕ, ◌+◌, String, Bool, true, false, not, ◌&&◌, none, some, List, [], ◌∷◌, ◌++◌, if◌then◌else◌,
}
use wotbot.Json.{Json, str, bool, dict}
use wotbot.Jobs.Enums.{JobRunSource, JobRunStatus, JobRunEventType, source_value, is_manual}
use wotbot.Jobs.Records.{
  JobRow, RunRow, Db, Result, ok, ◌>>=◌, save_job, add_run, locked_job_row, has_active_run,
  job_thread_id_for_run_row,
}
use wotbot.Jobs.Events.{add_job_run_event}

abbrev pub trigger_event : JobRunSource → Json → List (String × Json)
trigger_event source payload = ("source", str (source_value source)) ∷ ("trigger", payload) ∷ []

abbrev pub skipped_run : JobRow → String → JobRunSource → Json → ℕ → String → RunRow
skipped_run row run_id source trigger_payload now reason = record {
  id = run_id;
  job_id = row.id;
  job_thread_id = job_thread_id_for_run_row row run_id;
  source = source;
  status = JobRunStatus.skipped;
  trigger_payload = trigger_payload;
  result = some (dict (("ok", bool false) ∷ ("status", str "skipped") ∷ []));
  error = some reason;
  response_text = some reason;
  started_at = now;
  finished_at = some now;
  created_at = now;
}

abbrev pub skipped_job : JobRow → String → ℕ → String → Bool → JobRow
skipped_job row run_id now reason update_job_snapshot =
    let counted = record row { run_count = row.run_count + 1; updated_at = now } in
    if update_job_snapshot
    then record counted {
      last_run_id = some run_id;
      last_run_at = some now;
      last_run_status = some JobRunStatus.skipped;
      last_error = some reason;
      last_response = some reason;
    }
    else counted

-- `_create_skipped_run`; the error and the response text are the same at both calls.
unfoldable pub create_skipped_run :
    Db → JobRow → String → JobRunSource → Json → ℕ → String → Bool → Result (RunRow × Db)
unfolding add_run add_job_run_event job_thread_id_for_run_row
create_skipped_run db row run_id source trigger_payload now reason update_job_snapshot = do
  let run = skipped_run row run_id source trigger_payload now reason
  db₁ ← add_run run db
  let db₂ =
      add_job_run_event db₁ row.id run_id JobRunEventType.run_skipped now (some reason)
        (some (dict (trigger_event source trigger_payload ++ ("error", str reason) ∷ [])))
  ok (run, save_job (skipped_job row run_id now reason update_job_snapshot) db₂)

abbrev pub started_run : JobRow → String → JobRunSource → Json → ℕ → RunRow
started_run row run_id source trigger_payload now = record {
  id = run_id;
  job_id = row.id;
  job_thread_id = job_thread_id_for_run_row row run_id;
  source = source;
  status = JobRunStatus.running;
  trigger_payload = trigger_payload;
  result = none;
  error = none;
  response_text = none;
  started_at = now;
  finished_at = none;
  created_at = now;
}

abbrev pub started_job : JobRow → String → JobRunSource → ℕ → JobRow
started_job row run_id source now = record row {
  active_run_id = some run_id;
  active_run_started_at = some now;
  active_run_source = some source;
  last_run_id = some run_id;
  last_run_at = some now;
  last_run_status = some JobRunStatus.running;
  last_error = none;
  updated_at = now;
}

unfoldable pub start_locked : Db → JobRow → String → JobRunSource → Json → ℕ → Result (RunRow × Db)
unfolding add_run add_job_run_event
start_locked db row run_id source trigger_payload now = do
  let run = started_run row run_id source trigger_payload now
  db₁ ← add_run run db
  let db₂ =
      add_job_run_event db₁ row.id run_id JobRunEventType.run_started now none
        (some (dict (trigger_event source trigger_payload)))
  ok (run, save_job (started_job row run_id source now) db₂)

unfoldable pub try_start_job_run :
    Db → String → String → JobRunSource → Json → ℕ → Result (RunRow × Db)
unfolding locked_job_row has_active_run create_skipped_run start_locked
try_start_job_run db job_id run_id source trigger_payload now = do
  row ← locked_job_row db job_id
  if not (is_manual source) && not row.enabled
      then create_skipped_run db row run_id source trigger_payload now "Job is disabled." true
      else if has_active_run row
      then create_skipped_run db row run_id source trigger_payload now
          "Job already has an active run." false
      else start_locked db row run_id source trigger_payload now

-- ===== src/Jobs/Finish.antt =====
-- `_finish_job_run_sync` of jobs/stores/runs.py.
use wotbot.Base.{ℕ, ◌+◌, String, Option, none, some, str_or, opt_eq, if◌then◌else◌}
use mathlib.Core.Option
use wotbot.Json.{Json}
use wotbot.Jobs.Enums.{JobRunStatus, is_waiting, is_failed}
use wotbot.Jobs.Records.{JobRow, RunRow, Db, get_job, get_run, save_job, save_run, clear_active}
use wotbot.Jobs.Events.{add_finish_events}

-- What the executor reports of a run.
pub record Outcome : Type 0 where
  pub status : JobRunStatus
  pub error : Option String
  pub response_text : Option String
  pub result : Option Json
  pub next_run_at : Option ℕ
  pub waiting_question : Option String

abbrev pub finished_run : RunRow → Outcome → ℕ → RunRow
finished_run run o now = record run {
  status = o.status;
  error = o.error;
  response_text = o.response_text;
  result = o.result;
  finished_at = if is_waiting o.status then none else some now;
}

-- `_finish_run_row`
unfoldable pub finish_run_row :
    (Json → String) → Db → Option RunRow → String → String → Outcome → ℕ → Db
unfolding add_finish_events
finish_run_row record_message db none job_id run_id o now = db
finish_run_row record_message db (some run) job_id run_id o now =
    add_finish_events record_message (save_run (finished_run run o now) db) job_id run_id now
      o.status o.error o.response_text o.result o.waiting_question

-- The first half of `_apply_finished_run_to_job`, on every path.
abbrev pub reported_job : JobRow → String → Outcome → ℕ → JobRow
reported_job row run_id o now = record row {
  last_run_id = some run_id;
  last_run_at = some now;
  last_run_status = some o.status;
  last_error = if is_failed o.status then o.error else none;
  last_response = if is_failed o.status then none else o.response_text;
  updated_at = now;
  next_run_at = elim o.next_run_at [ none ↦ row.next_run_at | some t ↦ some t ];
}

-- The run waits for the user: it is the active one.
abbrev pub waiting_job : JobRow → Option RunRow → String → Outcome → ℕ → JobRow
waiting_job row run run_id o now = record (reported_job row run_id o now) {
  active_run_id = some run_id;
  active_run_started_at = elim run [ none ↦ some now | some r ↦ some r.started_at ];
  active_run_source = elim run [ none ↦ none | some r ↦ some r.source ];
  waiting_question = str_or o.waiting_question o.response_text;
}

-- The run has ended: it is counted, and no longer active if it was.
abbrev pub ended_job : JobRow → String → Outcome → ℕ → JobRow
ended_job row run_id o now =
    let counted = record (reported_job row run_id o now) {
      run_count = row.run_count + 1;
      waiting_question = none;
    } in
    if opt_eq row.active_run_id run_id then clear_active counted else counted

-- `_apply_finished_run_to_job`
unfoldable pub apply_finished_run_to_job : JobRow → Option RunRow → String → Outcome → ℕ → JobRow
apply_finished_run_to_job row run run_id o now =
    if is_waiting o.status then waiting_job row run run_id o now else ended_job row run_id o now

abbrev pub finish_job_row : Db → Option JobRow → Option RunRow → String → Outcome → ℕ → Db
finish_job_row db none run run_id o now = db
finish_job_row db (some row) run run_id o now =
    save_job (apply_finished_run_to_job row run run_id o now) db

unfoldable pub finish_job_run : (Json → String) → Db → String → String → Outcome → ℕ → Db
unfolding finish_run_row apply_finished_run_to_job
finish_job_run record_message db run_id job_id o now =
    let run = Option.map (λ r. finished_run r o now) (get_run db run_id) in
    let db₁ = finish_run_row record_message db (get_run db run_id) job_id run_id o now in
    finish_job_row db₁ (get_job db₁ job_id) run run_id o now

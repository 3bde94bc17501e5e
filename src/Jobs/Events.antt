-- ===== src/Jobs/Events.antt =====
-- jobs/stores/run_events.py: the timeline of a run.
use wotbot.Base.{
  ℕ, String, ◌≡◌, refl, arith, Option, none, some, [], ◌∷◌, ◌++◌, truthy, str_or, if◌then◌else◌,
}
use wotbot.Json.{Json, as_dict, get, is_dict}
use wotbot.Jobs.Enums.{
  JobRunStatus, JobRunEventType, running, succeeded, failed, waiting_for_input, cancelled, skipped,
}
use wotbot.Jobs.Records.{Db}

-- `_add_job_run_event`; `None` is no payload.
unfoldable pub add_job_run_event :
    Db → String → String → JobRunEventType → ℕ → Option String → Option Json → Db
add_job_run_event db job_id run_id event_type now message payload = record db {
  events =
      db.events
      ++ record {
        job_id = job_id;
        run_id = run_id;
        event_type = event_type;
        message = message;
        payload = payload;
        created_at = now;
      }
        ∷ [];
}

-- `_submitted_record_from_run_result`
unfoldable pub submitted_record : Option Json → Option Json
unfolding get
submitted_record none = none
submitted_record (some result) =
    let r = get "submitted_record" (as_dict result) in if is_dict r then some r else none

-- The last event of a run that has ended, by its status.
unfoldable pub add_end_event :
    Db → String → String → ℕ → JobRunStatus → Option String → Option String → Db
unfolding add_job_run_event
add_end_event db job_id run_id now succeeded error response_text =
    add_job_run_event db job_id run_id JobRunEventType.run_succeeded now (some "Run succeeded.")
      none
add_end_event db job_id run_id now failed error response_text =
    add_job_run_event db job_id run_id JobRunEventType.run_failed now
      (str_or error (some "Run failed.")) none
add_end_event db job_id run_id now cancelled error response_text =
    add_job_run_event db job_id run_id JobRunEventType.run_cancelled now
      (str_or error (some "Run cancelled.")) none
add_end_event db job_id run_id now skipped error response_text =
    add_job_run_event db job_id run_id JobRunEventType.run_skipped now
      (str_or error (str_or response_text (some "Run skipped."))) none
add_end_event db job_id run_id now running error response_text = db
add_end_event db job_id run_id now waiting_for_input error response_text = db

unfoldable pub add_record_event : (Json → String) → Db → String → String → ℕ → Option Json → Db
unfolding add_job_run_event
add_record_event record_message db job_id run_id now none = db
add_record_event record_message db job_id run_id now (some r) =
    add_job_run_event db job_id run_id JobRunEventType.record_submitted now
      (some (record_message r)) (some r)

unfoldable pub add_assistant_event : Db → String → String → ℕ → Option String → Db
unfolding add_job_run_event
add_assistant_event db job_id run_id now response_text =
    if truthy response_text
    then add_job_run_event db job_id run_id JobRunEventType.assistant_message now response_text none
    else db

-- `_add_finish_events`; `record_message` is `submitted_record_event_message` of
-- jobs/record_summary.py.
unfoldable pub add_finish_events :
    (Json → String)
    → Db
    → String
    → String
    → ℕ
    → JobRunStatus
    → Option String
    → Option String
    → Option Json
    → Option String
    → Db
unfolding add_job_run_event submitted_record add_record_event add_assistant_event add_end_event
add_finish_events record_message db job_id run_id now waiting_for_input error response_text result
      waiting_question =
    add_job_run_event db job_id run_id JobRunEventType.waiting_for_input now
      (str_or waiting_question response_text) none
add_finish_events record_message db job_id run_id now status error response_text result
      waiting_question =
    let db₁ = add_record_event record_message db job_id run_id now (submitted_record result) in
    let db₂ = add_assistant_event db₁ job_id run_id now response_text in
    add_end_event db₂ job_id run_id now status error response_text

-- The events of a finished run touch no other table.
pub add_finish_events-tables :
    (record_message : Json → String) (db : Db) (job_id run_id : String) (now : ℕ)
    (status : JobRunStatus) (error response_text : Option String) (result : Option Json)
    (waiting_question : Option String)
    → let db' =
        add_finish_events record_message db job_id run_id now status error response_text result
          waiting_question in
      (db'.jobs ≡ db.jobs) × (db'.runs ≡ db.runs)
unfolding add_finish_events
add_finish_events-tables record_message db job_id run_id now waiting_for_input error response_text
      result waiting_question =
    (refl, refl)
add_finish_events-tables record_message db job_id run_id now _ error response_text result
      waiting_question =
    (ground arith, ground arith)

-- ===== src/Jobs/Reply.antt =====
-- `_start_reply_job_run_sync` of jobs/stores/runs.py, and jobs/stores/replies.py.
use wotbot.Base.{
  ℕ, String, Bool, true, false, Option, none, some, [], ◌∷◌, ◌++◌, any, ◌==◌, str_or, if◌then◌else◌,
}
use wotbot.Base.Dict.{insert}
use wotbot.Base.Text.{strip}
use wotbot.Json.{Json, str, bool, as_dict, as_list, get, dict, list, opt_str}
use wotbot.Jobs.Enums.{JobRunStatus, JobRunEventType, is_waiting, has_status}
use wotbot.Jobs.Records.{
  JobRow, RunRow, Db, Result, ok, err, job_not_waiting_for_input, ◌>>=◌, save_job, save_run,
  locked_job_row, active_or_last_run_id, required_run_row,
}
use wotbot.Jobs.Events.{add_job_run_event}

-- `_normalize_client_reply_id`
unfoldable pub normalize_client_reply_id : Option String → Option String
unfolding strip
normalize_client_reply_id none = none
normalize_client_reply_id (some s) = let t = strip s in if t == "" then none else some t

-- `reply.get("client_reply_id") == client_reply_id`, for a reply that is a dict
abbrev pub reply_is : String → Json → Bool
unfolding get
reply_is client_reply_id reply = elim (get "client_reply_id" (as_dict reply)) [
  | str s ↦ s == client_reply_id
  | _ ↦ false
]

-- `_reply_payload_has_client_reply_id`
unfoldable pub has_client_reply_id : Json → String → Bool
unfolding get
has_client_reply_id payload client_reply_id =
    any (reply_is client_reply_id) (as_list (get "replies" (as_dict payload)))

-- `_duplicate_reply_run`: the copy that is returned is marked, the row is not.
unfoldable pub duplicate_reply_run : RunRow → RunRow
unfolding insert
duplicate_reply_run run = record run {
  trigger_payload = dict (insert "_duplicate_reply" (bool true) (as_dict run.trigger_payload));
}

-- `_reply_trigger_payload`; `iso` prints a time.
unfoldable pub reply_trigger_payload :
    (ℕ → String) → RunRow → String → Option String → Option String → ℕ → Json
unfolding get insert
reply_trigger_payload iso run message client_reply_id previous_run_id now =
    let current = as_dict run.trigger_payload in
    let reply = dict (
      ("message", str message)
      ∷ ("client_reply_id", opt_str client_reply_id)
      ∷ ("received_at", str (iso now))
      ∷ ("previous_run_id", opt_str previous_run_id)
      ∷ []) in
    dict (
      insert "replies" (list (as_list (get "replies" current) ++ reply ∷ []))
        (insert "latest_reply_at" (str (iso now)) (insert "latest_reply" (str message) current)))

abbrev pub replied_run : RunRow → Json → RunRow
replied_run run payload = record run {
  status = JobRunStatus.running;
  trigger_payload = payload;
  finished_at = none;
}

abbrev pub replied_job : JobRow → RunRow → ℕ → JobRow
replied_job row run now = record row {
  active_run_id = some run.id;
  active_run_started_at = some now;
  active_run_source = some run.source;
  last_run_id = some run.id;
  last_run_at = some now;
  last_run_status = some JobRunStatus.running;
  last_error = none;
  waiting_question = none;
  updated_at = now;
}

-- The reply is new: it goes into the payload and the run goes on.
unfoldable pub accept_reply :
    (ℕ → String)
    → Db
    → JobRow
    → RunRow
    → String
    → Option String
    → Option String
    → ℕ
    → Result (RunRow × Db)
unfolding reply_trigger_payload add_job_run_event
accept_reply iso db row run message client_reply_id previous_run_id now =
    if has_status is_waiting row.last_run_status
    then (let previous = str_or previous_run_id (str_or row.active_run_id row.last_run_id) in
        let run' =
          replied_run run (reply_trigger_payload iso run message client_reply_id previous now) in
        ok (
          run',
          save_job (replied_job row run now) (
              add_job_run_event (save_run run' db) row.id run.id JobRunEventType.user_reply now
                (some message)
                (some (
                  dict (
                    ("client_reply_id", opt_str client_reply_id)
                    ∷ ("previous_run_id", opt_str previous)
                    ∷ [])))),
        ))
    else err (job_not_waiting_for_input row.id)

-- A reply with an id that the payload already holds is answered with the run as it is.
abbrev pub is_duplicate : RunRow → Option String → Bool
is_duplicate run none = false
is_duplicate run (some reply_id) = has_client_reply_id run.trigger_payload reply_id

unfoldable pub start_reply_job_run :
    (ℕ → String) → Db → String → String → Option String → Option String → ℕ → Result (RunRow × Db)
unfolding locked_job_row active_or_last_run_id required_run_row accept_reply
    normalize_client_reply_id has_client_reply_id duplicate_reply_run
start_reply_job_run iso db job_id message client_reply_id previous_run_id now = do
  let reply_id = normalize_client_reply_id client_reply_id
  row ← locked_job_row db job_id
  run_id ← active_or_last_run_id row job_id
  run ← required_run_row db run_id
  if is_duplicate run reply_id
      then ok (duplicate_reply_run run, db)
      else accept_reply iso db row run message reply_id previous_run_id now

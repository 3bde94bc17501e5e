-- ===== src/Jobs/Tests.antt =====
-- A job that is created, started, waits for the user, is answered and cancelled, and the theorems
-- at its tables.
pub mod Races
use wotbot.Base.{inr, true, ℕ, String, ◌≡◌, refl, false, none, some, [], ◌∷◌, nat_eq}
use wotbot.Base.Dict.{lookup, insert}
use wotbot.Base.Text.{strip}
use wotbot.Json.{str, dict}
use wotbot.Jobs.Enums.{
  JobTriggerKind, JobActionKind, JobInteractionMode, JobOutputKind, JobRunSource, JobRunStatus,
}
use wotbot.Jobs.Records.{
  JobRow, RunRow, Db, Result, ok, err, get_job, get_run, add_run, locked_job_row, has_active_run,
}
use wotbot.Jobs.Events.{add_job_run_event}
use wotbot.Jobs.Cancel.{cancel_active_run, cancel_locked, cancel_run_row, cancelled_job}
use wotbot.Jobs.Start.{try_start_job_run, start_locked, started_run, started_job}
use wotbot.Jobs.Reply.{start_reply_job_run, normalize_client_reply_id}
use wotbot.Jobs.Finish.{Outcome, finished_run, finish_job_run}
use wotbot.Jobs.Stale.{
  mark_stale_running_runs_failed, fail_stale, fail_run_row, is_stale, stale_job,
}
use wotbot.Jobs.Schedule.{next_cron_run_at}
use wotbot.Jobs.Schedule
use wotbot.Jobs.Definitions.{Definition, create_job, created_job, source_thread_id_for_job}
use wotbot.Jobs.Invariant.{IsConsistent}
use wotbot.Jobs.Outcomes.Sweeps.{IsSwept, mark_stale_running_runs_failed-IsSwept}
use wotbot.Jobs.Outcomes.Finishes.{IsReported, IsUpdated, finish_job_run-IsFinish}
use wotbot.Jobs.Lifecycle.{no_jobs, Outside, Reachable, Reachable-IsConsistent, in_progress_unique}
use wotbot.Jobs.Lifecycle
use wotbot.Jobs.Outcomes.Starts.{
  IsStart, Skips, try_start_job_run-IsStart, try_start_job_run-try_start_job_run,
}
use wotbot.Jobs.Outcomes.Replies.{IsAnswered, start_reply_job_run-IsAnswered}
use wotbot.Jobs.Outcomes.Cancels.{finish_job_run-cancel_active_run}

abbrev at_time : ℕ → String
at_time n = "2026-01-01T00:00:00+00:00"

abbrev outside : Outside
outside = record {
  iso = at_time;
  record_message = λ r. "Record submitted.";
  time_schedule = λ t. none;
  cron_next = λ e z n. none;
}

-- No job with a run that was left waiting when it was not the active one.
abbrev pub NeverLate : String → Type 0
NeverLate k = ⊥

abbrev definition : Definition
definition = record {
  action_kind = JobActionKind.prompt;
  interaction_mode = JobInteractionMode.required_checkin;
  output_kind = JobOutputKind.narrative;
  trigger_kind = JobTriggerKind.time;
  action = dict (("kind", str "prompt") ∷ []);
  trigger = dict (("kind", str "time") ∷ []);
  output = dict (("kind", str "narrative") ∷ []);
}

abbrev db_of {ℓ} : {A : Type ℓ} → Result (A × Db) → Db
db_of (ok (a, db)) = db
db_of (err e) = no_jobs

abbrev job : JobRow
job = created_job "j1" "Water the plants" (some " t1 ") definition none none 10

abbrev created : Db
created =
    db_of (create_job at_time no_jobs "j1" "Water the plants" (some " t1 ") definition none none 10)

abbrev started : Db
started = db_of (try_start_job_run created "j1" "r1" JobRunSource.time (dict []) 20)

abbrev running : RunRow
running = started_run job "r1" JobRunSource.time (dict []) 20

abbrev busy : JobRow
busy = started_job job "r1" JobRunSource.time 20

abbrev asks : Outcome
asks = record {
  status = JobRunStatus.waiting_for_input;
  error = none;
  response_text = some "Is it dry?";
  result = none;
  next_run_at = none;
  waiting_question = some "Is it dry?";
}

abbrev succeeds : Outcome
succeeds = record asks {
  status = JobRunStatus.succeeded;
  response_text = some "Done.";
  waiting_question = none;
}

abbrev waiting : Db
waiting = finish_job_run outside.record_message started "r1" "j1" asks 30

abbrev cancelled : Db
cancelled = db_of (cancel_active_run started "j1" 40)

created-Reachable : (Late : String → Type 0) → Reachable Late outside created
unfolding create_job lookup insert source_thread_id_for_job strip
created-Reachable Late = Reachable.next Reachable.initial (
    Lifecycle.Step.create {row = job} "j1" "Water the plants" (some " t1 ") definition none none 10
      refl)

started-Reachable : (Late : String → Type 0) → Reachable Late outside started
unfolding create_job lookup insert try_start_job_run locked_job_row has_active_run start_locked
    add_run add_job_run_event
started-Reachable Late =
    Reachable.next (created-Reachable Late)
      (Lifecycle.Step.start {run = running} "j1" "r1" JobRunSource.time (dict []) 20 refl refl)

Reachable-IsConsistent_example : IsConsistent NeverLate started
Reachable-IsConsistent_example = Reachable-IsConsistent (started-Reachable NeverLate)

created-IsConsistent : IsConsistent NeverLate created
created-IsConsistent = Reachable-IsConsistent (created-Reachable NeverLate)

found_running : get_run started "r1" ≡ some running
unfolding create_job lookup insert try_start_job_run locked_job_row has_active_run start_locked
    add_run add_job_run_event
found_running = refl

found_busy : get_job started "j1" ≡ some busy
unfolding create_job lookup insert try_start_job_run locked_job_row has_active_run start_locked
    add_run add_job_run_event
found_busy = refl

abbrev run_id : String
run_id = "r1"

in_progress_unique_example : run_id ≡ run_id
in_progress_unique_example =
    in_progress_unique run_id run_id running running (started-Reachable NeverLate) (λ late. late)
      found_running found_running refl refl refl

try_start_job_run-IsStart_example :
    IsStart created "j1" "r1" job JobRunSource.time
      (try_start_job_run created "j1" "r1" JobRunSource.time (dict []) 20)
unfolding create_job lookup insert
try_start_job_run-IsStart_example =
    try_start_job_run-IsStart created "j1" "r1" job JobRunSource.time (dict []) 20 refl refl refl

try_start_job_run-try_start_job_run_example :
    Skips "j1" "r1" (try_start_job_run started "j1" "r2" JobRunSource.manual (dict []) 25)
unfolding create_job lookup insert try_start_job_run locked_job_row has_active_run start_locked
    add_run add_job_run_event
try_start_job_run-try_start_job_run_example =
    try_start_job_run-try_start_job_run created started "j1" "r1" "r2" running JobRunSource.time
      JobRunSource.manual (dict []) (dict []) 20 25
      (Reachable-IsConsistent (created-Reachable NeverLate)) refl refl refl refl refl

waiting-Reachable : Reachable NeverLate outside waiting
unfolding finish_job_run
waiting-Reachable = Reachable.next (started-Reachable NeverLate) (
    Lifecycle.Step.finish "r1" "j1" asks 30
      (busy, running, found_busy, found_running, refl, refl, λ w. inr refl))

start_reply_job_run-IsAnswered_example :
    IsAnswered waiting at_time outside.record_message "j1"
      (some " c1 ")
      (start_reply_job_run at_time waiting "j1" "Yes, quite." (some " c1 ") none 50)
unfolding normalize_client_reply_id strip
start_reply_job_run-IsAnswered_example =
    start_reply_job_run-IsAnswered at_time outside.record_message waiting "j1" "Yes, quite." "c1"
      (some " c1 ") none 50 (Reachable-IsConsistent waiting-Reachable) refl

finish_job_run-IsFinish_example :
    (x : RunRow) × (y : JobRow) × ((finish_job_run outside.record_message started "r1" "j1" succeeds
        45).runs
      ≡ insert "r1" x started.runs)
    × ((finish_job_run outside.record_message started "r1" "j1" succeeds 45).jobs
        ≡ insert "j1" y started.jobs)
    × IsReported succeeds 45 running x
    × IsUpdated "r1" succeeds busy y
finish_job_run-IsFinish_example =
    finish_job_run-IsFinish outside.record_message started "r1" "j1" succeeds 45 busy running
      (Reachable-IsConsistent (started-Reachable NeverLate)) found_busy found_running

finish_job_run-cancel_active_run_example :
    let db₂ = finish_job_run outside.record_message cancelled "r1" "j1" succeeds 45 in
    ((r : RunRow) × (get_run db₂ "r1" ≡ some r) × (r.status ≡ JobRunStatus.succeeded))
    × ((x : JobRow) × (get_job db₂ "j1" ≡ some x)
        × (x.last_run_status ≡ some JobRunStatus.succeeded)
        × (x.run_count ≡ 2))
unfolding create_job lookup insert try_start_job_run locked_job_row has_active_run start_locked
    add_run add_job_run_event cancel_active_run cancel_locked cancel_run_row
finish_job_run-cancel_active_run_example =
    finish_job_run-cancel_active_run outside.record_message started cancelled "r1" "j1" succeeds 40
      45 busy (cancelled_job busy 40) (Reachable-IsConsistent (started-Reachable NeverLate))
      found_busy refl refl refl

mark_stale_running_runs_failed-IsSwept_example :
    IsSwept 100 started (mark_stale_running_runs_failed started 100 110).1 "j1" busy 110 true
mark_stale_running_runs_failed-IsSwept_example =
    mark_stale_running_runs_failed-IsSwept started 100 110 "j1" busy
      (Reachable-IsConsistent (started-Reachable NeverLate)) found_busy

next_cron_run_at-NextCronRun_example :
    Schedule.NextCronRun
      (λ m. nat_eq m 7)
      (λ t. t)
      (λ m. m)
      4
      (next_cron_run_at (λ m. nat_eq m 7) (λ t. t) (λ m. m) 4)
next_cron_run_at-NextCronRun_example =
    Schedule.next_cron_run_at-NextCronRun (λ m. nat_eq m 7) (λ t. t) (λ m. m) 4

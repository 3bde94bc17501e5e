-- ===== src/Jobs/Definitions.antt =====
-- jobs/stores/definitions.py: the store of job definitions. `job_id` is the `uuid4` that the code
-- draws, `now` the time, and `iso` prints a time.
use wotbot.Base.{
  ℕ, String, Bool, true, false, not, ◌&&◌, ◌||◌, Option, none, some, List, [], ◌∷◌, any, keep_if,
  ◌==◌, truthy, if◌then◌else◌,
}
use wotbot.Base.Dict.{Dict, has_key, insert, erase, keep_entries, values}
use wotbot.Base.Text.{◌<>◌, strip, first_chars}
use wotbot.Json.{Json, str, as_dict, get, dict, as_str}
use wotbot.Jobs.Enums.{JobTriggerKind, JobActionKind, JobInteractionMode, JobOutputKind}
use wotbot.Jobs.Records.{
  JobRow, RunRow, RunEvent, ThreadKind, Thread, Db, Result, ok, err, integrity_error, ◌>>=◌,
  get_job, save_job, locked_job_row,
}
use wotbot.Jobs.Schedule.{TimeSchedule, next_run_at_for_schedule}

-- The columns that a definition sets: a `JobDefinition`, its parts dumped to JSON.
pub record Definition : Type 0 where
  pub action_kind : JobActionKind
  pub interaction_mode : JobInteractionMode
  pub output_kind : JobOutputKind
  pub trigger_kind : JobTriggerKind
  pub action : Json
  pub trigger : Json
  pub output : Json

abbrev pub job_thread_id_for_job : String → String
job_thread_id_for_job job_id = "job:" <> job_id

abbrev or_empty : Option String → String
or_empty none = ""
or_empty (some s) = s

-- `_source_thread_id_for_job`
unfoldable pub source_thread_id_for_job : Option String → String → String
unfolding strip
source_thread_id_for_job created_from_thread_id job_id =
    let source_thread_id = strip (or_empty created_from_thread_id) in
    if source_thread_id == "" then "manual:" <> job_id else source_thread_id

abbrev pub created_job :
    String → String → Option String → Definition → Option ℕ → Option String → ℕ → JobRow
created_job job_id name created_from_thread_id d next_run_at subscription_id now = record {
  id = job_id;
  name = name;
  created_from_thread_id = source_thread_id_for_job created_from_thread_id job_id;
  job_thread_id = job_thread_id_for_job job_id;
  action_kind = d.action_kind;
  interaction_mode = d.interaction_mode;
  output_kind = d.output_kind;
  action = d.action;
  trigger = d.trigger;
  output = d.output;
  enabled = true;
  trigger_kind = d.trigger_kind;
  next_run_at = next_run_at;
  subscription_id = subscription_id;
  resource_health = none;
  created_at = now;
  updated_at = now;
  last_run_id = none;
  last_run_at = none;
  last_run_status = none;
  last_error = none;
  last_response = none;
  run_count = 0;
  active_run_id = none;
  active_run_started_at = none;
  active_run_source = none;
  waiting_question = none;
}

abbrev pub job_thread : (ℕ → String) → String → String → ℕ → Thread
job_thread iso job_id name now = record {
  id = job_thread_id_for_job job_id;
  title = first_chars 120 ("Job: " <> name);
  created_at = iso now;
  updated_at = iso now;
  kind = ThreadKind.job;
  visible = false;
  job_id = some job_id;
}

-- `_create_job_sync`: both primary keys must be new.
unfoldable pub create_job :
    (ℕ → String)
    → Db
    → String
    → String
    → Option String
    → Definition
    → Option ℕ
    → Option String
    → ℕ
    → Result (JobRow × Db)
create_job iso db job_id name created_from_thread_id d next_run_at subscription_id now =
    let row = created_job job_id name created_from_thread_id d next_run_at subscription_id now in
    let thread = job_thread iso job_id name now in
    if has_key job_id db.jobs || has_key thread.id db.threads
    then err (integrity_error job_id)
    else ok (row, record (save_job row db) { threads = insert thread.id thread db.threads })

-- The rows that the foreign keys delete with a job.
abbrev pub other_job : String → RunRow → Bool
other_job job_id r = not (r.job_id == job_id)

-- `_delete_job_sync`; the runs and the events go by `ON DELETE CASCADE`.
unfoldable pub delete_job : Db → String → Result (JobRow × Db)
unfolding locked_job_row erase keep_entries
delete_job db job_id = do
  row ← locked_job_row db job_id
  ok (
    row,
    record {
      threads = erase row.job_thread_id db.threads;
      jobs = erase job_id db.jobs;
      runs = keep_entries (λ _ r. other_job job_id r) db.runs;
      events = keep_if (λ (e : RunEvent). not (e.job_id == job_id)) db.events;
    },
  )

-- The methods that change columns of one row return quietly when it is missing.
abbrev pub update_job_row : (JobRow → JobRow) → Db → String → Db
update_job_row change db job_id = elim (get_job db job_id) [
  | none ↦ db
  | some row ↦ save_job (change row) db
]

abbrev pub disabled_job : ℕ → JobRow → JobRow
disabled_job now row = record row { enabled = false; next_run_at = none; updated_at = now }

unfoldable pub disable_job : Db → String → ℕ → Db
disable_job db job_id now = update_job_row (disabled_job now) db job_id

abbrev pub subscribed_job : Option String → ℕ → JobRow → JobRow
subscribed_job subscription_id now row = record row {
  subscription_id = subscription_id;
  updated_at = now;
}

unfoldable pub set_subscription_id : Db → String → Option String → ℕ → Db
set_subscription_id db job_id subscription_id now =
    update_job_row (subscribed_job subscription_id now) db job_id

-- `_updated_resource_health` of jobs/stores/base.py; messages are texts.
abbrev pub is_degraded : Json → Bool
unfolding get
is_degraded value = elim (get "status" (as_dict value)) [ str s ↦ s == "degraded" | _ ↦ false ]

-- The last text that is not empty.
abbrev pub last_message : List Json → Option String → Option String
unfolding get
last_message [] found = found
last_message (v ∷ vs) found =
    let message = as_str (get "message" (as_dict v)) in
    last_message vs (if is_degraded v && truthy message then message else found)

abbrev pub with_text : String → Option String → Dict Json → Dict Json
unfolding insert
with_text key message d = elim message [ none ↦ d | some s ↦ insert key (str s) d ]

abbrev pub health_entry : String → Option String → String → Json
health_entry status message checked_at =
    let entry = ("status", str status) ∷ ("checked_at", str checked_at) ∷ [] in
    dict (if truthy message then with_text "message" message entry else entry)

unfoldable pub updated_resource_health :
    (ℕ → String) → Option Json → String → String → Option String → ℕ → Json
unfolding get insert
updated_resource_health iso current resource status message now =
    let health : Dict Json = elim current [ none ↦ [] | some c ↦ as_dict c ] in
    let resources =
      insert resource (health_entry status message (iso now)) (as_dict (get "resources" health)) in
    let overall_status = if any is_degraded (values resources) then "degraded" else "healthy" in
    dict (
      with_text "last_error" (last_message (values resources) none) (
        ("status", str overall_status)
        ∷ ("checked_at", str (iso now))
        ∷ ("resources", dict resources)
        ∷ []))

abbrev pub reported_health : (ℕ → String) → String → String → Option String → ℕ → JobRow → JobRow
reported_health iso resource status message now row = record row {
  resource_health =
      some (updated_resource_health iso row.resource_health resource status message now);
  updated_at = now;
}

unfoldable pub set_job_resource_health :
    (ℕ → String) → Db → String → String → String → Option String → ℕ → Db
set_job_resource_health iso db job_id resource status message now =
    update_job_row (reported_health iso resource status message now) db job_id

-- `_compute_next_run_at`: `time_schedule` is the schedule that the trigger column holds and
-- `cron_next` the next run of a cron schedule; an error counts as none.
unfoldable pub compute_next_run_at :
    (Json → Option TimeSchedule) → (String → Option String → ℕ → Option ℕ) → JobRow → ℕ → Option ℕ
unfolding next_run_at_for_schedule
compute_next_run_at time_schedule cron_next row now = elim row.trigger_kind [
  | JobTriggerKind.event ↦ none
  | JobTriggerKind.time ↦
      if row.enabled
      then elim (time_schedule row.trigger) [
        | none ↦ none
        | some schedule ↦ next_run_at_for_schedule cron_next schedule now row.enabled
      ]
      else none
]

abbrev or_kept {ℓ} : {A : Type ℓ} → Option A → A → A
or_kept none a = a
or_kept (some b) a = b

-- `none` is an argument that is not given.
abbrev pub renamed_job : Option String → Option Bool → JobRow → JobRow
renamed_job name enabled row = record row {
  name = or_kept name row.name;
  enabled = or_kept enabled row.enabled;
}

abbrev pub updated_job :
    (Json → Option TimeSchedule)
    → (String → Option String → ℕ → Option ℕ)
    → Option String
    → Option Bool
    → ℕ
    → JobRow
    → JobRow
updated_job time_schedule cron_next name enabled now row =
    let row' = renamed_job name enabled row in
    record row' {
      next_run_at = compute_next_run_at time_schedule cron_next row' now;
      updated_at = now;
    }

-- `_update_job_metadata_sync`
unfoldable pub update_job_metadata :
    (Json → Option TimeSchedule)
    → (String → Option String → ℕ → Option ℕ)
    → Db
    → String
    → Option String
    → Option Bool
    → ℕ
    → Result (JobRow × Db)
unfolding locked_job_row
update_job_metadata time_schedule cron_next db job_id name enabled now = do
  row ← locked_job_row db job_id
  let row' = updated_job time_schedule cron_next name enabled now row
  ok (row', save_job row' db)

abbrev pub redefined_job : Definition → Option ℕ → Option String → ℕ → JobRow → JobRow
redefined_job d next_run_at subscription_id now row = record row {
  interaction_mode = d.interaction_mode;
  action_kind = d.action_kind;
  trigger_kind = d.trigger_kind;
  output_kind = d.output_kind;
  action = d.action;
  trigger = d.trigger;
  output = d.output;
  next_run_at = next_run_at;
  subscription_id = subscription_id;
  updated_at = now;
}

-- `_replace_job_definition_sync`
unfoldable pub replace_job_definition :
    Db → String → Definition → Option ℕ → Option String → ℕ → Result (JobRow × Db)
unfolding locked_job_row
replace_job_definition db job_id d next_run_at subscription_id now = do
  row ← locked_job_row db job_id
  let row' = redefined_job d next_run_at subscription_id now row
  ok (row', save_job row' db)

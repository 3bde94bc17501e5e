-- ===== src/Jobs/Records.antt =====
-- The tables of jobs/db.py, a database session and the errors that the stores raise.
use wotbot.Base.{
  ℕ, String, ◌≡◌, refl, Bool, ◌||◌, Option, none, some, List, truthy, str_or, if◌then◌else◌,
}
use wotbot.Base.Dict.{Dict, lookup, insert}
use wotbot.Base.Text.{◌<>◌}
use wotbot.Json.{Json}
use wotbot.Jobs.Enums.{
  JobTriggerKind, JobActionKind, JobInteractionMode, JobOutputKind, JobRunSource, JobRunStatus,
  JobRunEventType, in_progress, has_status,
}

-- Times are microseconds since some origin. `_to_job` copies the columns, so a row stands for the
-- `Job` that it becomes too.
pub record JobRow : Type 0 where
  pub id : String
  pub name : String
  pub created_from_thread_id : String
  pub job_thread_id : String
  pub action_kind : JobActionKind
  pub interaction_mode : JobInteractionMode
  pub output_kind : JobOutputKind
  pub action : Json
  pub trigger : Json
  pub output : Json
  pub enabled : Bool
  pub trigger_kind : JobTriggerKind
  pub next_run_at : Option ℕ
  pub subscription_id : Option String
  pub resource_health : Option Json
  pub created_at : ℕ
  pub updated_at : ℕ
  pub last_run_id : Option String
  pub last_run_at : Option ℕ
  pub last_run_status : Option JobRunStatus
  pub last_error : Option String
  pub last_response : Option String
  pub run_count : ℕ
  pub active_run_id : Option String
  pub active_run_started_at : Option ℕ
  pub active_run_source : Option JobRunSource
  pub waiting_question : Option String

pub record RunRow : Type 0 where
  pub id : String
  pub job_id : String
  pub job_thread_id : String
  pub source : JobRunSource
  pub status : JobRunStatus
  pub trigger_payload : Json
  pub result : Option Json
  pub error : Option String
  pub response_text : Option String
  pub started_at : ℕ
  pub finished_at : Option ℕ
  pub created_at : ℕ

-- The identity column is the place in the list.
pub record RunEvent : Type 0 where
  pub job_id : String
  pub run_id : String
  pub event_type : JobRunEventType
  pub message : Option String
  pub payload : Option Json
  pub created_at : ℕ

-- threads/models.py
pub data ThreadKind : Type 0 where
  chat job a2a mcp_raw : ThreadKind

-- Its times are texts in ISO format; the columns that only other threads set are left out.
pub record Thread : Type 0 where
  pub id : String
  pub title : String
  pub created_at : String
  pub updated_at : String
  pub kind : ThreadKind
  pub visible : Bool
  pub job_id : Option String

-- The tables by primary key.
pub record Db : Type 0 where
  pub threads : Dict Thread
  pub jobs : Dict JobRow
  pub runs : Dict RunRow
  pub events : List RunEvent

pub data Error : Type 0 where
  key_error job_not_waiting_for_input job_run_not_cancellable integrity_error : String → Error

-- A transaction that raises is rolled back: it returns no database.
pub data Result {ℓ} (A : Type ℓ) : Type ℓ where
  ok : A → Result A
  err : Error → Result A

infixl 5 ◌>>=◌
abbrev pub ◌>>=◌ {ℓ κ} : {A : Type ℓ} {B : Type κ} → Result A → (A → Result B) → Result B
ok a >>= f = f a
err e >>= f = err e

abbrev pub or_raise {ℓ} : {A : Type ℓ} → Option A → Error → Result A
or_raise none e = err e
or_raise (some a) e = ok a

abbrev pub get_job : Db → String → Option JobRow
get_job db k = lookup k db.jobs

abbrev pub get_run : Db → String → Option RunRow
get_run db k = lookup k db.runs

-- The changed columns of a row that the session holds.
abbrev pub save_job : JobRow → Db → Db
save_job r db = record db { jobs = insert r.id r db.jobs }

abbrev pub save_run : RunRow → Db → Db
save_run r db = record db { runs = insert r.id r db.runs }

-- `session.add(run); session.flush()`: the primary key must be new.
unfoldable pub add_run : RunRow → Db → Result Db
add_run r db = elim (get_run db r.id) [
  | none ↦ ok (save_run r db)
  | some _ ↦ err (integrity_error r.id)
]

pub add_run-new :
    (r : RunRow) (db : Db) → get_run db r.id ≡ none → add_run r db ≡ ok (save_run r db)
unfolding add_run
add_run-new r db h = rw (h, add_run) refl

unfoldable pub locked_job_row : Db → String → Result JobRow
locked_job_row db job_id = or_raise (get_job db job_id) (key_error job_id)

-- jobs/stores/run_state.py
unfoldable pub has_active_run : JobRow → Bool
has_active_run row = truthy row.active_run_id || has_status in_progress row.last_run_status

abbrev pub job_run_thread_id_for_run : String → String → String
job_run_thread_id_for_run job_id run_id = "job:" <> job_id <> ":run:" <> run_id

unfoldable pub job_thread_id_for_run_row : JobRow → String → String
job_thread_id_for_run_row row run_id = elim row.action_kind [
  | JobActionKind.prompt ↦ job_run_thread_id_for_run row.id run_id
  | JobActionKind.analysis ↦ row.job_thread_id
]

-- `row.active_run_id or row.last_run_id`, which must be a non-empty text.
unfoldable pub active_or_last_run_id : JobRow → String → Result String
active_or_last_run_id row missing_key = elim (str_or row.active_run_id row.last_run_id) [
  | none ↦ err (key_error missing_key)
  | some run_id ↦ if truthy (some run_id) then ok run_id else err (key_error missing_key)
]

unfoldable pub required_run_row : Db → String → Result RunRow
required_run_row db run_id = or_raise (get_run db run_id) (key_error run_id)

-- The columns that the methods clear together.
abbrev pub clear_active : JobRow → JobRow
clear_active row = record row {
  active_run_id = none;
  active_run_started_at = none;
  active_run_source = none;
}

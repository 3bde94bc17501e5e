-- ===== src/AgentApi/Tables.antt =====
-- The tables of agent_api/models.py with the columns of the threads that the store reads, and what
-- the database does for it: the cascade of a deletion and the unique index on reserved contexts.
pub mod Keys
use wotbot.Base.{
  ℕ, String, ◌≡◌, Bool, true, false, not, ◌&&◌, Option, none, some, List, [], ◌∷◌, any, keep_if,
  ltb, ◌==◌, if◌then◌else◌,
}
use wotbot.Base.Dict.{Dict, lookup, insert, erase}
use wotbot.Json.{Json}
use wotbot.Jobs.Records.{ThreadKind}
use wotbot.AgentApi.Types.{
  TaskState, is_reserved, is_active, Task, Operation, Family, Error, integrity_error,
  invalid_params, Result, ok, err,
}
use wotbot.AgentApi.Interrupts.{Pending}

pub record TaskRow : Type 0 where
  pub id : String
  -- The id of the thread.
  pub context_id : String
  pub owner : String
  pub family : Family
  pub operation : Operation
  pub origin : String
  pub state : TaskState
  pub payload : Task
  pub pending : Option (List Pending)
  pub updated_at : ℕ
  pub expires_at : ℕ

pub record MessageRow : Type 0 where
  pub owner : String
  pub family : Family
  pub message_id : String
  pub request_hash : String
  pub task_id : String

pub record ArtifactRow : Type 0 where
  pub id : String
  pub task_id : String
  pub legacy_content : Option String
  pub panel_version_id : Option String
  pub expires_at : Option ℕ

pub record ThreadRow : Type 0 where
  pub kind : ThreadKind
  pub owner_api_key_id : Option String
  pub legacy_a2a_context_id : Option String

pub record Db : Type 0 where
  pub tasks : Dict TaskRow
  pub messages : List MessageRow
  pub artifacts : List ArtifactRow
  pub threads : Dict ThreadRow
  -- The contexts of the subscriptions.
  pub subscriptions : List String

abbrev pub family_eq : Family → Family → Bool
family_eq Family.assistant Family.assistant = true
family_eq Family.raw Family.raw = true
family_eq _ _ = false

-- The primary key of a message.
abbrev pub is_message : String → Family → String → MessageRow → Bool
is_message owner family message_id m =
    m.owner == owner && family_eq m.family family && m.message_id == message_id

unfoldable pub find_message : String → Family → String → List MessageRow → Option MessageRow
find_message owner family message_id [] = none
find_message owner family message_id (m ∷ ms) =
    if is_message owner family message_id m then some m else find_message owner family message_id ms

-- `session.delete(row)` and the cascade to its messages.
unfoldable pub delete_task : String → Db → Db
unfolding erase
delete_task id db = record db {
  tasks = erase id db.tasks;
  messages = keep_if (λ (m : MessageRow). not (m.task_id == id)) db.messages;
}

-- A row that holds the index entry of a context.
abbrev pub reserves : String → String → String × TaskRow → Bool
reserves id context_id (k, r) = not (k == id) && is_reserved r.state && r.context_id == context_id

-- Another row of the context is reserved: the partial unique index refuses a second one.
unfoldable pub is_taken : Db → String → String → Bool
is_taken db id context_id = any (reserves id context_id) db.tasks

abbrev pub save_task : TaskRow → Db → Db
save_task row db = record db { tasks = insert row.id row db.tasks }

-- The flush of a row; `taken` is what the index raises.
unfoldable pub flush_task : Error → TaskRow → Db → Result Db
unfolding is_taken insert
flush_task taken row db =
    if is_reserved row.state && is_taken db row.id row.context_id
    then err taken
    else ok (save_task row db)

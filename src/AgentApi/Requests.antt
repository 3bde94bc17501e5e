-- ===== src/AgentApi/Requests.antt =====
-- The request of a caller to agent_api/store.py, the context that it names, and the task of an owner.
use wotbot.Base.{
  ℕ, ◌+◌, String, ◌≡◌, eq_iff, arith, Bool, true, false, ◌&&◌, ◌||◌, Option, none, some, [], ◌∷◌,
  ◌++◌, ltb, ◌==◌, if◌then◌else◌, truthy, opt_eq,
}
use wotbot.Base.Dict.{Dict, lookup, insert}
use wotbot.Json.{Json, dict}
use wotbot.Jobs.Records.{ThreadKind}
use wotbot.AgentApi.Types.{
  submitted, is_active, Message, Task, Operation, Family, Error, invalid_params, task_not_found,
  Result, ok, err, ◌>>=◌,
}
use wotbot.AgentApi.Tables.{TaskRow, ThreadRow, Db, family_eq}

-- The request of a caller; an absent `operation` and `metadata` are empty objects.
pub record Request : Type 0 where
  pub message : Message
  pub message_json : Json
  pub operation : Dict Json
  pub metadata : Json
  pub origin : String
  pub accepted_output_modes : Json

pub record Admission : Type 0 where
  pub task : Task
  pub thread_id : String
  pub execute : Bool
  pub resume : Option (Dict Json)
  pub operation : Operation

-- What the hash of a request is taken of.
abbrev pub request_content : Bool → Request → Json
request_content legacy request = dict (
    ("message", request.message_json)
    ∷ ("metadata", request.metadata)
    ∷ ((elim request.operation [ [] ↦ [] | _ ↦ ("operation", dict request.operation) ∷ [] ])
        ++ (if legacy then ("acceptedOutputModes", request.accepted_output_modes) ∷ [] else [])))

abbrev pub agent_thread_kind : Family → ThreadKind
agent_thread_kind Family.raw = ThreadKind.mcp_raw
agent_thread_kind Family.assistant = ThreadKind.a2a

abbrev pub kind_eq : ThreadKind → ThreadKind → Bool
kind_eq ThreadKind.chat ThreadKind.chat = true
kind_eq ThreadKind.job ThreadKind.job = true
kind_eq ThreadKind.a2a ThreadKind.a2a = true
kind_eq ThreadKind.mcp_raw ThreadKind.mcp_raw = true
kind_eq _ _ = false

abbrev pub used : Error
used = invalid_params "messageId was already used with different content"

abbrev pub unknown_context : Error
unknown_context = invalid_params "Unknown contextId"

abbrev pub wrong_context : Error
wrong_context = invalid_params "taskId and contextId do not match"

abbrev pub not_paused : Error
not_paused = invalid_params "Only the corresponding paused task accepts a continuation"

abbrev pub occupied : Error
occupied = invalid_params "This context already has an executing or suspended task"

-- `func.coalesce(Thread.legacy_a2a_context_id, Thread.id)`
abbrev pub context_of : String → ThreadRow → String
context_of id thread = elim thread.legacy_a2a_context_id [ none ↦ id | some c ↦ c ]

abbrev pub is_context : String → ThreadKind → String → String × ThreadRow → Bool
is_context owner kind context_id (id, thread) =
    context_of id thread == context_id
    && opt_eq thread.owner_api_key_id owner
    && kind_eq thread.kind kind

unfoldable pub find_thread : String → ThreadKind → String → Dict ThreadRow → Result String
find_thread owner kind context_id [] = err unknown_context
find_thread owner kind context_id ((id, thread) ∷ threads) =
    if is_context owner kind context_id (id, thread)
    then ok id
    else find_thread owner kind context_id threads

abbrev pub new_thread : String → Family → ThreadRow
new_thread owner family = record {
  kind = agent_thread_kind family;
  owner_api_key_id = some owner;
  legacy_a2a_context_id = none;
}

-- `_context`: the thread, the public context and the tables. `fresh_id` is the `uuid4`.
unfoldable pub resolve_context :
    Db → String → Option String → Family → String → Result (String × String × Db)
unfolding find_thread insert
resolve_context db owner none family fresh_id = ok (
  fresh_id,
  fresh_id,
  record db { threads = insert fresh_id (new_thread owner family) db.threads },
)
resolve_context db owner (some c) family fresh_id = do
  thread_id ← find_thread owner (agent_thread_kind family) c db.threads
  ok (thread_id, c, db)

-- A text of the request that is given and not empty.
abbrev pub given : Option String → Option String
given o = if truthy o then o else none

-- `row.expires_at > now or row.state in ACTIVE`
abbrev pub is_retained : ℕ → TaskRow → Bool
is_retained now row = ltb now row.expires_at || is_active row.state

abbrev pub owned_if : String → ℕ → Option TaskRow → Result TaskRow
owned_if owner now none = err task_not_found
owned_if owner now (some row) =
    if row.owner == owner && ltb now row.expires_at then ok row else err task_not_found

-- `_owned`
unfoldable pub owned : Db → String → String → ℕ → Result TaskRow
unfolding lookup
owned db owner task_id now = owned_if owner now (lookup task_id db.tasks)

owned_if-eq_ok :
    (owner : String) (now : ℕ) (o : Option TaskRow) (row : TaskRow)
    → owned_if owner now o ≡ ok row
    → (o ≡ some row) × (row.owner ≡ owner)
owned_if-eq_ok owner now none row h = cc
owned_if-eq_ok owner now (some r) row h = (ground arith, ground (arith, eq_iff r.owner owner))

-- A row that `_owned` finds is the owner's.
pub owned-eq_ok :
    (db : Db) (owner id : String) (now : ℕ) (row : TaskRow)
    → owned db owner id now ≡ ok row
    → (lookup id db.tasks ≡ some row) × (row.owner ≡ owner)
unfolding owned
owned-eq_ok db owner id now row h = owned_if-eq_ok owner now (lookup id db.tasks) row h

-- `_check_family`
abbrev pub check_family : TaskRow → Family → Result (Unit {0})
check_family row f = if family_eq row.family f then ok tt else err task_not_found

-- The columns that `admit` writes at its end, on the row of either path.
abbrev pub submitted_task : Task → Message → String → ℕ → Task
submitted_task task message row_id now = record task {
  history =
      task.history
      ++ record message { context_id = some task.context_id; task_id = some row_id } ∷ [];
  status = record { state = submitted; timestamp = now; message = none };
}

abbrev pub submitted_row : TaskRow → Task → ℕ → ℕ → TaskRow
submitted_row row task now retention = record row {
  state = submitted;
  payload = task;
  updated_at = now;
  expires_at = now + retention;
}

abbrev pub retried : TaskRow → Admission
retried row = record {
  task = row.payload;
  thread_id = row.context_id;
  execute = false;
  resume = none;
  operation = row.operation;
}

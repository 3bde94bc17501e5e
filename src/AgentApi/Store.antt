-- ===== src/AgentApi/Store.antt =====
-- The other transactions of `TaskStore` in agent_api/store.py. `now` is read once in each.
use wotbot.Base.{
  ℕ, ◌+◌, String, Bool, true, false, not, ◌&&◌, Option, none, some, List, [], ◌∷◌, map, any, is_in,
  length, leb, keep_if, ◌==◌, if◌then◌else◌,
}
use wotbot.Base.Dict.{Dict, lookup, has_key, keys, keep_entries}
use wotbot.Json.{str, dict}
use wotbot.Jobs.Records.{ThreadKind}
use wotbot.AgentApi.Types.{
  failed, is_active, Message, Task, Operation, Family, integrity_error, Result, ok, ◌>>=◌, ◌>>◌,
}
use wotbot.AgentApi.Interrupts.{Pending}
use wotbot.AgentApi.Tables.{TaskRow, MessageRow, ArtifactRow, ThreadRow, Db, flush_task}
use wotbot.AgentApi.Requests.{owned, check_family}

-- `_owned` with its `family`, which may be left out.
abbrev pub owned_in : Db → String → String → Option Family → ℕ → Result TaskRow
owned_in db owner task_id none now = owned db owner task_id now
owned_in db owner task_id (some family) now = do
  row ← owned db owner task_id now
  check_family row family
  ok row

unfoldable pub get : Db → String → String → Option Family → ℕ → Result Task
unfolding owned
get db owner task_id family now = owned_in db owner task_id family now >>= λ row. ok row.payload

unfoldable pub thread_id : Db → String → String → ℕ → Result String
unfolding owned
thread_id db owner task_id now = owned db owner task_id now >>= λ row. ok row.context_id

unfoldable pub operation : Db → String → String → Option Family → ℕ → Result Operation
unfolding owned
operation db owner task_id family now =
    owned_in db owner task_id family now >>= λ row. ok row.operation

abbrev pub saved_row : TaskRow → Task → Option (List Pending) → ℕ → ℕ → TaskRow
saved_row row task pending now retention = record row {
  payload = task;
  state = task.status.state;
  pending = pending;
  updated_at = task.status.timestamp;
  expires_at = now + retention;
}

unfoldable pub save : ℕ → Db → String → Task → Option (List Pending) → ℕ → Result Db
unfolding owned flush_task
save retention db owner task pending now = do
  row ← owned db owner task.id now
  flush_task integrity_error (saved_row row task pending now retention) db

abbrev pub stopped_notice : String
stopped_notice =
    "The server stopped during execution. The outcome of device actions is uncertain; inspect device state before submitting new work. This task was not retried."

-- `fresh_id` draws the id of the message for a task.
abbrev pub recovered_row : (String → String) → ℕ → TaskRow → TaskRow
recovered_row fresh_id now row =
    let task = row.payload in
    let notice : Message = record {
      message_id = fresh_id task.id;
      context_id = some task.context_id;
      task_id = some task.id;
      role = "ROLE_AGENT";
      parts = dict (("text", str stopped_notice) ∷ []) ∷ [];
    } in
    record row {
      payload = record task {
        status = record { state = failed; timestamp = now; message = some notice };
      };
      state = failed;
      updated_at = now;
    }

abbrev pub recovered : (String → String) → ℕ → String × TaskRow → String × TaskRow
recovered fresh_id now (k, row) =
    (k, if is_active row.state then recovered_row fresh_id now row else row)

unfoldable pub recover : (String → String) → Db → ℕ → ℕ × Db
recover fresh_id db now = (
  length (keep_if (λ (e : String × TaskRow). is_active e.1.state) db.tasks),
  record db { tasks = map (recovered fresh_id now) db.tasks },
)

-- `expires_at <= now`; a comparison with NULL is not true.
abbrev pub has_expired : ℕ → Option ℕ → Bool
has_expired now none = false
has_expired now (some t) = leb t now

abbrev pub without_content : ℕ → ArtifactRow → ArtifactRow
without_content now a =
    if has_expired now a.expires_at then record a { legacy_content = none } else a

-- The tasks that `prune` keeps.
abbrev pub is_kept : ℕ → String → TaskRow → Bool
is_kept now k row = not (leb row.expires_at now && not (is_active row.state))

abbrev pub is_kept_artifact : ℕ → Dict TaskRow → ArtifactRow → Bool
is_kept_artifact now tasks a = elim a.panel_version_id [
  | some v ↦ true
  | none ↦ not (has_expired now a.expires_at && not (has_key a.task_id tasks))
]

abbrev pub is_agent_kind : ThreadKind → Bool
is_agent_kind ThreadKind.a2a = true
is_agent_kind ThreadKind.mcp_raw = true
is_agent_kind _ = false

abbrev pub in_context : String → String × TaskRow → Bool
in_context thread_id e = e.1.context_id == thread_id

-- A thread of an agent with neither a task nor a subscription.
abbrev pub is_retired : Db → String → ThreadRow → Bool
is_retired db k thread =
    is_agent_kind thread.kind && not (any (in_context k) db.tasks) && not (is_in k db.subscriptions)

unfoldable pub prune : Db → ℕ → List String × Db
unfolding keep_entries lookup
prune db now =
    let tasks = keep_entries (is_kept now) db.tasks in
    let db' = record db {
      tasks = tasks;
      messages = keep_if (λ (m : MessageRow). has_key m.task_id tasks) db.messages;
      artifacts = keep_if (is_kept_artifact now tasks) (map (without_content now) db.artifacts);
    } in
    (keys (keep_entries (is_retired db') db.threads), db')

unfoldable pub delete_contexts : Db → List String → ℕ × Db
unfolding keep_entries
delete_contexts db thread_ids =
    let goes = λ (k : String) (thread : ThreadRow). is_in k thread_ids && is_retired db k thread in
    (
      length (keep_entries goes db.threads),
      record db { threads = keep_entries (λ k thread. not (goes k thread)) db.threads },
    )

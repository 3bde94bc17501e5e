-- ===== src/AgentApi/Admit.antt =====
-- `TaskStore.admit` of agent_api/store.py, one transaction: an advisory lock puts the calls for one
-- message one after the other. `now` is read once.
use wotbot.Base.{
  ℕ, String, Bool, true, false, ◌||◌, Option, none, some, List, [], ◌∷◌, ◌++◌, ◌==◌, if◌then◌else◌,
}
use wotbot.Base.Dict.{Dict, lookup}
use wotbot.Base.Text.{◌<>◌}
use wotbot.Json.{Json}
use wotbot.AgentApi.Types.{
  submitted, is_paused, Task, Operation, Family, family_of, validate_operation, attribute_error,
  Result, ok, err, ◌>>=◌, ◌>>◌,
}
use wotbot.AgentApi.Interrupts.{Pending, validate_reply}
use wotbot.AgentApi.Tables.{TaskRow, MessageRow, Db, find_message, delete_task, flush_task}
use wotbot.AgentApi.Requests.{
  Request, Admission, request_content, used, wrong_context, not_paused, occupied, resolve_context,
  given, is_retained, owned, check_family, submitted_task, submitted_row, retried,
}

-- What both paths hand on: the row, its task, the replies and the operation.
pub record Draft : Type 0 where
  pub row : TaskRow
  pub task : Task
  pub resume : Option (Dict Json)
  pub operation : Operation

abbrev pub resumed : TaskRow → Dict Json → Draft
resumed row resume = record {
  row = record row { pending = none };
  task = row.payload;
  resume = some resume;
  operation = row.operation;
}

abbrev pub pending_of : TaskRow → List Pending
pending_of row = elim row.pending [ none ↦ [] | some ps ↦ ps ]

abbrev pub same_context : Option String → String → Bool
same_context none c = true
same_context (some d) c = d == c

abbrev pub check_pause : Option String → TaskRow → Result (Unit {0})
check_pause context_id row =
    if same_context context_id row.payload.context_id
    then if is_paused row.state then ok tt else err not_paused
    else err wrong_context

-- The row of another message's task under the new id makes way if it is not retained.
abbrev pub cleared : Db → String → ℕ → Option TaskRow → Result Db
cleared db task_id now none = ok db
cleared db task_id now (some row) =
    if is_retained now row then err used else ok (delete_task task_id db)

abbrev pub new_task : String → String → Task
new_task task_id context_id = record {
  id = task_id;
  context_id = context_id;
  status = record { state = submitted; timestamp = 0; message = none };
  history = [];
  artifacts = [];
  metadata = [];
}

abbrev pub new_row : String → String → String → Family → Operation → String → Task → TaskRow
new_row task_id thread_id owner family operation origin task = record {
  id = task_id;
  context_id = thread_id;
  owner = owner;
  family = family;
  operation = operation;
  origin = origin;
  state = submitted;
  payload = task;
  pending = none;
  updated_at = 0;
  expires_at = 0;
}

abbrev pub opened : TaskRow → Draft
opened row = record { row = row; task = row.payload; resume = none; operation = row.operation }

-- What the store uses from outside: the hash of the canonical JSON text of a value, the name-based
-- UUID with its namespace, the validation by a JSON schema, and the retention in microseconds.
pub record Outside : Type 0 where
  pub digest : Json → String
  pub uuid5 : String → String → String
  pub namespace_url : String
  pub matches : Json → Json → Bool
  pub retention : ℕ

module _ (x : Outside) where
  open x use {digest, uuid5, namespace_url, matches, retention}

  abbrev pub request_fingerprint : Bool → Request → String
  request_fingerprint legacy request = digest (request_content legacy request)

  abbrev pub family_namespace : Family → String
  family_namespace Family.assistant = namespace_url
  family_namespace Family.raw = uuid5 namespace_url "wotbot:agent-tasks:raw"

  abbrev pub task_identity : String → String → Family → String
  task_identity owner message_id family =
      uuid5 (family_namespace family) ("wotbot:a2a:" <> owner <> ":" <> message_id)

  -- `prior.request_hash` is one of the two hashes of the request.
  abbrev pub is_same_request : MessageRow → Request → Bool
  is_same_request prior request =
      prior.request_hash == request_fingerprint false request
      || prior.request_hash == request_fingerprint true request

  -- A message whose task is retained: the task as it is, which is not executed again.
  unfoldable pub answer_retry : MessageRow → TaskRow → Request → Family → Result Admission
  answer_retry prior row request family =
      if is_same_request prior request
      then (check_family row family >> ok (retried row))
      else err used

  -- The message continues a paused task.
  unfoldable pub continue_task : Db → String → Request → Family → String → ℕ → Result Draft
  unfolding owned validate_reply
  continue_task db owner request family task_id now = do
    row ← owned db owner task_id now
    check_family row family
    check_pause (given request.message.context_id) row
    resume ← validate_reply matches (pending_of row) request.message.parts
    ok (resumed row resume)

  -- The message opens a task.
  unfoldable pub open_task :
      Db → String → Request → Family → Operation → String → ℕ → Result (Draft × Db)
  unfolding lookup delete_task resolve_context
  open_task db owner request family operation fresh_id now = do
    let task_id = task_identity owner request.message.message_id family
    db₁ ← cleared db task_id now (lookup task_id db.tasks)
    (thread_id, context_id, db₂) ←
        resolve_context db₁ owner (given request.message.context_id) family fresh_id
    let task = new_task task_id context_id
    ok (opened (new_row task_id thread_id owner family operation request.origin task), db₂)

  -- With the `taskId` of the message.
  abbrev pub draft_for :
      Db → String → Request → Family → Operation → String → ℕ → Option String → Result (Draft × Db)
  draft_for db owner request family operation fresh_id now none =
      open_task db owner request family operation fresh_id now
  draft_for db owner request family operation fresh_id now (some task_id) =
      continue_task db owner request family task_id now >>= λ d. ok (d, db)

  abbrev pub draft : Db → String → Request → Family → Operation → String → ℕ → Result (Draft × Db)
  draft db owner request family operation fresh_id now =
      draft_for db owner request family operation fresh_id now (given request.message.task_id)

  abbrev pub message_row : String → Family → Request → String → MessageRow
  message_row owner family request task_id = record {
    owner = owner;
    family = family;
    message_id = request.message.message_id;
    request_hash = request_fingerprint false request;
    task_id = task_id;
  }

  -- The end of `admit`: the row, flushed against the index, and the message.
  unfoldable pub record_draft : String → Request → Family → ℕ → Draft × Db → Result (Admission × Db)
  unfolding flush_task
  record_draft owner request family now (d, db) = do
    let task = submitted_task d.task request.message d.row.id now
    db₁ ← flush_task occupied (submitted_row d.row task now retention) db
    ok (
      record {
        task = task;
        thread_id = d.row.context_id;
        execute = true;
        resume = d.resume;
        operation = d.operation;
      },
      record db₁ { messages = db₁.messages ++ message_row owner family request d.row.id ∷ [] },
    )

  unfoldable pub admit_new :
      Db → String → Request → Family → Operation → String → ℕ → Result (Admission × Db)
  unfolding continue_task open_task record_draft
  admit_new db owner request family operation fresh_id now = do
    d ← draft db owner request family operation fresh_id now
    record_draft owner request family now d

  -- The prior message of the same id, and the row of its task.
  abbrev pub admit_after :
      Db
      → String
      → Request
      → Family
      → Operation
      → String
      → ℕ
      → MessageRow
      → Option TaskRow
      → Result (Admission × Db)
  admit_after db owner request family operation fresh_id now prior none = err attribute_error
  admit_after db owner request family operation fresh_id now prior (some row) =
      if is_retained now row
      then (answer_retry prior row request family >>= λ a. ok (a, db))
      else admit_new (delete_task prior.task_id db) owner request family operation fresh_id now

  abbrev pub admit_found :
      Db
      → String
      → Request
      → Family
      → Operation
      → String
      → ℕ
      → Option MessageRow
      → Result (Admission × Db)
  admit_found db owner request family operation fresh_id now none =
      admit_new db owner request family operation fresh_id now
  admit_found db owner request family operation fresh_id now (some prior) =
      admit_after db owner request family operation fresh_id now prior
        (lookup prior.task_id db.tasks)

  unfoldable pub admit : Db → String → Request → String → ℕ → Result (Admission × Db)
  unfolding lookup find_message delete_task answer_retry admit_new validate_operation
  admit db owner request fresh_id now = do
    operation ← validate_operation request.operation
    admit_found db owner request (family_of operation) operation fresh_id now
        (find_message owner (family_of operation) request.message.message_id db.messages)

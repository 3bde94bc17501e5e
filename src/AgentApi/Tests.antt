-- ===== src/AgentApi/Tests.antt =====
-- Runs of the store of agent tasks at concrete inputs.
use wotbot.Base.{
  ℕ, String, ◌≡◌, refl, Bool, true, false, Option, none, some, List, [], ◌∷◌, map, if◌then◌else◌,
  ◌==◌,
}
use wotbot.Base.Dict.{Dict}
use wotbot.Json.{Json, str, num, dict, json_eq, as_dict, as_str, get as get_json}
use wotbot.Base.{arith}
use wotbot.AgentApi.Types.{
  submitted, working, completed, Message, Task, OperationKind, Family, Result, ok, err,
}
use wotbot.AgentApi.Interrupts.{Pending, validate_reply, unknown, incomplete}
use wotbot.AgentApi.Interrupts.Answered.{or_empty, IsReply, validate_reply-IsReply}
use wotbot.AgentApi.Tables.{TaskRow, Db}
use wotbot.AgentApi.Requests.{Request, Admission, used, occupied, not_paused}
use wotbot.AgentApi.Admit.{Outside, admit}
use wotbot.AgentApi.Store.{save, recover}
use wotbot.AgentApi.Consistent.{IsConsistent}
use wotbot.AgentApi.Lifecycle.{
  Steps, here, next, admits, saves, recovers, no_tasks, no_tasks-IsConsistent, tasks-IsConsistent,
}
use wotbot.AgentApi.Retries.Once.{admit-once}
use wotbot.AgentApi.Paging.{TaskQuery, PageToken, ordered, all_pages}
use wotbot.AgentApi.Paging.Order.{IsOrdered}
use wotbot.AgentApi.Paging.Pages.{all_pages-ordered}

abbrev outside : Outside
outside = record {
  digest = λ content. or_empty (as_str (get_json "message" (as_dict content)));
  uuid5 = λ namespace name. name;
  namespace_url = "url";
  matches = λ value schema. json_eq value schema;
  retention = 1000;
}

abbrev message : String → Option String → List Json → Message
message id task_id parts = record {
  message_id = id;
  context_id = none;
  task_id = task_id;
  role = "ROLE_USER";
  parts = parts;
}

abbrev request : Message → Request
request m = record {
  message = m;
  message_json = str m.message_id;
  operation = [];
  metadata = dict [];
  origin = "a2a";
  accepted_output_modes = dict [];
}

abbrev hello : Request
hello = request (message "m1" none [])

abbrev or_default {ℓ} : {A : Type ℓ} → A → Result A → A
or_default a (ok b) = b
or_default a (err e) = a

abbrev no_task : Task
no_task = record {
  id = "";
  context_id = "";
  status = record { state = submitted; timestamp = 0; message = none };
  history = [];
  artifacts = [];
  metadata = [];
}

abbrev nothing : Admission × Db
nothing = (
  record {
    task = no_task;
    thread_id = "";
    execute = false;
    resume = none;
    operation = record { kind = OperationKind.assistant; name = none; arguments = [] };
  },
  no_tasks [],
)

abbrev first : Admission × Db
unfolding admit
first = or_default nothing (admit outside (no_tasks []) "key" hello "t1" 10)

first_admitted : admit outside (no_tasks []) "key" hello "t1" 10 ≡ ok first
unfolding admit
first_admitted = refl

abbrev at_work : Task
unfolding admit
at_work = record first.0.task {
  status = record { state = working; timestamp = 20; message = none };
}

abbrev saved : Db
unfolding admit save
saved = or_default (no_tasks []) (save 1000 first.1 "key" at_work none 20)

saved_lem : save 1000 first.1 "key" at_work none 20 ≡ ok saved
unfolding save admit
saved_lem = refl

abbrev stopped : Db
unfolding admit save recover
stopped = (recover (λ id. "notice") saved 30).1

stopped-Steps : Steps outside 10 40 first.1 stopped
unfolding admit save recover
stopped-Steps =
    next (next here (saves "key" at_work none 20 (omega arith) saved_lem))
      (recovers (λ id. "notice") 30 (omega arith))

admit-once_example :
    (a' : Admission) × (admit outside stopped "key" hello "t2" 40 ≡ ok (a', stopped))
    × (a'.execute ≡ false)
    × (a'.task.id ≡ first.0.task.id)
unfolding admit save recover
admit-once_example =
    admit-once outside "key" hello (no_tasks []) stopped first "t1" "t2" 10 40
      (no_tasks-IsConsistent [] tt) refl first_admitted refl stopped-Steps (omega arith)

-- The same id with other content is refused, and so is a second task in the context.
reused :
    admit outside first.1 "key" (record hello { message_json = str "other" }) "t2" 20 ≡ err used
unfolding admit get_json
reused = refl

abbrev second : Request
second = request (record (message "m2" none []) { context_id = some "t1" })

second_refused : admit outside first.1 "key" second "t2" 20 ≡ err occupied
unfolding admit
second_refused = refl

early :
    admit outside first.1 "key" (request (message "m2" (some first.0.task.id) [])) "t2" 20
    ≡ err not_paused
unfolding admit
early = refl

-- After its retention the message opens a new task.
abbrev executes : Result (Admission × Db) → Bool
executes (ok a) = a.0.execute
executes (err e) = false

expired : executes (admit outside stopped "key" hello "t2" 2000) ≡ true
unfolding admit save recover
expired = refl

tasks-IsConsistent_example : IsConsistent stopped
unfolding admit save recover
tasks-IsConsistent_example = tasks-IsConsistent {x = outside} {from = 10} {to = 40} [] tt (
    next
      (next (next here (admits "key" hello "t1" 10 (omega arith) refl first_admitted))
        (saves "key" at_work none 20 (omega arith) saved_lem))
      (recovers (λ id. "notice") 30 (omega arith)))

abbrev asked : List Pending
asked =
    record { request_id = "q1"; kind = "input"; explanation = ""; response_schema = num 1 }
    ∷ record { request_id = "q2"; kind = "input"; explanation = ""; response_schema = num 2 }
    ∷ []

abbrev part : String → Json → Json
part id response = dict (("data", dict (("requestId", str id) ∷ ("response", response) ∷ [])) ∷ [])

abbrev replies : Dict Json
replies = ("q2", num 2) ∷ ("q1", num 1) ∷ []

replied : validate_reply json_eq asked (part "q2" (num 2) ∷ part "q1" (num 1) ∷ []) ≡ ok replies
unfolding validate_reply get_json json_eq
replied = refl

unanswered : validate_reply json_eq asked (part "q2" (num 2) ∷ []) ≡ err incomplete
unfolding validate_reply get_json json_eq
unanswered = refl

doubled : validate_reply json_eq asked (part "q2" (num 2) ∷ part "q2" (num 2) ∷ []) ≡ err unknown
unfolding validate_reply get_json json_eq
doubled = refl

validate_reply-IsReply_example :
    IsReply json_eq asked (part "q2" (num 2) ∷ part "q1" (num 1) ∷ []) replies
validate_reply-IsReply_example =
    validate_reply-IsReply json_eq asked (part "q2" (num 2) ∷ part "q1" (num 1) ∷ []) replies
      replied

abbrev listed_row : String → ℕ → TaskRow
listed_row id updated = record {
  id = id;
  context_id = id;
  owner = "key";
  family = Family.assistant;
  operation = record { kind = OperationKind.assistant; name = none; arguments = [] };
  origin = "a2a";
  state = completed;
  payload = record no_task { id = id };
  pending = none;
  updated_at = updated;
  expires_at = 100;
}

abbrev listed : Db
listed = record (no_tasks []) {
  tasks = ("a", listed_row "a" 5) ∷ ("b", listed_row "b" 7) ∷ ("c", listed_row "c" 5) ∷ [];
}

abbrev rank : String → ℕ
rank s = if s == "a" then 1 else if s == "b" then 2 else 3

abbrev all_tasks : TaskQuery
all_tasks = record {
  context_id = "";
  page_size = 2;
  page_token = PageToken.first;
  status = none;
  status_timestamp_after = none;
  family = Family.assistant;
}

-- The newest first, and of two of one time the later id.
abbrev in_order : List TaskRow
in_order = listed_row "b" 7 ∷ listed_row "c" 5 ∷ listed_row "a" 5 ∷ []

all_pages-ordered_example :
    (all_pages rank (λ content. "hash") 4 listed "key" all_tasks 10
      ≡ ok (map (λ (r : TaskRow). r.payload) in_order))
    × IsOrdered rank in_order
unfolding ordered
all_pages-ordered_example =
    all_pages-ordered rank (λ content. "hash") listed "key" all_tasks 10 4 (omega arith)
      ((omega arith, (omega arith, tt)), ((omega arith, tt), (tt, tt))) (omega arith)

-- ===== src/AgentApi/Lifecycle.antt =====
-- The transactions of agent_api/store.py in any order, as a step relation on the tables. Other code
-- writes artifacts and subscriptions, and adds threads of its own.
use wotbot.Base.{ℕ, ◌≤◌, String, ◌≡◌, Option, none, List, []}
use wotbot.Base.Dict.{Dict, IsDict, lookup, insert}
use wotbot.AgentApi.Types.{Task, ok}
use wotbot.AgentApi.Interrupts.{Pending}
use wotbot.AgentApi.Tables.{ArtifactRow, ThreadRow, Db}
use wotbot.AgentApi.Requests.{Request, Admission}
use wotbot.AgentApi.Admit.{Outside, admit}
use wotbot.AgentApi.Store.{save, recover, prune, delete_contexts}
use wotbot.AgentApi.Consistent.{IsConsistent}
use wotbot.AgentApi.Consistent.Sweeps.{
  recover-IsConsistent, prune-IsConsistent, delete_contexts-IsConsistent, save-IsConsistent,
}
use wotbot.AgentApi.Consistent.Parts.{new_thread-IsConsistent}
use wotbot.AgentApi.Consistent.Admission.{admit-IsConsistent}

abbrev pub Within : ℕ → ℕ → ℕ → Type 0
Within from to now = (from ≤ now) × (now ≤ to)

-- One transaction at a time between `from` and `to`; one that raises is no step. A drawn thread id
-- is new.
pub data Step (x : Outside) (from to : ℕ) (db : Db) : Db → Type 0 where
  admits :
      {db' : Db} {a : Admission} (owner : String) (request : Request) (fresh_id : String) (now : ℕ)
      → Within from to now
      → lookup fresh_id db.threads ≡ none
      → admit x db owner request fresh_id now ≡ ok (a, db')
      → Step x from to db db'
  saves :
      {db' : Db} (owner : String) (task : Task) (pending : Option (List Pending)) (now : ℕ)
      → Within from to now
      → save x.retention db owner task pending now ≡ ok db'
      → Step x from to db db'
  recovers :
      (fresh_id : String → String) (now : ℕ)
      → Within from to now
      → Step x from to db ((recover fresh_id db now).1)
  prunes : (now : ℕ) → Within from to now → Step x from to db ((prune db now).1)
  deletes : (ids : List String) → Step x from to db ((delete_contexts db ids).1)
  others :
      (artifacts : List ArtifactRow) (subscriptions : List String)
      → Step x from to db (record db { artifacts = artifacts; subscriptions = subscriptions })
  opens :
      (id : String) (thread : ThreadRow)
      → lookup id db.threads ≡ none
      → Step x from to db (record db { threads = insert id thread db.threads })

pub data Steps (x : Outside) (from to : ℕ) (db : Db) : Db → Type 0 where
  here : Steps x from to db db
  next :
      {db' db'' : Db} → Steps x from to db db' → Step x from to db' db'' → Steps x from to db db''

others-IsConsistent :
    (db : Db) (artifacts : List ArtifactRow) (subscriptions : List String)
    → IsConsistent db
    → IsConsistent (record db { artifacts = artifacts; subscriptions = subscriptions })
others-IsConsistent db artifacts subscriptions c = record {
  table = c.table;
  thread_table = c.thread_table;
  task_id = c.task_id;
  payload_id = c.payload_id;
  home = c.home;
  keyed = c.keyed;
  source = c.source;
  single = c.single;
}

pub Step-IsConsistent :
    {x : Outside} {from to : ℕ} {db db' : Db}
    → IsConsistent db
    → Step x from to db db'
    → IsConsistent db'
Step-IsConsistent {x} {from} {to} {db} c (admits {a} owner request fresh_id now w new e) =
    admit-IsConsistent x db owner request fresh_id now (a, _) c new e
Step-IsConsistent {x} {from} {to} {db} c (saves owner task pending now w e) =
    save-IsConsistent x.retention db owner task pending now c e
Step-IsConsistent {x} {from} {to} {db} c (recovers fresh_id now w) =
    recover-IsConsistent fresh_id now db c
Step-IsConsistent {x} {from} {to} {db} c (prunes now w) = prune-IsConsistent now db c
Step-IsConsistent {x} {from} {to} {db} c (deletes ids) = delete_contexts-IsConsistent db c ids
Step-IsConsistent {x} {from} {to} {db} c (others artifacts subscriptions) =
    others-IsConsistent db artifacts subscriptions c
Step-IsConsistent {x} {from} {to} {db} c (opens id thread new) =
    new_thread-IsConsistent db id thread new c

pub Steps-IsConsistent :
    {x : Outside} {from to : ℕ} {db db' : Db}
    → IsConsistent db
    → Steps x from to db db'
    → IsConsistent db'
Steps-IsConsistent c here = c
Steps-IsConsistent c (next r s) = Step-IsConsistent (Steps-IsConsistent c r) s

-- A database with other threads and no task yet.
abbrev pub no_tasks : Dict ThreadRow → Db
no_tasks threads = record {
  tasks = [];
  messages = [];
  artifacts = [];
  threads = threads;
  subscriptions = [];
}

pub no_tasks-IsConsistent :
    (threads : Dict ThreadRow) → IsDict threads → IsConsistent (no_tasks threads)
unfolding lookup
no_tasks-IsConsistent threads d = record {
  table = tt;
  thread_table = d;
  task_id = λ k r h. cc;
  payload_id = λ k r h. cc;
  home = λ k r h. cc;
  keyed = tt;
  source = tt;
  single = λ j k r s h. cc;
}

-- Whatever transactions have run, at most one task of a context is executing or paused, every task
-- lives in a thread of its owner and kind, a message id is recorded once per owner and family, and its
-- task is there, of the same owner and family. The store starts with no task.
pub tasks-IsConsistent :
    {x : Outside} {from to : ℕ} {db : Db} (threads : Dict ThreadRow)
    → IsDict threads
    → Steps x from to (no_tasks threads) db
    → IsConsistent db
tasks-IsConsistent threads d steps = Steps-IsConsistent (no_tasks-IsConsistent threads d) steps

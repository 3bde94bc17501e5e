-- ===== src/AgentApi/Retries/Keeping.antt =====
-- Every transaction keeps the messages of the tasks that are retained while it runs.
use wotbot.Base.{ℕ, ◌+◌, ◌≤◌, ◌<◌, String, ◌≡◌, ◌∙◌, true, Option, List, arith}
use wotbot.Base.Dict.{lookup-keep_entries}
use wotbot.AgentApi.Types.{integrity_error, Task, Family, ok, both_ok}
use wotbot.AgentApi.Interrupts.{Pending}
use wotbot.AgentApi.Tables.{MessageRow, Db}
use wotbot.AgentApi.Tables.Keys.{find_message-keep_if}
use wotbot.AgentApi.Requests.{owned, owned-eq_ok}
use wotbot.AgentApi.Admit.{Outside}
use wotbot.AgentApi.Store.{saved_row, save, recover, is_kept, prune, delete_contexts}
use wotbot.AgentApi.Consistent.{IsConsistent}
use wotbot.AgentApi.Consistent.Parts.{KeepsOwner-found}
use wotbot.AgentApi.Consistent.Sweeps.{recovered-lookup, recovered_value, value_family}
use wotbot.AgentApi.Lifecycle.{
  Step, admits, saves, recovers, prunes, deletes, others, opens, Steps, here, next,
  Steps-IsConsistent,
}
use wotbot.AgentApi.Retries.{Kept, flush_task-Kept}
use wotbot.AgentApi.Retries.Admitting.{admit-Kept}

module _ (x : Outside) (owner : String) (f : Family) (mid : String) (m : MessageRow) (e : ℕ) where
  abbrev Keeps : Db → Type 0
  Keeps = Kept owner f mid m e

  save-Kept :
      (db : Db) {db' : Db} (owner' : String) (task : Task) (pending : Option (List Pending))
      (now : ℕ)
      → IsConsistent db
      → e ≤ now + x.retention
      → save x.retention db owner' task pending now ≡ ok db'
      → Keeps db
      → Keeps db'
  unfolding save
  save-Kept db owner' task pending now c long h kept =
      let (row, got, flushed) = both_ok (owned db owner' task.id now) _ h in
      let (found, own) = owned-eq_ok db owner' task.id now row got in
      flush_task-Kept owner f mid m e integrity_error (saved_row row task pending now x.retention)
        db _ (KeepsOwner-found db row task.id (c.task_id task.id row found) found) long flushed kept

  recover-Kept :
      (fresh_id : String → String) (db : Db) (now : ℕ)
      → Keeps db
      → Keeps (recover fresh_id db now).1
  unfolding recover
  recover-Kept fresh_id db now (found, (row, there, fam, long)) = (
    found,
    (
      recovered_value fresh_id now row,
      recovered-lookup fresh_id now m.task_id row db.tasks there,
      value_family fresh_id now row ∙ fam,
      ground arith,
    ),
  )

  prune-Kept : (db : Db) (now : ℕ) → IsConsistent db → now < e → Keeps db → Keeps (prune db now).1
  unfolding prune
  prune-Kept db now c before (found, (row, there, fam, long)) =
      let stays : is_kept now m.task_id row ≡ true = ground arith in
      let left =
        (lookup-keep_entries (is_kept now) m.task_id row db.tasks c.table).1 (there, stays) in
      (
        find_message-keep_if owner f mid _ db.messages m found (ground (arith, left)),
        (row, left, fam, long),
      )

  delete_contexts-Kept : (db : Db) (ids : List String) → Keeps db → Keeps (delete_contexts db ids).1
  unfolding delete_contexts
  delete_contexts-Kept db ids kept = kept

  Step-Kept :
      {from to : ℕ} {db db' : Db}
      → IsConsistent db
      → to < e
      → e ≤ from + x.retention
      → Step x from to db db'
      → Keeps db
      → Keeps db'
  Step-Kept {from} {to} {db} c before long (admits {a} owner' request fresh_id now w new h) kept =
      admit-Kept x owner f mid m e db owner' request fresh_id now (a, _) c new (omega arith)
        (omega arith) h kept
  Step-Kept {from} {to} {db} c before long (saves owner' task pending now w h) kept =
      save-Kept db owner' task pending now c (omega arith) h kept
  Step-Kept {from} {to} {db} c before long (recovers fresh_id now w) kept =
      recover-Kept fresh_id db now kept
  Step-Kept {from} {to} {db} c before long (prunes now w) kept =
      prune-Kept db now c (omega arith) kept
  Step-Kept {from} {to} {db} c before long (deletes ids) kept = delete_contexts-Kept db ids kept
  Step-Kept {from} {to} {db} c before long (others artifacts subscriptions) kept = kept
  Step-Kept {from} {to} {db} c before long (opens id thread new) kept = kept

  pub Steps-Kept :
      {from to : ℕ} {db db' : Db}
      → IsConsistent db
      → to < e
      → e ≤ from + x.retention
      → Steps x from to db db'
      → Keeps db
      → Keeps db'
  Steps-Kept c before long here kept = kept
  Steps-Kept c before long (next r s) kept =
      Step-Kept (Steps-IsConsistent c r) before long s (Steps-Kept c before long r kept)

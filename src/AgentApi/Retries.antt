-- ===== src/AgentApi/Retries.antt =====
-- A message is executed once: what the transactions of agent_api/store.py keep of it until its task
-- expires.
pub mod Admitting
pub mod Keeping
pub mod Once
use wotbot.Base.{
  ℕ, ◌+◌, ◌≤◌, ◌<◌, String, ◌≡◌, ◌≢◌, ◌⊎◌, inl, inr, refl, sym, ap, ◌∙◌, subst, Bool, true, false,
  not, ◌&&◌, ◌||◌, Option, none, some, List, [], ◌∷◌, ◌++◌, keep_if, arith, Bool-cases,
  Option-cases, ==_self, eq_iff, ◌==◌, ltb, leb, if◌then◌else◌,
}
use wotbot.Base.Dict.{
  Dict, lookup, insert, erase, has_key, keep_entries, lookup-insert_self, lookup-insert_ne,
  lookup-erase, lookup-keep_entries,
}
use wotbot.Json.{Json}
use wotbot.AgentApi.Types.{
  Error, integrity_error, is_active, Task, Family, Operation, family_of, validate_operation, Result,
  ok, err, ◌>>=◌, both_ok, ok_inj,
}
use wotbot.AgentApi.Interrupts.{Pending}
use wotbot.AgentApi.Tables.{
  TaskRow, MessageRow, Db, family_eq, is_message, find_message, delete_task, save_task, flush_task,
}
use wotbot.AgentApi.Tables.Keys.{
  find_message-append, find_message-keep_if, has_key_of_self, find_message-append_new,
}
use wotbot.AgentApi.Requests.{
  Request, Admission, given, is_retained, owned, owned-eq_ok, submitted_task, submitted_row,
  agent_thread_kind, find_thread, resolve_context, retried, occupied,
}
use wotbot.AgentApi.Admit.{
  Outside, Draft, resumed, cleared, request_fingerprint, task_identity, is_same_request,
  answer_retry, continue_task, open_task, draft_for, draft, message_row, record_draft, admit_new,
  admit_after, admit_found, admit,
}
use wotbot.AgentApi.Store.{saved_row, save, recover, is_kept, prune, delete_contexts}
use wotbot.AgentApi.Consistent.{
  IsConsistent, KeepsOwner, flush_task-eq_ok, delete_task-IsConsistent,
}
use wotbot.AgentApi.Consistent.Parts.{ClearedFrom, cleared-eq_ok}
use wotbot.AgentApi.Consistent.Admission.{draft-IsDrafted}
use wotbot.AgentApi.Consistent.Sweeps.{recovered-lookup, recovered_value, value_family}
use wotbot.AgentApi.Lifecycle.{
  Within, Step, admits, saves, recovers, prunes, deletes, others, opens, Steps, here, next,
  Step-IsConsistent, Steps-IsConsistent,
}

-- The task `id` is there, of family `f`, and retained until `e` at least.
abbrev pub TaskKept : String → Family → ℕ → Db → Type 0
TaskKept id f e db =
    (row : TaskRow) × (lookup id db.tasks ≡ some row) × (row.family ≡ f) × (e ≤ row.expires_at)

-- The message is found, and is `m`.
abbrev pub MessageKept : String → Family → String → MessageRow → Db → Type 0
MessageKept owner f mid m db = find_message owner f mid db.messages ≡ some m

module _ (owner : String) (f : Family) (mid : String) where
  module _ (m : MessageRow) (e : ℕ) where
    -- The message and its task.
    abbrev pub Kept : Db → Type 0
    Kept db = MessageKept owner f mid m db × TaskKept m.task_id f e db

    pub delete_task-Kept :
        (k : String) (db : Db) → k ≢ m.task_id → Kept db → Kept (delete_task k db)
    unfolding delete_task
    delete_task-Kept k db differ (found, (row, there, fam, long)) = (
      find_message-keep_if owner f mid _ db.messages m found (ground (arith, eq_iff m.task_id k)),
      (row, ground (arith, lookup-erase k m.task_id db.tasks, eq_iff k m.task_id), fam, long),
    )

    -- A row that goes has another id: ours is retained.
    pub not_ours :
        (k : String) (db : Db) (row : TaskRow) (now : ℕ)
        → now < e
        → lookup k db.tasks ≡ some row
        → is_retained now row ≡ false
        → Kept db
        → k ≢ m.task_id
    not_ours k db row now before there gone (found, (ours, there', fam, long)) p =
        let here' = subst (λ i. lookup i db.tasks ≡ some row) p there in
        let same : ours ≡ row = ground (arith, there', here') in
        let long' : e ≤ row.expires_at = subst (λ (r : TaskRow). e ≤ r.expires_at) same long in
        absurd (ground (arith, gone))

    pub flush_task-Kept :
        (taken : Error) (row : TaskRow) (db db' : Db)
        → KeepsOwner db.tasks row
        → e ≤ row.expires_at
        → flush_task taken row db ≡ ok db'
        → Kept db
        → Kept db'
    flush_task-Kept taken row db db' keeps long h (found, (ours, there, fam, long')) =
        subst Kept (sym (flush_task-eq_ok db taken row h).0) (
          found,
          elim (Bool-cases (row.id == m.task_id)) [
            | inl q ↦
                let same = (eq_iff row.id m.task_id).0 q in
                let old =
                  keeps ours (subst (λ k. lookup k db.tasks ≡ some ours) (sym same) there) in
                (
                  row,
                  subst (λ k. lookup k (insert row.id row db.tasks) ≡ some row) same
                      (lookup-insert_self row.id row db.tasks),
                  old.1 ∙ fam,
                  long,
                )
            | inr q ↦
                let differ : row.id ≢ m.task_id = λ p. cc (q, (eq_iff row.id m.task_id).1 p) in
                (ours, lookup-insert_ne row.id m.task_id row db.tasks differ ∙ there, fam, long')
          ],
        )

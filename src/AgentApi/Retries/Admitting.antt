-- ===== src/AgentApi/Retries/Admitting.antt =====
-- An admission keeps the messages of the tasks that are retained while it runs.
use wotbot.Base.{
  ℕ, ◌+◌, ◌≤◌, ◌<◌, String, ◌≡◌, inl, inr, refl, sym, ap, subst, Option, none, some, [], ◌∷◌, arith,
  Bool-cases, Option-cases,
}
use wotbot.Base.Dict.{lookup}
use wotbot.AgentApi.Types.{
  Family, Operation, family_of, validate_operation, ok, ◌>>=◌, both_ok, ok_inj,
}
use wotbot.AgentApi.Tables.{TaskRow, MessageRow, Db, find_message, delete_task, flush_task}
use wotbot.AgentApi.Tables.Keys.{find_message-append}
use wotbot.AgentApi.Requests.{
  Request, Admission, given, is_retained, submitted_task, submitted_row, agent_thread_kind,
  find_thread, resolve_context, occupied,
}
use wotbot.AgentApi.Admit.{
  Outside, Draft, cleared, task_identity, answer_retry, continue_task, open_task, draft_for, draft,
  message_row, record_draft, admit_new, admit_after, admit_found, admit,
}
use wotbot.AgentApi.Consistent.{IsConsistent, KeepsOwner, delete_task-IsConsistent}
use wotbot.AgentApi.Consistent.Parts.{ClearedFrom, cleared-eq_ok}
use wotbot.AgentApi.Consistent.Admission.{draft-IsDrafted}
use wotbot.AgentApi.Retries.{Kept, delete_task-Kept, not_ours, flush_task-Kept}

module _ (x : Outside) (owner : String) (f : Family) (mid : String) (m : MessageRow) (e : ℕ) where
  abbrev Keeps : Db → Type 0
  Keeps = Kept owner f mid m e

  pub record_draft-Kept :
      (owner' : String) (request : Request) (f' : Family) (now : ℕ) (d : Draft × Db)
      (a : Admission × Db)
      → KeepsOwner d.1.tasks d.0.row
      → e ≤ now + x.retention
      → record_draft x owner' request f' now d ≡ ok a
      → Keeps d.1
      → Keeps a.1
  unfolding record_draft
  record_draft-Kept owner' request f' now (d, db) a keeps long h k =
      let row =
        submitted_row d.row (submitted_task d.task request.message d.row.id now) now x.retention in
      let (db₁, flushed, h₁) = both_ok (flush_task occupied row db) _ h in
      let (found, there) =
        flush_task-Kept owner f mid m e occupied row db db₁ keeps long flushed k in
      let new = message_row x owner' f' request d.row.id ∷ [] in
      subst Keeps (ap (λ (p : Admission × Db). p.1) (ok_inj _ a h₁))
        (find_message-append owner f mid db₁.messages _ m found, there)

  ClearedFrom-Kept :
      (db db' : Db) (k : String) (now : ℕ)
      → now < e
      → ClearedFrom db k now (lookup k db.tasks) db'
      → Keeps db
      → Keeps db'
  ClearedFrom-Kept db db' k now before (inl (n, same)) kept = subst Keeps (sym same) kept
  ClearedFrom-Kept db db' k now before (inr (row, there, gone, same)) kept =
      subst Keeps (sym same) (
        delete_task-Kept owner f mid m e k db
          (not_ours owner f mid m e k db row now before there gone kept) kept)

  resolve_context-Kept :
      (db : Db) (owner' : String) (c : Option String) (f' : Family) (fresh_id : String)
      (r : String × String × Db)
      → resolve_context db owner' c f' fresh_id ≡ ok r
      → Keeps db
      → Keeps r.2
  unfolding resolve_context
  resolve_context-Kept db owner' none f' fresh_id r h kept =
      subst (λ (t : String × String × Db). Keeps t.2) (ok_inj _ r h) kept
  resolve_context-Kept db owner' (some ctx) f' fresh_id r h kept =
      let (id, found, h₁) =
        both_ok (find_thread owner' (agent_thread_kind f') ctx db.threads) _ h in
      subst (λ (t : String × String × Db). Keeps t.2) (ok_inj _ r h₁) kept

  draft_for-Kept :
      (db : Db) (owner' : String) (request : Request) (f' : Family) (o : Operation)
      (fresh_id : String) (now : ℕ) (task_id : Option String) (d : Draft × Db)
      → now < e
      → draft_for x db owner' request f' o fresh_id now task_id ≡ ok d
      → Keeps db
      → Keeps d.1
  unfolding open_task
  draft_for-Kept db owner' request f' o fresh_id now none d before h kept =
      let id = task_identity x owner' request.message.message_id f' in
      let (db₁, made_way, h₁) = both_ok (cleared db id now (lookup id db.tasks)) _ h in
      let kept₁ =
        ClearedFrom-Kept db db₁ id now before
          (cleared-eq_ok db db₁ id now (lookup id db.tasks) made_way) kept in
      let (r, resolved, h₂) =
        both_ok (resolve_context db₁ owner' (given request.message.context_id) f' fresh_id) _ h₁ in
      subst (λ (t : Draft × Db). Keeps t.1) (ok_inj _ d h₂)
        (resolve_context-Kept db₁ owner' (given request.message.context_id) f' fresh_id r resolved
          kept₁)
  draft_for-Kept db owner' request f' o fresh_id now (some id) d before h kept =
      let (c, continued, h₁) = both_ok (continue_task x db owner' request f' id now) _ h in
      subst (λ (t : Draft × Db). Keeps t.1) (ok_inj _ d h₁) kept

  admit_new-Kept :
      (db : Db) (owner' : String) (request : Request) (f' : Family) (o : Operation)
      (fresh_id : String) (now : ℕ) (a : Admission × Db)
      → IsConsistent db
      → lookup fresh_id db.threads ≡ none
      → now < e
      → e ≤ now + x.retention
      → admit_new x db owner' request f' o fresh_id now ≡ ok a
      → Keeps db
      → Keeps a.1
  unfolding admit_new
  admit_new-Kept db owner' request f' o fresh_id now a c new before long h kept =
      let id = given request.message.task_id in
      let (d, drafted, h₁) = both_ok (draft x db owner' request f' o fresh_id now) _ h in
      let good = draft-IsDrafted x db owner' request f' o fresh_id now id d c new drafted in
      record_draft-Kept owner' request f' now d a good.1 long h₁
        (draft_for-Kept db owner' request f' o fresh_id now id d before drafted kept)

  admit_after-Kept :
      (db : Db) (owner' : String) (request : Request) (f' : Family) (o : Operation)
      (fresh_id : String) (now : ℕ) (prior : MessageRow) (row : Option TaskRow) (a : Admission × Db)
      → IsConsistent db
      → lookup fresh_id db.threads ≡ none
      → now < e
      → e ≤ now + x.retention
      → lookup prior.task_id db.tasks ≡ row
      → admit_after x db owner' request f' o fresh_id now prior row ≡ ok a
      → Keeps db
      → Keeps a.1
  unfolding delete_task
  admit_after-Kept db owner' request f' o fresh_id now prior none a c new before long there h kept =
      cc h
  admit_after-Kept db owner' request f' o fresh_id now prior (some row) a c new before long there h
        kept =
      elim (Bool-cases (is_retained now row)) [
        | inl q ↦
            let h₁ : (answer_retry x prior row request f' >>= λ b. ok (b, db)) ≡ ok a =
              ground (arith, h, q) in
            let (b, answered, h₂) = both_ok (answer_retry x prior row request f') _ h₁ in
            subst (λ (t : Admission × Db). Keeps t.1) (ok_inj (b, db) a h₂) kept
        | inr q ↦
            let k = prior.task_id in
            admit_new-Kept (delete_task k db) owner' request f' o fresh_id now a
              (delete_task-IsConsistent k db c) new before long (ground (arith, h, q))
              (delete_task-Kept owner f mid m e k db
                (not_ours owner f mid m e k db row now before there q kept) kept)
      ]

  pub admit-Kept :
      (db : Db) (owner' : String) (request : Request) (fresh_id : String) (now : ℕ)
      (a : Admission × Db)
      → IsConsistent db
      → lookup fresh_id db.threads ≡ none
      → now < e
      → e ≤ now + x.retention
      → admit x db owner' request fresh_id now ≡ ok a
      → Keeps db
      → Keeps a.1
  unfolding admit
  admit-Kept db owner' request fresh_id now a c new before long h kept =
      let (o, valid, h₁) = both_ok (validate_operation request.operation) _ h in
      let f' = family_of o in
      let found =
        λ (p : Option MessageRow). admit_found x db owner' request f' o fresh_id now p ≡ ok a in
      elim (Option-cases (find_message owner' f' request.message.message_id db.messages)) [
        | inl n ↦
            admit_new-Kept db owner' request f' o fresh_id now a c new before long
              (subst found n h₁) kept
        | inr (p, q) ↦
            admit_after-Kept db owner' request f' o fresh_id now p (lookup p.task_id db.tasks) a c
              new before long refl (subst found q h₁) kept
      ]

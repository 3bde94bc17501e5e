-- ===== src/AgentApi/Consistent/Admission.antt =====
-- `admit` keeps the tables of the agent tasks consistent.
use wotbot.Base.{
  ℕ, String, ◌≡◌, inl, inr, refl, sym, ap, ◌∙◌, subst, Option, none, some, arith, Bool-cases,
  Option-cases,
}
use wotbot.Base.Dict.{Dict, lookup, lookup-insert_self}
use wotbot.Json.{Json}
use wotbot.AgentApi.Types.{
  Family, Operation, family_of, validate_operation, ok, ◌>>=◌, both_ok, ok_inj,
}
use wotbot.AgentApi.Interrupts.{validate_reply}
use wotbot.AgentApi.Tables.{TaskRow, MessageRow, Db, find_message, delete_task, flush_task}
use wotbot.AgentApi.Requests.{
  Request, Admission, resolve_context, given, is_retained, owned, owned-eq_ok, check_family,
  submitted_task, submitted_row, occupied,
}
use wotbot.AgentApi.Admit.{
  Outside, Draft, check_pause, pending_of, resumed, opened, cleared, new_task, new_row,
  task_identity, continue_task, open_task, draft_for, draft, message_row, record_draft,
  answer_retry, admit_new, admit_after, admit_found, admit,
}
use wotbot.AgentApi.Consistent.{
  IsConsistent, flush_task-eq_ok, flush_task-IsConsistent, delete_task-IsConsistent,
}
use wotbot.AgentApi.Consistent.Parts.{
  check_family-eq_ok, none-ne-some, NewMessage, IsDrafted, KeepsOwner-found,
  resolve_context-Resolved, cleared-eq_ok, ClearedFrom-IsConsistent, ClearedFrom-NewMessage,
  delete_task-NewMessage, add_message-IsConsistent,
}

module _ (x : Outside) where
  -- A task that is continued is the owner's, of the family and paused, and every request of it is
  -- answered.
  pub continue_task-eq_ok :
      (db : Db) (owner : String) (request : Request) (f : Family) (task_id : String) (now : ℕ)
      (d : Draft)
      → continue_task x db owner request f task_id now ≡ ok d
      → (row : TaskRow) × (resume : Dict Json) × (owned db owner task_id now ≡ ok row)
        × (row.family ≡ f)
        × (validate_reply x.matches (pending_of row) request.message.parts ≡ ok resume)
        × (d ≡ resumed row resume)
  unfolding continue_task
  continue_task-eq_ok db owner request f task_id now d h =
      let (row, got, h₁) = both_ok (owned db owner task_id now) _ h in
      let (u, same_family, h₂) = both_ok (check_family row f) _ h₁ in
      let (u', paused, h₃) = both_ok (check_pause (given request.message.context_id) row) _ h₂ in
      let (resume, replied, h₄) =
        both_ok (validate_reply x.matches (pending_of row) request.message.parts) _ h₃ in
      (row, resume, got, check_family-eq_ok row f same_family, replied, cc h₄)

  continue_task-IsDrafted :
      (db : Db) (owner : String) (request : Request) (f : Family) (task_id : String) (now : ℕ)
      (d : Draft)
      → IsConsistent db
      → continue_task x db owner request f task_id now ≡ ok d
      → IsDrafted owner f (d, db)
  continue_task-IsDrafted db owner request f task_id now d c h =
      let (row, resume, got, same_family, replied, e) =
        continue_task-eq_ok db owner request f task_id now d h in
      let (found, own) = owned-eq_ok db owner task_id now row got in
      let id = c.task_id task_id row found in
      subst (λ (d : Draft). IsDrafted owner f (d, db)) (sym e)
        (
          c,
          KeepsOwner-found db row task_id id found,
          c.home task_id row found,
          own,
          same_family,
          c.payload_id task_id row found ∙ sym id,
        )

  open_task-IsDrafted :
      (db : Db) (owner : String) (request : Request) (f : Family) (o : Operation)
      (fresh_id : String) (now : ℕ) (d : Draft × Db)
      → IsConsistent db
      → lookup fresh_id db.threads ≡ none
      → open_task x db owner request f o fresh_id now ≡ ok d
      → IsDrafted owner f d
  unfolding open_task
  open_task-IsDrafted db owner request f o fresh_id now d c new h =
      let id = task_identity x owner request.message.message_id f in
      let (db₁, made_way, h₁) = both_ok (cleared db id now (lookup id db.tasks)) _ h in
      let (c₁, free, threads) =
        ClearedFrom-IsConsistent db db₁ id now c
          (cleared-eq_ok db db₁ id now (lookup id db.tasks) made_way) in
      let new₁ : lookup fresh_id db₁.threads ≡ none = ap (lookup fresh_id) threads ∙ new in
      let (r, resolved, h₂) =
        both_ok (resolve_context db₁ owner (given request.message.context_id) f fresh_id) _ h₁ in
      let (c₂, tasks, messages, there) =
        resolve_context-Resolved db₁ owner (given request.message.context_id) f fresh_id r c₁ new₁
          resolved in
      let row = new_row id r.0 owner f o request.origin (new_task id r.1) in
      let same : (opened row, r.2) ≡ d = cc h₂ in
      subst (IsDrafted owner f) same (
        c₂,
        λ old t. absurd (none-ne-some (ap (lookup id) tasks ∙ free) t),
        there,
        refl,
        refl,
        refl,
      )

  record_draft-IsConsistent :
      (owner : String) (request : Request) (f : Family) (now : ℕ) (d : Draft × Db)
      (a : Admission × Db)
      → IsDrafted owner f d
      → NewMessage owner f request d.1
      → record_draft x owner request f now d ≡ ok a
      → IsConsistent a.1
  unfolding record_draft
  record_draft-IsConsistent owner request f now (d, db) a (c, keeps, home, own, fam, named) unseen
        h =
      let task = submitted_task d.task request.message d.row.id now in
      let row = submitted_row d.row task now x.retention in
      let (db₁, flushed, h₁) = both_ok (flush_task occupied row db) _ h in
      let c₁ = flush_task-IsConsistent db occupied row c keeps home named flushed in
      let saved = (flush_task-eq_ok db occupied row flushed).0 in
      let m = message_row x owner f request d.row.id in
      let there : lookup m.task_id db₁.tasks ≡ some row =
        ap (λ (e : Db). lookup d.row.id e.tasks) saved ∙ lookup-insert_self d.row.id row db.tasks in
      subst IsConsistent (ap (λ (p : Admission × Db). p.1) (ok_inj _ a h₁)) (
        add_message-IsConsistent db₁ m c₁ (row, there, own, fam)
          (ap (λ (e : Db). find_message owner f request.message.message_id e.messages) saved
            ∙ unseen))

  pub draft-IsDrafted :
      (db : Db) (owner : String) (request : Request) (f : Family) (o : Operation)
      (fresh_id : String) (now : ℕ) (task_id : Option String) (d : Draft × Db)
      → IsConsistent db
      → lookup fresh_id db.threads ≡ none
      → draft_for x db owner request f o fresh_id now task_id ≡ ok d
      → IsDrafted owner f d
  draft-IsDrafted db owner request f o fresh_id now none d c new h =
      open_task-IsDrafted db owner request f o fresh_id now d c new h
  draft-IsDrafted db owner request f o fresh_id now (some id) d c new h =
      let (e, continued, h₁) = both_ok (continue_task x db owner request f id now) _ h in
      subst (IsDrafted owner f) (ok_inj (e, db) d h₁)
        (continue_task-IsDrafted db owner request f id now e c continued)

  -- A message that is new stays so while its task is drafted.
  pub draft_for-NewMessage :
      (db : Db) (owner : String) (request : Request) (f : Family) (o : Operation)
      (fresh_id : String) (now : ℕ) (task_id : Option String) (d : Draft × Db)
      → IsConsistent db
      → lookup fresh_id db.threads ≡ none
      → draft_for x db owner request f o fresh_id now task_id ≡ ok d
      → NewMessage owner f request db
      → NewMessage owner f request d.1
  unfolding open_task
  draft_for-NewMessage db owner request f o fresh_id now none d c new h unseen =
      let mid = request.message.message_id in
      let id = task_identity x owner mid f in
      let (db₁, made_way, h₁) = both_ok (cleared db id now (lookup id db.tasks)) _ h in
      let way = cleared-eq_ok db db₁ id now (lookup id db.tasks) made_way in
      let (c₁, free, threads) = ClearedFrom-IsConsistent db db₁ id now c way in
      let (r, resolved, h₂) =
        both_ok (resolve_context db₁ owner (given request.message.context_id) f fresh_id) _ h₁ in
      let (c₂, tasks, messages, there) =
        resolve_context-Resolved db₁ owner (given request.message.context_id) f fresh_id r c₁
          (ap (lookup fresh_id) threads ∙ new) resolved in
      subst (λ (t : Draft × Db). NewMessage owner f request t.1) (ok_inj _ d h₂)
        (ap (find_message owner f mid) messages
          ∙ ClearedFrom-NewMessage db db₁ owner f mid id now way unseen)
  draft_for-NewMessage db owner request f o fresh_id now (some id) d c new h unseen =
      let (e, continued, h₁) = both_ok (continue_task x db owner request f id now) _ h in
      subst (λ (t : Draft × Db). NewMessage owner f request t.1) (ok_inj (e, db) d h₁) unseen

  admit_new-IsConsistent :
      (db : Db) (owner : String) (request : Request) (f : Family) (o : Operation)
      (fresh_id : String) (now : ℕ) (a : Admission × Db)
      → IsConsistent db
      → lookup fresh_id db.threads ≡ none
      → NewMessage owner f request db
      → admit_new x db owner request f o fresh_id now ≡ ok a
      → IsConsistent a.1
  unfolding admit_new
  admit_new-IsConsistent db owner request f o fresh_id now a c new unseen h =
      let (d, drafted, h₁) = both_ok (draft x db owner request f o fresh_id now) _ h in
      record_draft-IsConsistent owner request f now d a
        (draft-IsDrafted db owner request f o fresh_id now (given request.message.task_id) d c new
          drafted)
        (draft_for-NewMessage db owner request f o fresh_id now (given request.message.task_id) d c
          new drafted unseen)
        h₁

  admit_after-IsConsistent :
      (db : Db) (owner : String) (request : Request) (f : Family) (o : Operation)
      (fresh_id : String) (now : ℕ) (prior : MessageRow) (row : Option TaskRow) (a : Admission × Db)
      → IsConsistent db
      → lookup fresh_id db.threads ≡ none
      → find_message owner f request.message.message_id db.messages ≡ some prior
      → admit_after x db owner request f o fresh_id now prior row ≡ ok a
      → IsConsistent a.1
  unfolding delete_task
  admit_after-IsConsistent db owner request f o fresh_id now prior none a c new found h = cc h
  admit_after-IsConsistent db owner request f o fresh_id now prior (some row) a c new found h =
      elim (Bool-cases (is_retained now row)) [
        | inl q ↦
            let h₁ : (answer_retry x prior row request f >>= λ b. ok (b, db)) ≡ ok a =
              ground (arith, h, q) in
            let (b, answered, h₂) = both_ok (answer_retry x prior row request f) _ h₁ in
            subst (λ (e : Admission × Db). IsConsistent e.1) (let e : (b, db) ≡ a = cc h₂ in e) c
        | inr q ↦
            admit_new-IsConsistent (delete_task prior.task_id db) owner request f o fresh_id now a
              (delete_task-IsConsistent prior.task_id db c) new
              (delete_task-NewMessage db owner f request.message.message_id prior c found)
              (ground (arith, h, q))
      ]

  pub admit-IsConsistent :
      (db : Db) (owner : String) (request : Request) (fresh_id : String) (now : ℕ)
      (a : Admission × Db)
      → IsConsistent db
      → lookup fresh_id db.threads ≡ none
      → admit x db owner request fresh_id now ≡ ok a
      → IsConsistent a.1
  unfolding admit
  admit-IsConsistent db owner request fresh_id now a c new h =
      let (o, valid, h₁) = both_ok (validate_operation request.operation) _ h in
      elim (Option-cases
        (find_message owner (family_of o) request.message.message_id db.messages)) [
          | inl n ↦ admit_new-IsConsistent db owner request (family_of o) o fresh_id now a c new n (
              subst (λ m. admit_found x db owner request (family_of o) o fresh_id now m ≡ ok a) n
                h₁)
          | inr (m, e) ↦
              admit_after-IsConsistent db owner request (family_of o) o fresh_id now m
                (lookup m.task_id db.tasks) a c new e
                (subst (λ m. admit_found x db owner request (family_of o) o fresh_id now m ≡ ok a) e
                  h₁)
        ]

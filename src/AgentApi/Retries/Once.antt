-- ===== src/AgentApi/Retries/Once.antt =====
-- A message is executed once within the retention of its task.
use wotbot.Base.{
  ℕ, ◌+◌, ◌<◌, String, ◌≡◌, inl, inr, refl, sym, ap, ◌∙◌, subst, true, false, Option, none, some,
  arith, Bool-cases, Option-cases, eq_iff,
}
use wotbot.Base.Dict.{lookup, lookup-insert_self}
use wotbot.AgentApi.Types.{
  Family, Operation, family_of, validate_operation, Result, ok, ◌>>=◌, both_ok, ok_inj,
}
use wotbot.AgentApi.Tables.{TaskRow, MessageRow, Db, find_message, delete_task, flush_task}
use wotbot.AgentApi.Tables.Keys.{has_key_of_self, family_eq_self, find_message-append_new}
use wotbot.AgentApi.Requests.{
  Request, Admission, given, is_retained, submitted_task, submitted_row, retried, occupied,
}
use wotbot.AgentApi.Admit.{
  Outside, Draft, request_fingerprint, answer_retry, draft, message_row, record_draft, admit_new,
  admit_after, admit_found, admit,
}
use wotbot.AgentApi.Consistent.{IsConsistent, flush_task-eq_ok, delete_task-IsConsistent}
use wotbot.AgentApi.Consistent.Parts.{IsDrafted, NewMessage, delete_task-NewMessage}
use wotbot.AgentApi.Consistent.Admission.{admit-IsConsistent, draft_for-NewMessage, draft-IsDrafted}
use wotbot.AgentApi.Lifecycle.{Steps, Steps-IsConsistent}
use wotbot.AgentApi.Retries.{Kept}
use wotbot.AgentApi.Retries.Keeping.{Steps-Kept}

module _ (x : Outside) (owner : String) (request : Request) where
  -- The message that an admission has recorded, with the task that the admission names.
  abbrev Recorded : Family → ℕ → Admission × Db → Type 0
  Recorded f now a =
      (m : MessageRow) × (m.request_hash ≡ request_fingerprint x false request)
      × (m.task_id ≡ a.0.task.id)
      × Kept owner f request.message.message_id m (now + x.retention) a.1

  record_draft-Recorded :
      (f : Family) (now : ℕ) (d : Draft × Db) (a : Admission × Db)
      → IsDrafted owner f d
      → NewMessage owner f request d.1
      → record_draft x owner request f now d ≡ ok a
      → Recorded f now a
  unfolding record_draft
  record_draft-Recorded f now (d, db) a (c, keeps, home, own, fam, named) unseen h =
      let row =
        submitted_row d.row (submitted_task d.task request.message d.row.id now) now x.retention in
      let (db₁, flushed, h₁) = both_ok (flush_task occupied row db) _ h in
      let saved = (flush_task-eq_ok db occupied row flushed).0 in
      let m = message_row x owner f request d.row.id in
      let mid = request.message.message_id in
      let unseen₁ = ap (λ (e : Db). find_message owner f mid e.messages) saved ∙ unseen in
      subst (Recorded f now) (ok_inj _ a h₁) (
        m,
        refl,
        sym named,
        (
          find_message-append_new owner f mid db₁.messages m unseen₁ (has_key_of_self m),
          (
            row,
            ap (λ (e : Db). lookup d.row.id e.tasks) saved
                ∙ lookup-insert_self d.row.id row db.tasks,
            fam,
            omega arith,
          ),
        ),
      )

  admit_new-Recorded :
      (db : Db) (f : Family) (o : Operation) (fresh_id : String) (now : ℕ) (a : Admission × Db)
      → IsConsistent db
      → lookup fresh_id db.threads ≡ none
      → NewMessage owner f request db
      → admit_new x db owner request f o fresh_id now ≡ ok a
      → Recorded f now a
  unfolding admit_new
  admit_new-Recorded db f o fresh_id now a c new unseen h =
      let id = given request.message.task_id in
      let (d, drafted, h₁) = both_ok (draft x db owner request f o fresh_id now) _ h in
      record_draft-Recorded f now d a
        (draft-IsDrafted x db owner request f o fresh_id now id d c new drafted)
        (draft_for-NewMessage x db owner request f o fresh_id now id d c new drafted unseen) h₁

  answer_retry-idle :
      (prior : MessageRow) (row : TaskRow) (f : Family) (b : Admission)
      → answer_retry x prior row request f ≡ ok b
      → b.execute ≡ false
  unfolding answer_retry
  answer_retry-idle prior row f b h = ground arith

  admit_after-Recorded :
      (db : Db) (f : Family) (o : Operation) (fresh_id : String) (now : ℕ) (prior : MessageRow)
      (row : Option TaskRow) (a : Admission × Db)
      → IsConsistent db
      → lookup fresh_id db.threads ≡ none
      → find_message owner f request.message.message_id db.messages ≡ some prior
      → a.0.execute ≡ true
      → admit_after x db owner request f o fresh_id now prior row ≡ ok a
      → Recorded f now a
  unfolding delete_task
  admit_after-Recorded db f o fresh_id now prior none a c new found runs h = cc h
  admit_after-Recorded db f o fresh_id now prior (some row) a c new found runs h =
      elim (Bool-cases (is_retained now row)) [
        | inl q ↦
            let h₁ : (answer_retry x prior row request f >>= λ b. ok (b, db)) ≡ ok a =
              ground (arith, h, q) in
            let (b, answered, h₂) = both_ok (answer_retry x prior row request f) _ h₁ in
            let idle = answer_retry-idle prior row f b answered in
            let same = ap (λ (p : Admission × Db). p.0.execute) (ok_inj (b, db) a h₂) in
            absurd (ground (arith, idle, same, runs))
        | inr q ↦
            admit_new-Recorded (delete_task prior.task_id db) f o fresh_id now a
              (delete_task-IsConsistent prior.task_id db c) new
              (delete_task-NewMessage db owner f request.message.message_id prior c found)
              (ground (arith, h, q))
      ]

  -- An admission that executes has recorded its message.
  admit-Recorded :
      (db : Db) (fresh_id : String) (now : ℕ) (a : Admission × Db)
      → IsConsistent db
      → lookup fresh_id db.threads ≡ none
      → a.0.execute ≡ true
      → admit x db owner request fresh_id now ≡ ok a
      → (o : Operation) × (validate_operation request.operation ≡ ok o)
        × Recorded (family_of o) now a
  unfolding admit
  admit-Recorded db fresh_id now a c new runs h =
      let (o, valid, h₁) = both_ok (validate_operation request.operation) _ h in
      let f = family_of o in
      let found =
        λ (p : Option MessageRow). admit_found x db owner request f o fresh_id now p ≡ ok a in
      (
        o,
        valid,
        elim (Option-cases (find_message owner f request.message.message_id db.messages)) [
          | inl n ↦ admit_new-Recorded db f o fresh_id now a c new n (subst found n h₁)
          | inr (p, q) ↦
              admit_after-Recorded db f o fresh_id now p (lookup p.task_id db.tasks) a c new q runs
                (subst found q h₁)
        ],
      )

  answer_retry-retried :
      (m : MessageRow) (row : TaskRow) (f : Family)
      → m.request_hash ≡ request_fingerprint x false request
      → row.family ≡ f
      → answer_retry x m row request f ≡ ok (retried row)
  unfolding answer_retry
  answer_retry-retried m row f same fam = rw fam (
      rw (family_eq_self f)
        (ground (arith, eq_iff m.request_hash (request_fingerprint x false request))))

  -- While a message is kept, the same request is answered by its task.
  admit-retried :
      (db : Db) (fresh_id : String) (now : ℕ) (o : Operation) (m : MessageRow) (row : TaskRow)
      → validate_operation request.operation ≡ ok o
      → m.request_hash ≡ request_fingerprint x false request
      → find_message owner (family_of o) request.message.message_id db.messages ≡ some m
      → lookup m.task_id db.tasks ≡ some row
      → row.family ≡ family_of o
      → now < row.expires_at
      → admit x db owner request fresh_id now ≡ ok (retried row, db)
  unfolding admit
  admit-retried db fresh_id now o m row valid same found there fam before =
      let kept : is_retained now row ≡ true = ground arith in
      let answered = answer_retry-retried m row (family_of o) same fam in
      let f = family_of o in
      let mid = request.message.message_id in
      ap
        (λ (r : Result Operation). r >>= λ p.
          admit_found x db owner request (family_of p) p fresh_id now
            (find_message owner (family_of p) mid db.messages))
        valid
      ∙ ap (admit_found x db owner request f o fresh_id now) found
      ∙ ap (admit_after x db owner request f o fresh_id now m) there
      ∙ rw kept (rw answered refl)

  -- A message that was admitted to execute is not executed again within its retention: whatever
  -- transactions run until then, the same request is answered by the same task, which is not
  -- executed, and changes no table.
  pub admit-once :
      (db db' : Db) (a : Admission × Db) (fresh_id fresh_id' : String) (now now' : ℕ)
      → IsConsistent db
      → lookup fresh_id db.threads ≡ none
      → admit x db owner request fresh_id now ≡ ok a
      → a.0.execute ≡ true
      → Steps x now now' a.1 db'
      → now' < now + x.retention
      → (a' : Admission) × (admit x db' owner request fresh_id' now' ≡ ok (a', db'))
        × (a'.execute ≡ false)
        × (a'.task.id ≡ a.0.task.id)
  admit-once db db' a fresh_id fresh_id' now now' c new h runs steps before =
      let (o, valid, (m, same, id, kept)) = admit-Recorded db fresh_id now a c new runs h in
      let c₁ = admit-IsConsistent x db owner request fresh_id now a c new h in
      let (found, (row, there, fam, long)) =
        Steps-Kept x owner (family_of o) request.message.message_id m (now + x.retention) c₁ before
          (omega arith) steps kept in
      let named = (Steps-IsConsistent c₁ steps).payload_id m.task_id row there in
      (
        retried row,
        admit-retried db' fresh_id' now' o m row valid same found there fam (omega arith),
        refl,
        named ∙ id,
      )

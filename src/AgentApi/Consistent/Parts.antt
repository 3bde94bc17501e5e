-- ===== src/AgentApi/Consistent/Parts.antt =====
-- What `admit` does on its way: the thread of a context, a place that is cleared, a message that is
-- recorded.
use wotbot.Base.{
  ℕ, String, ◌≡◌, ◌≢◌, ◌⊎◌, inl, inr, refl, sym, ap, ◌∙◌, subst, true, false, Option, none, some,
  [], ◌∷◌, ◌++◌, All-append, arith, Bool-cases, ==_self, eq_iff, ◌==◌, opt_eq,
}
use wotbot.Base.Dict.{
  Dict, IsDict, lookup, insert, lookup-insert_self, lookup-insert_ne, lookup-erase, insert-IsDict,
}
use wotbot.Jobs.Records.{ThreadKind}
use wotbot.AgentApi.Types.{Family, ok, both_ok}
use wotbot.AgentApi.Tables.{
  TaskRow, MessageRow, ThreadRow, Db, family_eq, find_message, delete_task,
}
use wotbot.AgentApi.Tables.Keys.{
  family_eq_sound, IsNew, append-IsKeyed, find_message-keep_if-none, find_message-gone,
}
use wotbot.AgentApi.Requests.{
  Request, agent_thread_kind, kind_eq, is_context, find_thread, new_thread, resolve_context,
  is_retained, check_family,
}
use wotbot.AgentApi.Admit.{Draft, cleared}
use wotbot.AgentApi.Consistent.{Home, Source, KeepsOwner, IsConsistent, delete_task-IsConsistent}

pub kind_eq_sound :
    (k : ThreadKind) (f : Family) → kind_eq k (agent_thread_kind f) ≡ true → k ≡ agent_thread_kind f
kind_eq_sound ThreadKind.chat Family.assistant h = cc
kind_eq_sound ThreadKind.chat Family.raw h = cc
kind_eq_sound ThreadKind.job Family.assistant h = cc
kind_eq_sound ThreadKind.job Family.raw h = cc
kind_eq_sound ThreadKind.a2a Family.assistant h = refl
kind_eq_sound ThreadKind.a2a Family.raw h = cc
kind_eq_sound ThreadKind.mcp_raw Family.assistant h = cc
kind_eq_sound ThreadKind.mcp_raw Family.raw h = refl

pub check_family-eq_ok :
    (row : TaskRow) (f : Family) {u : Unit {0}} → check_family row f ≡ ok u → row.family ≡ f
check_family-eq_ok row f h = elim (Bool-cases (family_eq row.family f)) [
  | inl q ↦ family_eq_sound row.family f q
  | inr q ↦ absurd (ground (arith, h, q))
]

pub opt_eq_sound : (o : Option String) (t : String) → opt_eq o t ≡ true → o ≡ some t
opt_eq_sound none t h = cc
opt_eq_sound (some s) t h = ap some ((eq_iff s t).0 h)

pub none-ne-some {ℓ} : {A : Type ℓ} {o : Option A} {a : A} → o ≡ none → o ≡ some a → ⊥
none-ne-some p q = cc (p, q)

pub skip_head :
    {V : Type 0} (k j : String) (v w : V) (d : Dict V)
    → lookup k d ≡ none
    → lookup j d ≡ some w
    → lookup j ((k, v) ∷ d) ≡ some w
unfolding lookup
skip_head k j v w d new found = elim (Bool-cases (k == j)) [
  | inl q ↦
      let gone = subst (λ z. lookup z d ≡ none) ((eq_iff k j).0 q) new in
      let no : ⊥ = cc (gone, found) in absurd no
  | inr q ↦ rw q found
]

-- The thread that a context resolves to.
pub find_thread-eq_ok :
    (owner : String) (f : Family) (c : String) (threads : Dict ThreadRow) (id : String)
    → IsDict threads
    → find_thread owner (agent_thread_kind f) c threads ≡ ok id
    → (t : ThreadRow) × (lookup id threads ≡ some t)
      × (t.owner_api_key_id ≡ some owner)
      × (t.kind ≡ agent_thread_kind f)
unfolding find_thread lookup
find_thread-eq_ok owner f c [] id d h = cc
find_thread-eq_ok owner f c ((k, t) ∷ threads) id d h =
    elim (Bool-cases (is_context owner (agent_thread_kind f) c (k, t))) [
      | inl q ↦
          let same : k ≡ id = ground (arith, h, q) in
          (
            t,
            rw same (rw (==_self id) refl),
            opt_eq_sound t.owner_api_key_id owner (ground (arith, q)),
            kind_eq_sound t.kind f (ground (arith, q)),
          )
      | inr q ↦
          let (t', found, o, kind) =
            find_thread-eq_ok owner f c threads id d.1 (ground (arith, h, q)) in
          (t', skip_head k id t t' threads d.0 found, o, kind)
    ]

-- The message of a request is not recorded yet.
abbrev pub NewMessage : String → Family → Request → Db → Type 0
NewMessage owner f request db = find_message owner f request.message.message_id db.messages ≡ none

-- What a draft promises to the end of `admit`.
abbrev pub IsDrafted : String → Family → Draft × Db → Type 0
IsDrafted owner f (d, db) =
    IsConsistent db
    × KeepsOwner db.tasks d.row
    × Home db.threads d.row
    × (d.row.owner ≡ owner)
    × (d.row.family ≡ f)
    × (d.task.id ≡ d.row.id)

pub KeepsOwner-found :
    (db : Db) (row : TaskRow) (k : String)
    → row.id ≡ k
    → lookup k db.tasks ≡ some row
    → KeepsOwner db.tasks row
KeepsOwner-found db row k id found old there =
    let there' = subst (λ i. lookup i db.tasks ≡ some old) id there in
    let same : row ≡ old = ground (arith, found, there') in
    (ap (λ (t : TaskRow). t.owner) same, ap (λ (t : TaskRow). t.family) same)

-- A thread under a new id leaves every task in its thread.
pub Home-new_thread :
    (threads : Dict ThreadRow) (id : String) (t : ThreadRow) (r : TaskRow)
    → lookup id threads ≡ none
    → Home threads r
    → Home (insert id t threads) r
Home-new_thread threads id t r new (t', found, o, kind) =
    let differ : id ≢ r.context_id =
      λ p. let gone = subst (λ z. lookup z threads ≡ none) p new in cc (gone, found) in
    (t', lookup-insert_ne id r.context_id t threads differ ∙ found, o, kind)

pub new_thread-IsConsistent :
    (db : Db) (id : String) (t : ThreadRow)
    → lookup id db.threads ≡ none
    → IsConsistent db
    → IsConsistent (record db { threads = insert id t db.threads })
new_thread-IsConsistent db id t new c = record {
  table = c.table;
  thread_table = insert-IsDict id t db.threads c.thread_table;
  task_id = c.task_id;
  payload_id = c.payload_id;
  home = λ k r there. Home-new_thread db.threads id t r new (c.home k r there);
  keyed = c.keyed;
  source = c.source;
  single = c.single;
}

-- The context of a new task: consistent tables with the same tasks and messages, and the thread.
abbrev pub Resolved : Db → String → Family → String × String × Db → Type 0
Resolved db owner f (thread_id, context_id, db') =
    IsConsistent db'
    × (db'.tasks ≡ db.tasks)
    × (db'.messages ≡ db.messages)
    × ((t : ThreadRow) × (lookup thread_id db'.threads ≡ some t)
        × (t.owner_api_key_id ≡ some owner)
        × (t.kind ≡ agent_thread_kind f))

pub resolve_context-Resolved :
    (db : Db) (owner : String) (c : Option String) (f : Family) (fresh_id : String)
    (r : String × String × Db)
    → IsConsistent db
    → lookup fresh_id db.threads ≡ none
    → resolve_context db owner c f fresh_id ≡ ok r
    → Resolved db owner f r
unfolding resolve_context
resolve_context-Resolved db owner none f fresh_id r c new h =
    let t = new_thread owner f in
    let db' = record db { threads = insert fresh_id t db.threads } in
    let same : (fresh_id, fresh_id, db') ≡ r = cc h in
    subst (Resolved db owner f) same (
      new_thread-IsConsistent db fresh_id t new c,
      refl,
      refl,
      (t, lookup-insert_self fresh_id t db.threads, refl, refl),
    )
resolve_context-Resolved db owner (some ctx) f fresh_id r c new h =
    let (id, found, h₁) = both_ok (find_thread owner (agent_thread_kind f) ctx db.threads) _ h in
    let same : (id, ctx, db) ≡ r = cc h₁ in
    subst (Resolved db owner f) same
      (c, refl, refl, find_thread-eq_ok owner f ctx db.threads id c.thread_table found)

-- The place of a new task is free, or that of a task that is no longer retained and deleted.
abbrev pub ClearedFrom : Db → String → ℕ → Option TaskRow → Db → Type 0
ClearedFrom db task_id now o db' =
    ((o ≡ none) × (db' ≡ db))
    ⊎ ((row : TaskRow) × (o ≡ some row)
        × (is_retained now row ≡ false)
        × (db' ≡ delete_task task_id db))

pub cleared-eq_ok :
    (db db' : Db) (task_id : String) (now : ℕ) (o : Option TaskRow)
    → cleared db task_id now o ≡ ok db'
    → ClearedFrom db task_id now o db'
cleared-eq_ok db db' task_id now none h = inl (refl, cc h)
cleared-eq_ok db db' task_id now (some row) h = elim (Bool-cases (is_retained now row)) [
  | inl q ↦ absurd (ground (arith, h, q))
  | inr q ↦ inr (row, refl, q, ground (arith, h, q))
]

pub lookup-delete_task : (db : Db) (id : String) → lookup id (delete_task id db).tasks ≡ none
unfolding delete_task
lookup-delete_task db id = lookup-erase id id db.tasks ∙ rw (==_self id) refl

-- Then no task has the id.
pub ClearedFrom-IsConsistent :
    (db db' : Db) (task_id : String) (now : ℕ)
    → IsConsistent db
    → ClearedFrom db task_id now (lookup task_id db.tasks) db'
    → IsConsistent db' × (lookup task_id db'.tasks ≡ none) × (db'.threads ≡ db.threads)
unfolding delete_task
ClearedFrom-IsConsistent db db' task_id now c (inl (n, e)) = (
  subst IsConsistent (sym e) c,
  ap (λ (d : Db). lookup task_id d.tasks) e ∙ n,
  ap (λ (d : Db). d.threads) e,
)
ClearedFrom-IsConsistent db db' task_id now c (inr (row, f, q, e)) = (
  subst IsConsistent (sym e) (delete_task-IsConsistent task_id db c),
  ap (λ (d : Db). lookup task_id d.tasks) e ∙ lookup-delete_task db task_id,
  ap (λ (d : Db). d.threads) e,
)

pub ClearedFrom-NewMessage :
    (db db' : Db) (owner : String) (f : Family) (mid task_id : String) (now : ℕ)
    → ClearedFrom db task_id now (lookup task_id db.tasks) db'
    → find_message owner f mid db.messages ≡ none
    → find_message owner f mid db'.messages ≡ none
unfolding delete_task
ClearedFrom-NewMessage db db' owner f mid task_id now (inl (n, e)) unseen =
    ap (λ (d : Db). find_message owner f mid d.messages) e ∙ unseen
ClearedFrom-NewMessage db db' owner f mid task_id now (inr (row, there, gone, e)) unseen =
    ap (λ (d : Db). find_message owner f mid d.messages) e
    ∙ find_message-keep_if-none owner f mid _ db.messages unseen

-- With the task of a message the message goes.
pub delete_task-NewMessage :
    (db : Db) (owner : String) (f : Family) (mid : String) (prior : MessageRow)
    → IsConsistent db
    → find_message owner f mid db.messages ≡ some prior
    → find_message owner f mid (delete_task prior.task_id db).messages ≡ none
unfolding delete_task
delete_task-NewMessage db owner f mid prior c found =
    find_message-gone owner f mid _ db.messages prior c.keyed found
      (rw (==_self prior.task_id) refl)

pub add_message-IsConsistent :
    (db : Db) (m : MessageRow)
    → IsConsistent db
    → Source db.tasks m
    → IsNew m db.messages
    → IsConsistent (record db { messages = db.messages ++ m ∷ [] })
add_message-IsConsistent db m c s new = record {
  table = c.table;
  thread_table = c.thread_table;
  task_id = c.task_id;
  payload_id = c.payload_id;
  home = c.home;
  keyed = append-IsKeyed db.messages m c.keyed new;
  source = All-append (Source db.tasks) db.messages (m ∷ []) c.source (s, tt);
  single = c.single;
}

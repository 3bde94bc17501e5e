-- ===== src/AgentApi/Consistent.antt =====
-- When the tables of the agent tasks are consistent, and that the writes of the store keep them so.
pub mod Sweeps
pub mod Parts
pub mod Admission
use wotbot.Base.{
  ℕ, String, ◌≡◌, ◌≢◌, ◌⊎◌, inl, inr, refl, sym, ap, ◌∙◌, subst, subst₂, Bool, true, false, not,
  ◌&&◌, ◌||◌, Option, none, some, List, [], ◌∷◌, ◌++◌, map, any, keep_if, All, All-append, All-map,
  All-keep_if, arith, Bool-cases, Option-cases, ==_self, eq_iff, ◌==◌, if◌then◌else◌,
}
use wotbot.Base.Dict.{
  Dict, IsDict, lookup, insert, erase, has_key, keep_entries, lookup-insert_self, lookup-insert_ne,
  lookup-insert_cases, lookup-erase, lookup-keep_entries, insert-IsDict, erase-IsDict,
  keep_entries-IsDict,
}
use wotbot.AgentApi.Types.{Error, is_reserved, is_active, Result, ok, err}
use wotbot.AgentApi.Tables.{
  TaskRow, MessageRow, ThreadRow, Db, reserves, is_taken, delete_task, save_task, flush_task,
}
use wotbot.AgentApi.Tables.Keys.{IsKeyed, keep_if-IsKeyed}
use wotbot.AgentApi.Requests.{agent_thread_kind}

-- The thread of a task belongs to its owner and is of its kind.
abbrev pub Home : Dict ThreadRow → TaskRow → Type 0
Home threads r =
    (t : ThreadRow) × (lookup r.context_id threads ≡ some t)
    × (t.owner_api_key_id ≡ some r.owner)
    × (t.kind ≡ agent_thread_kind r.family)

-- The task of a message is there, and of the same owner and family.
abbrev pub Source : Dict TaskRow → MessageRow → Type 0
Source tasks m =
    (r : TaskRow) × (lookup m.task_id tasks ≡ some r) × (r.owner ≡ m.owner) × (r.family ≡ m.family)

pub record IsConsistent (db : Db) : Type 0 where
  pub table : IsDict db.tasks
  pub thread_table : IsDict db.threads
  pub task_id : (k : String) (r : TaskRow) → lookup k db.tasks ≡ some r → r.id ≡ k
  pub payload_id : (k : String) (r : TaskRow) → lookup k db.tasks ≡ some r → r.payload.id ≡ k
  pub home : (k : String) (r : TaskRow) → lookup k db.tasks ≡ some r → Home db.threads r
  pub keyed : IsKeyed db.messages
  pub source : All (Source db.tasks) db.messages
  -- At most one task of a context is executing or paused.
  pub single :
      (j k : String) (r s : TaskRow)
      → lookup j db.tasks ≡ some r
      → lookup k db.tasks ≡ some s
      → is_reserved r.state ≡ true
      → is_reserved s.state ≡ true
      → r.context_id ≡ s.context_id
      → j ≡ k

pub any-lookup :
    {V : Type 0} (test : String × V → Bool) (k : String) (v : V) (d : Dict V)
    → any test d ≡ false
    → lookup k d ≡ some v
    → test (k, v) ≡ false
unfolding lookup
any-lookup test k v [] h e = cc
any-lookup test k v ((j, w) ∷ d) h e = elim (Bool-cases (j == k)) [
  | inl q ↦
      let same : w ≡ v = ground (arith, e, q) in
      subst₂ (λ a b. test (a, b) ≡ false) ((eq_iff j k).0 q) same (ground (arith, h))
  | inr q ↦ any-lookup test k v d (ground (arith, h)) (ground (arith, e, q))
]

-- A row whose context is not taken has no reserved row of its context beside it.
pub is_taken-none :
    (db : Db) (id c k : String) (r : TaskRow)
    → is_taken db id c ≡ false
    → lookup k db.tasks ≡ some r
    → is_reserved r.state ≡ true
    → r.context_id ≡ c
    → k ≡ id
unfolding is_taken
is_taken-none db id c k r free e reserved same =
    let f = any-lookup (reserves id c) k r db.tasks free e in
    ground (arith, eq_iff k id, eq_iff r.context_id c)

-- The row keeps the owner and the family of the row whose place it takes.
abbrev pub KeepsOwner : Dict TaskRow → TaskRow → Type 0
KeepsOwner tasks row =
    (old : TaskRow)
    → lookup row.id tasks ≡ some old
    → (row.owner ≡ old.owner) × (row.family ≡ old.family)

pub flush_task-eq_ok :
    (db : Db) {db' : Db} (e : Error) (row : TaskRow)
    → flush_task e row db ≡ ok db'
    → (db' ≡ save_task row db)
      × (is_reserved row.state ≡ true → is_taken db row.id row.context_id ≡ false)
unfolding flush_task
flush_task-eq_ok db e row h = (ground arith, λ r. ground arith)

save_task-Source :
    (tasks : Dict TaskRow) (row : TaskRow)
    → KeepsOwner tasks row
    → (m : MessageRow) → Source tasks m
    → Source (insert row.id row tasks) m
save_task-Source tasks row keeps m (r, there, o, f) = elim (Bool-cases (row.id == m.task_id)) [
  | inl q ↦
      let same = (eq_iff row.id m.task_id).0 q in
      let old = keeps r (subst (λ k. lookup k tasks ≡ some r) (sym same) there) in
      (
        row,
        subst (λ k. lookup k (insert row.id row tasks) ≡ some row) same
            (lookup-insert_self row.id row tasks),
        old.0 ∙ o,
        old.1 ∙ f,
      )
  | inr q ↦
      let differ : row.id ≢ m.task_id = λ p. cc (q, (eq_iff row.id m.task_id).1 p) in
      (r, lookup-insert_ne row.id m.task_id row tasks differ ∙ there, o, f)
]

-- A row that is flushed with its owner kept and its thread there leaves the tables consistent.
pub flush_task-IsConsistent :
    (db : Db) {db' : Db} (e : Error) (row : TaskRow)
    → IsConsistent db
    → KeepsOwner db.tasks row
    → Home db.threads row
    → row.payload.id ≡ row.id
    → flush_task e row db ≡ ok db'
    → IsConsistent db'
flush_task-IsConsistent db e row c keeps home_row named h =
    let (saved, free) = flush_task-eq_ok db e row h in
    subst IsConsistent (sym saved) (record {
      table = insert-IsDict row.id row db.tasks c.table;
      thread_table = c.thread_table;
      task_id = λ k r there. elim (lookup-insert_cases row.id k row r db.tasks there) [
        | inl (q, w) ↦ ap (λ (t : TaskRow). t.id) w ∙ q
        | inr (q, old) ↦ c.task_id k r old
      ];
      payload_id = λ k r there. elim (lookup-insert_cases row.id k row r db.tasks there) [
        | inl (q, w) ↦ ap (λ (t : TaskRow). t.payload.id) w ∙ named ∙ q
        | inr (q, old) ↦ c.payload_id k r old
      ];
      home = λ k r there. elim (lookup-insert_cases row.id k row r db.tasks there) [
        | inl (q, w) ↦ subst (Home db.threads) (sym w) home_row
        | inr (q, old) ↦ c.home k r old
      ];
      keyed = c.keyed;
      source =
          All-map (Source db.tasks) (Source (insert row.id row db.tasks)) db.messages
            (save_task-Source db.tasks row keeps) c.source;
      single = λ j k r s there there' p p' same.
          elim (lookup-insert_cases row.id j row r db.tasks there) [
            | inl (q, w) ↦ elim (lookup-insert_cases row.id k row s db.tasks there') [
              | inl (q', w') ↦ sym q ∙ q'
              | inr (q', old') ↦
                  sym q
                  ∙ sym (
                      is_taken-none db row.id row.context_id k s
                        (free (ap (λ (t : TaskRow). is_reserved t.state) (sym w) ∙ p)) old' p'
                        (sym same ∙ ap (λ (t : TaskRow). t.context_id) w))
            ]
            | inr (q, old) ↦ elim (lookup-insert_cases row.id k row s db.tasks there') [
              | inl (q', w') ↦
                  is_taken-none db row.id row.context_id j r
                    (free (ap (λ (t : TaskRow). is_reserved t.state) (sym w') ∙ p')) old p
                    (same ∙ ap (λ (t : TaskRow). t.context_id) w')
                  ∙ q'
              | inr (q', old') ↦ c.single j k r s old old' p p' same
            ]
          ];
    })

-- What is left after a deletion was there before.
pub erased_found :
    {V : Type 0} (k j : String) (v : V) (d : Dict V)
    → lookup j (erase k d) ≡ some v
    → lookup j d ≡ some v
erased_found k j v d h = ground (arith, lookup-erase k j d)

pub delete_task-IsConsistent :
    (id : String) (db : Db) → IsConsistent db → IsConsistent (delete_task id db)
unfolding delete_task
delete_task-IsConsistent id db c = record {
  table = erase-IsDict id db.tasks c.table;
  thread_table = c.thread_table;
  task_id = λ k r there. c.task_id k r (erased_found id k r db.tasks there);
  payload_id = λ k r there. c.payload_id k r (erased_found id k r db.tasks there);
  home = λ k r there. c.home k r (erased_found id k r db.tasks there);
  keyed = keep_if-IsKeyed _ db.messages c.keyed;
  source =
      All-keep_if (Source db.tasks) (Source (erase id db.tasks)) _ db.messages
        (λ m other s. (
          s.0,
          ground (
            arith,
            lookup-erase id m.task_id db.tasks,
            eq_iff id m.task_id,
            eq_iff m.task_id id,
            s.1,
          ),
          s.2,
          s.3,
        ))
        c.source;
  single = λ j k r s there there'.
      c.single j k r s (erased_found id j r db.tasks there) (erased_found id k s db.tasks there');
}

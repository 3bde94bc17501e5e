-- ===== src/AgentApi/Consistent/Sweeps.antt =====
-- `recover`, `prune`, `delete_contexts` and `save` keep the tables of the agent tasks consistent.
use wotbot.Base.{
  ℕ, String, ◌≡◌, inl, inr, refl, sym, ap, ◌∙◌, subst, true, false, not, ◌&&◌, Option, none, some,
  List, [], ◌∷◌, map, any, is_in, All-map, All-keep_if, arith, Bool-cases, Option-cases, ==_self,
  ◌==◌, if◌then◌else◌,
}
use wotbot.Base.Dict.{
  Dict, IsDict, lookup, has_key, keep_entries, lookup-keep_entries, keep_entries-IsDict,
}
use wotbot.AgentApi.Types.{integrity_error, Task, is_reserved, is_active, ok, both_ok}
use wotbot.AgentApi.Interrupts.{Pending}
use wotbot.AgentApi.Tables.{TaskRow, MessageRow, ThreadRow, Db}
use wotbot.AgentApi.Tables.Keys.{keep_if-IsKeyed}
use wotbot.AgentApi.Requests.{owned, owned-eq_ok}
use wotbot.AgentApi.Store.{
  recovered_row, recovered, recover, is_kept, prune, in_context, is_retired, delete_contexts,
  saved_row, save,
}
use wotbot.AgentApi.Consistent.{Home, Source, IsConsistent, any-lookup, flush_task-IsConsistent}

module _ (fresh_id : String → String) (now : ℕ) where
  abbrev pub recovered_value : TaskRow → TaskRow
  recovered_value row = if is_active row.state then recovered_row fresh_id now row else row

  abbrev mapped : Option TaskRow → Option TaskRow
  mapped none = none
  mapped (some r) = some (recovered_value r)

  lookup-recovered_eq :
      (k : String) (d : Dict TaskRow)
      → lookup k (map (recovered fresh_id now) d) ≡ mapped (lookup k d)
  unfolding lookup
  lookup-recovered_eq k [] = refl
  lookup-recovered_eq k ((j, w) ∷ d) = elim (Bool-cases (j == k)) [
    | inl q ↦ rw q refl
    | inr q ↦ rw q (lookup-recovered_eq k d)
  ]

  -- What is found after the recovery is the row from before, failed if it was active.
  pub lookup-recovered :
      (k : String) (r : TaskRow) (d : Dict TaskRow)
      → lookup k (map (recovered fresh_id now) d) ≡ some r
      → (r₀ : TaskRow) × (lookup k d ≡ some r₀) × (r ≡ recovered_value r₀)
  lookup-recovered k r d e = elim (Option-cases (lookup k d)) [
    | inl n ↦ let l = lookup-recovered_eq k d ∙ ap mapped n in cc (l, e)
    | inr (r₀, found) ↦ (r₀, found, let l = lookup-recovered_eq k d ∙ ap mapped found in cc (l, e))
  ]

  pub recovered-lookup :
      (k : String) (r : TaskRow) (d : Dict TaskRow)
      → lookup k d ≡ some r
      → lookup k (map (recovered fresh_id now) d) ≡ some (recovered_value r)
  recovered-lookup k r d e = lookup-recovered_eq k d ∙ ap mapped e

  recovered-IsDict : (d : Dict TaskRow) → IsDict d → IsDict (map (recovered fresh_id now) d)
  recovered-IsDict [] h = tt
  recovered-IsDict ((j, w) ∷ d) h =
      (lookup-recovered_eq j d ∙ ap mapped h.0, recovered-IsDict d h.1)

  value_id : (r : TaskRow) → (recovered_value r).id ≡ r.id
  value_id r = ground arith

  value_payload : (r : TaskRow) → (recovered_value r).payload.id ≡ r.payload.id
  value_payload r = ground arith

  value_context : (r : TaskRow) → (recovered_value r).context_id ≡ r.context_id
  value_context r = ground arith

  pub value_owner : (r : TaskRow) → (recovered_value r).owner ≡ r.owner
  value_owner r = ground arith

  pub value_family : (r : TaskRow) → (recovered_value r).family ≡ r.family
  value_family r = ground arith

  value_reserved :
      (r : TaskRow) → is_reserved (recovered_value r).state ≡ true → is_reserved r.state ≡ true
  value_reserved r h = ground arith

  value-Home :
      (threads : Dict ThreadRow) (r : TaskRow) → Home threads r → Home threads (recovered_value r)
  value-Home threads r (t, there, o, k) = elim (Bool-cases (is_active r.state)) [
    | inl q ↦ rw q (t, there, o, k)
    | inr q ↦ rw q (t, there, o, k)
  ]

  pub recover-IsConsistent : (db : Db) → IsConsistent db → IsConsistent (recover fresh_id db now).1
  unfolding recover
  recover-IsConsistent db c = record {
    table = recovered-IsDict db.tasks c.table;
    thread_table = c.thread_table;
    task_id = λ k r there.
        let (r₀, old, v) = lookup-recovered k r db.tasks there in
        ap (λ (t : TaskRow). t.id) v ∙ value_id r₀ ∙ c.task_id k r₀ old;
    payload_id = λ k r there.
        let (r₀, old, v) = lookup-recovered k r db.tasks there in
        ap (λ (t : TaskRow). t.payload.id) v ∙ value_payload r₀ ∙ c.payload_id k r₀ old;
    home = λ k r there.
        let (r₀, old, v) = lookup-recovered k r db.tasks there in
        subst (Home db.threads) (sym v) (value-Home db.threads r₀ (c.home k r₀ old));
    keyed = c.keyed;
    source =
        All-map (Source db.tasks) (Source (map (recovered fresh_id now) db.tasks)) db.messages
          (λ m s. (
            recovered_value s.0,
            recovered-lookup m.task_id s.0 db.tasks s.1,
            value_owner s.0 ∙ s.2,
            value_family s.0 ∙ s.3,
          ))
          c.source;
    single = λ j k r s there there' p p' same.
        let (r₀, old, v) = lookup-recovered j r db.tasks there in
        let (s₀, old', v') = lookup-recovered k s db.tasks there' in
        c.single j k r₀ s₀ old old'
          (value_reserved r₀ (ap (λ (t : TaskRow). is_reserved t.state) (sym v) ∙ p))
          (value_reserved s₀ (ap (λ (t : TaskRow). is_reserved t.state) (sym v') ∙ p'))
          (sym (ap (λ (t : TaskRow). t.context_id) v ∙ value_context r₀)
            ∙ same
            ∙ ap (λ (t : TaskRow). t.context_id) v'
            ∙ value_context s₀);
  }

has_key-found :
    {V : Type 0} (k : String) (d : Dict V) → has_key k d ≡ true → (v : V) × (lookup k d ≡ some v)
has_key-found k d h = elim (Option-cases (lookup k d)) [
  | inl n ↦ absurd (ground (arith, n, h))
  | inr f ↦ f
]

module _ (now : ℕ) (db : Db) (c : IsConsistent db) where
  -- A task that is left was there before.
  pub kept_before :
      (k : String) (r : TaskRow)
      → lookup k (keep_entries (is_kept now) db.tasks) ≡ some r
      → lookup k db.tasks ≡ some r
  kept_before k r there = ((lookup-keep_entries (is_kept now) k r db.tasks c.table).0 there).0

  kept-Source :
      (m : MessageRow)
      → has_key m.task_id (keep_entries (is_kept now) db.tasks) ≡ true
      → Source db.tasks m
      → Source (keep_entries (is_kept now) db.tasks) m
  kept-Source m h (r, there, o, f) =
      let (v, found) = has_key-found m.task_id (keep_entries (is_kept now) db.tasks) h in
      let before = kept_before m.task_id v found in
      let same : v ≡ r = ground (arith, before, there) in (r, found ∙ ap some same, o, f)

  pub prune-IsConsistent : IsConsistent (prune db now).1
  unfolding prune
  prune-IsConsistent = record {
    table = keep_entries-IsDict (is_kept now) db.tasks c.table;
    thread_table = c.thread_table;
    task_id = λ k r there. c.task_id k r (kept_before k r there);
    payload_id = λ k r there. c.payload_id k r (kept_before k r there);
    home = λ k r there. c.home k r (kept_before k r there);
    keyed = keep_if-IsKeyed _ db.messages c.keyed;
    source = All-keep_if (Source db.tasks) _ _ db.messages kept-Source c.source;
    single =
        λ j k r s there there'. c.single j k r s (kept_before j r there) (kept_before k s there');
  }

module _ (db : Db) (c : IsConsistent db) where
  occupied_stays :
      (k : String) (r : TaskRow) (t : ThreadRow)
      → lookup k db.tasks ≡ some r
      → is_retired db r.context_id t ≡ false
  occupied_stays k r t there = elim (Bool-cases (any (in_context r.context_id) db.tasks)) [
    | inl busy ↦ ground (arith, busy)
    | inr free ↦
        let f = any-lookup (in_context r.context_id) k r db.tasks free there in
        let t = ==_self r.context_id in cc (f, t)
  ]

  pub delete_contexts-IsConsistent : (ids : List String) → IsConsistent (delete_contexts db ids).1
  unfolding delete_contexts
  delete_contexts-IsConsistent ids = record {
    table = c.table;
    thread_table = keep_entries-IsDict _ db.threads c.thread_table;
    task_id = c.task_id;
    payload_id = c.payload_id;
    home = λ k r there.
        let (t, found, o, kind) = c.home k r there in
        (
          t,
          (lookup-keep_entries (λ i thread. not (is_in i ids && is_retired db i thread))
                r.context_id t db.threads c.thread_table).1
              (found, ground (arith, occupied_stays k r t there)),
          o,
          kind,
        );
    keyed = c.keyed;
    source = c.source;
    single = c.single;
  }

pub save-IsConsistent :
    (retention : ℕ) (db : Db) {db' : Db} (owner : String) (task : Task)
    (pending : Option (List Pending)) (now : ℕ)
    → IsConsistent db
    → save retention db owner task pending now ≡ ok db'
    → IsConsistent db'
unfolding save
save-IsConsistent retention db owner task pending now c h =
    let (row, got, flushed) = both_ok (owned db owner task.id now) _ h in
    let (found, own) = owned-eq_ok db owner task.id now row got in
    let id = c.task_id task.id row found in
    flush_task-IsConsistent db integrity_error (saved_row row task pending now retention) c
      (λ old there.
        let same : row ≡ old =
          ground (arith, found, subst (λ k. lookup k db.tasks ≡ some old) id there) in
        (ap (λ (t : TaskRow). t.owner) same, ap (λ (t : TaskRow). t.family) same))
      (c.home task.id row found) (sym id) flushed

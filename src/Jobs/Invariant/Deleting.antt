-- ===== src/Jobs/Invariant/Deleting.antt =====
-- Deleting a job takes its runs with it and keeps the tables consistent.
use wotbot.Base.{
  String, ◌≡◌, ◌≢◌, inl, inr, sym, ◌∙◌, Bool, some, arith, Bool-cases, Option-cases, eq_iff, ◌==◌,
}
use wotbot.Base.Dict.{
  lookup, erase, keep_entries, lookup-erase, erase-IsDict, keep_entries-IsDict, lookup-keep_entries,
}
use wotbot.Jobs.Records.{JobRow, RunRow, Db, get_job, get_run, locked_job_row}
use wotbot.Jobs.Definitions.{other_job, delete_job}
use wotbot.Jobs.Invariant.{IsConsistent, CommitsConsistent}

module _ {Late : String → Type 0} (db : Db) (k : String) (before : IsConsistent Late db) where
  abbrev others : String → RunRow → Bool
  others _ r = other_job k r

  job_kept :
      (i : String) (x : JobRow)
      → k ≢ i
      → get_job db i ≡ some x
      → lookup i (erase k db.jobs) ≡ some x
  job_kept i x ne h = rw (lookup-erase k i db.jobs) (ground (arith, eq_iff k i, h))

  job_before :
      (i : String) (x : JobRow)
      → lookup i (erase k db.jobs) ≡ some x
      → (k ≢ i) × (get_job db i ≡ some x)
  job_before i x h = elim (Bool-cases (k == i)) [
    | inl e ↦ absurd (ground (arith, lookup-erase k i db.jobs))
    | inr e ↦ (λ p. cc (e, (eq_iff k i).1 p), ground (arith, lookup-erase k i db.jobs))
  ]

  run_before :
      (j : String) (r : RunRow)
      → lookup j (keep_entries others db.runs) ≡ some r
      → (get_run db j ≡ some r) × (k ≢ r.job_id)
  run_before j r h =
      let (found, passed) = (lookup-keep_entries others j r db.runs before.run_table).0 h in
      (found, λ p. ground (arith, eq_iff r.job_id k, passed, sym p))

  run_kept :
      (j : String) (r : RunRow)
      → get_run db j ≡ some r
      → k ≢ r.job_id
      → lookup j (keep_entries others db.runs) ≡ some r
  run_kept j r h ne =
      (lookup-keep_entries others j r db.runs before.run_table).1
        (h, ground (arith, eq_iff r.job_id k, ne))

  owner_kept :
      (j : String) (r : RunRow)
      → (get_run db j ≡ some r) × (k ≢ r.job_id)
      → (y : JobRow) × (lookup r.job_id (erase k db.jobs) ≡ some y)
  owner_kept j r (h, ne) = let (y, g) = before.owner j r h in (y, job_kept r.job_id y ne g)

  active_kept :
      (i j : String) (x : JobRow)
      → (k ≢ i) × (get_job db i ≡ some x)
      → x.active_run_id ≡ some j
      → (r : RunRow) × (lookup j (keep_entries others db.runs) ≡ some r) × (r.job_id ≡ i)
  active_kept i j x (ne, h) a =
      let (r, g, own) = before.active i j x h a in (r, run_kept j r g (λ p. ne (p ∙ own)), own)

  deleted-IsConsistent :
      (row : JobRow) → get_job db k ≡ some row → CommitsConsistent Late (delete_job db k)
  unfolding delete_job locked_job_row
  deleted-IsConsistent row found = rw found (record {
    table = erase-IsDict k db.jobs before.table;
    run_table = keep_entries-IsDict others db.runs before.run_table;
    job_id = λ i x h. before.job_id i x ((job_before i x h).1);
    run_id = λ j r h. before.run_id j r ((run_before j r h).0);
    tidy = λ i x h. before.tidy i x ((job_before i x h).1);
    owner = λ j r h. owner_kept j r (run_before j r h);
    active = λ i j x h a. active_kept i j x (job_before i x h) a;
    single =
        λ j r x h pr g. before.single j r x ((run_before j r h).0) pr ((job_before r.job_id x g).1);
  })

pub delete_job-IsConsistent :
    {Late : String → Type 0}
    → (db : Db) (k : String) → IsConsistent Late db
    → CommitsConsistent Late (delete_job db k)
unfolding delete_job locked_job_row
delete_job-IsConsistent db k before = elim (Option-cases (get_job db k)) [
  | inl e ↦ rw e tt
  | inr (row, e) ↦ deleted-IsConsistent db k before row e
]

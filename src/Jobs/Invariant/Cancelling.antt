-- ===== src/Jobs/Invariant/Cancelling.antt =====
-- Cancelling the active run keeps the tables consistent.
use wotbot.Base.{
  ℕ, String, ◌≡◌, inl, inr, refl, ap, Option, none, some, arith, Bool-cases, Option-cases,
}
use wotbot.Base.Dict.{insert}
use wotbot.Jobs.Enums.{JobRunStatus, in_progress, has_status}
use wotbot.Jobs.Records.{JobRow, RunRow, Db, get_job, get_run, save_job}
use wotbot.Jobs.Cancel.{cancelled_job, cancel_run_row, cancel_locked, cancel_active_run}
use wotbot.Jobs.Invariant.{IsConsistent, CommitsConsistent, Respects, Respects-IsConsistent}

module _ {Late : String → Type 0} (db : Db) (k j : String) (row : JobRow) (r : RunRow) (now : ℕ)
    (before : IsConsistent Late db) (found : get_job db k ≡ some row)
    (is_active : row.active_run_id ≡ some j) (run : get_run db j ≡ some r)
    (own : r.job_id ≡ k) where
  abbrev cancelled_run : RunRow
  cancelled_run = record r {
    status = JobRunStatus.cancelled;
    error = some "Run cancelled by user.";
    finished_at = some now;
  }

  cancel-Respects : Respects Late db k j row (cancelled_job row now) cancelled_run
  cancel-Respects = record {
    found = found;
    job_id = before.job_id k row found;
    run_id = before.run_id j r run;
    owner = own;
    tidy = record { busy = λ h. cc; idle = λ _. (refl, refl) };
    same_owner = λ x h. ground (arith, own);
    active = λ i h. cc;
    progress = λ h. cc;
    others = λ i x ne h pr a. absurd (ne (cc (is_active)));
  }

  cancel_rows-IsConsistent :
      IsConsistent Late (save_job (cancelled_job row now) (cancel_run_row db row (some r) now))
  unfolding cancel_run_row
  cancel_rows-IsConsistent =
      Respects-IsConsistent db _ k j row (cancelled_job row now) cancelled_run
        (ap (λ z. insert z (cancelled_job row now) db.jobs) (before.job_id k row found))
        (ap (λ z. insert z cancelled_run db.runs) ((before.run_id j r run).0)) before
        cancel-Respects

cancel_locked-IsConsistent :
    {Late : String → Type 0}
    → (db : Db) (k : String) (row : JobRow) (now : ℕ) → IsConsistent Late db
    → get_job db k ≡ some row
    → (o : Option String) → row.active_run_id ≡ o
    → CommitsConsistent Late (cancel_locked db row o now)
unfolding cancel_locked
cancel_locked-IsConsistent db k row now before found none e = tt
cancel_locked-IsConsistent db k row now before found (some j) e =
    elim (Bool-cases (has_status in_progress row.last_run_status)) [
      | inl busy ↦
          let (r, run, own) = before.active k j row found e in
          rw (busy, run) (cancel_rows-IsConsistent db k j row r now before found e run own)
      | inr rest ↦ rw rest tt
    ]

pub cancel_active_run-IsConsistent :
    {Late : String → Type 0}
    → (db : Db) (job_id : String) (now : ℕ) → IsConsistent Late db
    → CommitsConsistent Late (cancel_active_run db job_id now)
unfolding cancel_active_run
cancel_active_run-IsConsistent db job_id now before = elim (Option-cases (get_job db job_id)) [
  | inl e ↦ rw e tt
  | inr (row, e) ↦
      rw e (cancel_locked-IsConsistent db job_id row now before e row.active_run_id refl)
]

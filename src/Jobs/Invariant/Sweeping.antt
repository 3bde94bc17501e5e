-- ===== src/Jobs/Invariant/Sweeping.antt =====
-- Failing the stale runs keeps the tables consistent, and leaves no stale job.
use wotbot.Base.{
  ℕ, String, ◌≡◌, ◌≢◌, ◌⊎◌, inl, inr, refl, sym, ap, ◌∙◌, true, false, Option, none, some, List, [],
  ◌∷◌, map, arith, Bool-cases, Option-cases, eq_iff, ◌==◌, All, keep_if, is_in, subst,
}
use wotbot.Base.Dict.{
  Dict, lookup, insert, values, IsDict, FoundIn, IsDict-FoundIn, lookup-insert_ne,
  lookup-insert_cases,
}
use wotbot.Jobs.Enums.{JobRunStatus}
use wotbot.Jobs.Records.{JobRow, RunRow, Db, get_job, get_run, save_job}
use wotbot.Jobs.Stale.{
  stale_error, is_stale, stale_job, fail_run_row, active_run, fail_stale,
  mark_stale_running_runs_failed,
}
use wotbot.Jobs.Invariant.{IsConsistent, Respects, Respects-IsConsistent}

pub is_stale-active :
    (cutoff : ℕ) (row : JobRow)
    → is_stale cutoff row ≡ true
    → (j : String) × (row.active_run_id ≡ some j)
is_stale-active cutoff row h = elim (Option-cases row.active_run_id) [
  | inl e ↦ absurd (ground arith)
  | inr (j, e) ↦ (j, e)
]

module _ {Late : String → Type 0} (db : Db) (k j : String) (row : JobRow) (r : RunRow) (now : ℕ)
    (before : IsConsistent Late db) (found : get_job db k ≡ some row)
    (is_active : row.active_run_id ≡ some j) (run : get_run db j ≡ some r)
    (own : r.job_id ≡ k) where
  abbrev pub failed_run : RunRow
  failed_run = record r {
    status = JobRunStatus.failed;
    error = some stale_error;
    finished_at = some now;
  }

  fail-Respects : Respects Late db k j row (stale_job row now) failed_run
  fail-Respects = record {
    found = found;
    job_id = before.job_id k row found;
    run_id = before.run_id j r run;
    owner = own;
    tidy = record { busy = λ h. cc; idle = λ _. (refl, refl) };
    same_owner = λ x h. ground (arith, own);
    active = λ i h. cc;
    progress = λ h. cc;
    others = λ i x ne h pr a. absurd (ne (cc (is_active)));
  }

  pub fail_rows-IsConsistent :
      IsConsistent Late (save_job (stale_job row now) (fail_run_row db row (active_run db row) now))
  unfolding fail_run_row
  fail_rows-IsConsistent = rw is_active (
      rw run (
        Respects-IsConsistent db _ k j row (stale_job row now) failed_run
          (ap (λ z. insert z (stale_job row now) db.jobs) (before.job_id k row found))
          (ap (λ z. insert z failed_run db.runs) ((before.run_id j r run).0)) before fail-Respects))

-- One round of the loop.
abbrev pub failed_one : Db → JobRow → ℕ → Db
failed_one db row now = save_job (stale_job row now) (fail_run_row db row (active_run db row) now)

pub failed_one-jobs :
    (db : Db) (row : JobRow) (now : ℕ)
    → (failed_one db row now).jobs ≡ insert row.id (stale_job row now) db.jobs
unfolding fail_run_row
failed_one-jobs db row now = go (active_run db row)
  where
    go :
        (o : Option RunRow)
        → (save_job (stale_job row now) (fail_run_row db row o now)).jobs
          ≡ insert row.id (stale_job row now) db.jobs
    go none = refl
    go (some r) = refl

-- The rows are those that the tables hold, each is stale, and none stands twice.
abbrev pub Current : ℕ → Db → List JobRow → Type 0
Current cutoff db [] = Unit
Current cutoff db (row ∷ rows) =
    (get_job db row.id ≡ some row)
    × (is_stale cutoff row ≡ true)
    × All (λ (x : JobRow). row.id ≢ x.id) rows
    × Current cutoff db rows

abbrev pub ids : List JobRow → List String
ids = map λ (x : JobRow). x.id

-- Every stale job of the tables is in the list.
abbrev Remaining : ℕ → Db → List JobRow → Type 0
Remaining cutoff db rows =
    (k : String) (row : JobRow)
    → get_job db k ≡ some row
    → is_stale cutoff row ≡ true
    → is_in k (ids rows) ≡ true

module _ (cutoff now : ℕ) (db : Db) (row : JobRow) where
  pub Current-failed_one :
      (rows : List JobRow)
      → All (λ (x : JobRow). row.id ≢ x.id) rows
      → Current cutoff db rows
      → Current cutoff (failed_one db row now) rows
  Current-failed_one [] ne h = tt
  Current-failed_one (x ∷ rows) ne h = (
    ap (lookup x.id) (failed_one-jobs db row now)
        ∙ lookup-insert_ne row.id x.id (stale_job row now) db.jobs (ne.0)
        ∙ h.0,
    h.1,
    h.2,
    Current-failed_one rows ne.1 h.3,
  )

  Remaining-failed_one :
      (rows : List JobRow)
      → Remaining cutoff db (row ∷ rows)
      → Remaining cutoff (failed_one db row now) rows
  Remaining-failed_one rows h k x found stale = pick (
      lookup-insert_cases row.id k (stale_job row now) x db.jobs
        (ap (lookup k) (sym (failed_one-jobs db row now)) ∙ found))
    where
      pick :
          ((row.id ≡ k) × (x ≡ stale_job row now)) ⊎ ((row.id ≢ k) × (get_job db k ≡ some x))
          → is_in k (ids rows) ≡ true
      pick (inl (_, e)) = absurd (
          let s : is_stale cutoff (stale_job row now) ≡ true =
            subst (λ y. is_stale cutoff y ≡ true) e stale in
          ground (arith, s))
      pick (inr (ne, e)) =
          let there = h k x e stale in
          elim (Bool-cases (row.id == k)) [
            | inl same ↦ absurd (ne ((eq_iff row.id k).0 same))
            | inr other ↦ ground (arith, there, other)
          ]

fail_stale-IsConsistent :
    {Late : String → Type 0}
    → (cutoff now : ℕ) (rows : List JobRow) (db : Db) → IsConsistent Late db
    → Current cutoff db rows
    → IsConsistent Late (fail_stale now rows db)
unfolding fail_stale
fail_stale-IsConsistent cutoff now [] db before h = before
fail_stale-IsConsistent cutoff now (row ∷ rows) db before h =
    let (j, is_active) = is_stale-active cutoff row h.1 in
    let (r, run, own) = before.active row.id j row h.0 is_active in
    fail_stale-IsConsistent cutoff now rows (failed_one db row now)
      (fail_rows-IsConsistent db row.id j row r now before h.0 is_active run own)
      (Current-failed_one cutoff now db row rows h.2 h.3)

fail_stale-Remaining :
    (cutoff now : ℕ) (rows : List JobRow) (db : Db)
    → Remaining cutoff db rows
    → Remaining cutoff (fail_stale now rows db) []
unfolding fail_stale
fail_stale-Remaining cutoff now [] db h = h
fail_stale-Remaining cutoff now (row ∷ rows) db h =
    fail_stale-Remaining cutoff now rows (failed_one db row now)
      (Remaining-failed_one cutoff now db row rows h)

-- The rows that the query selects.

module _ {Late : String → Type 0} (cutoff : ℕ) (db : Db) (before : IsConsistent Late db) where
  selected-apart :
      (k : String) (d : Dict JobRow)
      → FoundIn db.jobs d
      → lookup k d ≡ none
      → All (λ (x : JobRow). k ≢ x.id) (keep_if (is_stale cutoff) (values d))
  unfolding lookup
  selected-apart k [] f h = tt
  selected-apart k ((j, x) ∷ d) f h = elim (Bool-cases (j == k)) [
    | inl e ↦ absurd (ground arith)
    | inr e ↦
        let rest = selected-apart k d f.1 (ground arith) in
        let here : k ≢ x.id = λ p. cc (e, (eq_iff j k).1 (sym (before.job_id j x f.0) ∙ sym p)) in
        elim (Bool-cases (is_stale cutoff x)) [ inl s ↦ rw s (here, rest) | inr s ↦ rw s rest ]
  ]

  pub selected-Current :
      (d : Dict JobRow)
      → FoundIn db.jobs d
      → IsDict d
      → Current cutoff db (keep_if (is_stale cutoff) (values d))
  selected-Current [] f h = tt
  selected-Current ((j, x) ∷ d) f h =
      let id' = before.job_id j x f.0 in
      let rest = selected-Current d f.1 h.1 in
      elim (Bool-cases (is_stale cutoff x)) [
        | inl s ↦ rw s (
          ap (λ z. lookup z db.jobs) id' ∙ f.0,
          s,
          subst (λ z. All (λ (y : JobRow). z ≢ y.id) (keep_if (is_stale cutoff) (values d)))
              (sym id') (selected-apart j d f.1 h.0),
          rest,
        )
        | inr s ↦ rw s rest
      ]

  pub selected-Remaining :
      (d : Dict JobRow)
      → FoundIn db.jobs d
      → (k : String) (row : JobRow) → lookup k d ≡ some row
      → is_stale cutoff row ≡ true
      → is_in k (ids (keep_if (is_stale cutoff) (values d))) ≡ true
  unfolding lookup
  selected-Remaining [] f k row h s = cc
  selected-Remaining ((j, x) ∷ d) f k row h s = elim (Bool-cases (j == k)) [
    | inl e ↦
        let same : x ≡ row = ground (arith, h, e) in
        let s' : is_stale cutoff x ≡ true = subst (λ y. is_stale cutoff y ≡ true) (sym same) s in
        let id' : (x.id == k) ≡ true = ap (λ z. z == k) (before.job_id j x f.0) ∙ e in
        rw s' (rw id' refl)
    | inr e ↦
        let rest = selected-Remaining d f.1 k row (ground (arith, h, e)) s in
        elim (Bool-cases (is_stale cutoff x)) [
          | inl t ↦ rw t (ground (arith, rest))
          | inr t ↦ rw t rest
        ]
  ]

pub mark_stale_running_runs_failed-IsConsistent :
    {Late : String → Type 0}
    → (db : Db) (cutoff now : ℕ) → IsConsistent Late db
    → IsConsistent Late (mark_stale_running_runs_failed db cutoff now).1
unfolding mark_stale_running_runs_failed
mark_stale_running_runs_failed-IsConsistent db cutoff now before =
    fail_stale-IsConsistent cutoff now (keep_if (is_stale cutoff) (values db.jobs)) db before
      (selected-Current cutoff db before db.jobs (IsDict-FoundIn db.jobs before.table) before.table)

-- After the sweep of consistent tables no job is stale.
is_stale-mark_stale_running_runs_failed :
    {Late : String → Type 0}
    → (db : Db) (cutoff now : ℕ) (k : String) (row : JobRow) → IsConsistent Late db
    → get_job (mark_stale_running_runs_failed db cutoff now).1 k ≡ some row
    → is_stale cutoff row ≡ false
unfolding mark_stale_running_runs_failed
is_stale-mark_stale_running_runs_failed db cutoff now k row before h =
    elim (Bool-cases (is_stale cutoff row)) [
      | inl s ↦ absurd (
          true_ne_false (
            (fail_stale-Remaining cutoff now (keep_if (is_stale cutoff) (values db.jobs)) db
              (selected-Remaining cutoff db before db.jobs (IsDict-FoundIn db.jobs before.table)) k
              row h s)))
      | inr s ↦ s
    ]
  where
    true_ne_false : false ≢ true
    true_ne_false e = cc

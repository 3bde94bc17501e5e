-- ===== src/Jobs/Outcomes/Sweeps.antt =====
-- What `_mark_stale_running_runs_failed_sync` of jobs/stores/runs.py does to a job and its active run.
use wotbot.Base.{
  ℕ, ◌+◌, String, ◌≡◌, ◌≢◌, inl, inr, refl, sym, ap, ◌∙◌, subst, Bool, true, false, Option, none,
  some, List, [], ◌∷◌, arith, Bool-cases, eq_iff, ◌==◌, All, keep_if, is_in,
}
use wotbot.Base.Dict.{lookup, insert, values, IsDict-FoundIn, lookup-insert_self, lookup-insert_ne}
use wotbot.Jobs.Enums.{JobRunStatus}
use wotbot.Jobs.Records.{JobRow, RunRow, Db, get_job, get_run}
use wotbot.Jobs.Stale.{
  is_stale, stale_job, stale_error, fail_run_row, active_run, fail_stale,
  mark_stale_running_runs_failed,
}
use wotbot.Jobs.Invariant.{IsConsistent}
use wotbot.Jobs.Invariant.Sweeping.{
  is_stale-active, fail_rows-IsConsistent, failed_one, failed_one-jobs, Current, ids,
  Current-failed_one, selected-Current, selected-Remaining,
}

failed_one-runs :
    (db : Db) (row : JobRow) (now : ℕ) (j : String) (r : RunRow)
    → row.active_run_id ≡ some j
    → get_run db j ≡ some r
    → r.id ≡ j
    → (failed_one db row now).runs
      ≡ insert j
          (record r {
            status = JobRunStatus.failed;
            error = some stale_error;
            finished_at = some now;
          })
          db.runs
unfolding fail_run_row
failed_one-runs db row now j r active run own = rw active (rw run (rw own refl))

-- None of the rows is that of job `k`.
abbrev Without : String → List JobRow → Type 0
Without k = All λ (x : JobRow). x.id ≢ k

module _ (cutoff now : ℕ) (k : String) where
  -- A job that is not in the list keeps its row.
  fail_stale-get_job :
      (rows : List JobRow) (db : Db)
      → Without k rows
      → get_job (fail_stale now rows db) k ≡ get_job db k
  unfolding fail_stale
  fail_stale-get_job [] db ne = refl
  fail_stale-get_job (row ∷ rows) db ne =
      fail_stale-get_job rows (failed_one db row now) ne.1
      ∙ ap (lookup k) (failed_one-jobs db row now)
      ∙ lookup-insert_ne row.id k (stale_job row now) db.jobs ne.0

  -- A run of such a job stays.
  fail_stale-get_run :
      {Late : String → Type 0}
      → (rows : List JobRow) (db : Db) (j : String) (r : RunRow) → IsConsistent Late db
      → Current cutoff db rows
      → Without k rows
      → get_run db j ≡ some r
      → r.job_id ≡ k
      → get_run (fail_stale now rows db) j ≡ some r
  unfolding fail_stale
  fail_stale-get_run [] db j r before h ne run own = run
  fail_stale-get_run (row ∷ rows) db j r before h ne run own =
      let (i, active) = is_stale-active cutoff row h.1 in
      let (s, there, of_row) = before.active row.id i row h.0 active in
      let differ : i ≢ j = λ q. ne.0 (
        sym of_row
        ∙ ap (λ (x : RunRow). x.job_id)
            (let e : s ≡ r = ground (arith, sym there ∙ ap (λ z. get_run db z) q ∙ run) in e)
        ∙ own) in
      fail_stale-get_run rows (failed_one db row now) j r
        (fail_rows-IsConsistent db row.id i row s now before h.0 active there of_row)
        (Current-failed_one cutoff now db row rows h.2 h.3) ne.1
        (ap (lookup j) (failed_one-runs db row now i s active there ((before.run_id i s there).0))
          ∙ lookup-insert_ne i j _ db.runs differ
          ∙ run)
        own

-- What a sweep leaves of job `k`, whose row was `row`, by whether it was stale: the job and its
-- active run have failed, or both are as they were.
abbrev pub IsSwept : ℕ → Db → Db → String → JobRow → ℕ → Bool → Type 0
IsSwept cutoff db after k row now true =
    (j : String) × (x : RunRow) × (y : JobRow) × (row.active_run_id ≡ some j)
    × (get_run after j ≡ some x)
    × (x.job_id ≡ k)
    × (x.status ≡ JobRunStatus.failed)
    × (x.finished_at ≡ some now)
    × (get_job after k ≡ some y)
    × (y.active_run_id ≡ none)
    × (y.last_run_status ≡ some JobRunStatus.failed)
    × (y.run_count ≡ row.run_count + 1)
    × (is_stale cutoff y ≡ false)
IsSwept cutoff db after k row now false =
    (get_job after k ≡ some row) × (active_run after row ≡ active_run db row)

others-Without :
    (k : String) (row : JobRow) (rows : List JobRow)
    → row.id ≡ k
    → All (λ (x : JobRow). row.id ≢ x.id) rows
    → Without k rows
others-Without k row [] same h = tt
others-Without k row (x ∷ rows) same h =
    (λ p. h.0 (same ∙ sym p), others-Without k row rows same h.1)

-- A job that is not stale is not among the stale ones.
fresh-Without :
    (cutoff : ℕ) (db : Db) (k : String) (row : JobRow) (rows : List JobRow)
    → get_job db k ≡ some row
    → is_stale cutoff row ≡ false
    → Current cutoff db rows
    → Without k rows
fresh-Without cutoff db k row [] found fresh h = tt
fresh-Without cutoff db k row (x ∷ rows) found fresh h = (
  λ p.
      let same : x ≡ row = let e = sym h.0 ∙ ap (get_job db) p ∙ found in ground (arith, e) in
      cc (fresh, h.1, ap (is_stale cutoff) same),
  fresh-Without cutoff db k row rows found fresh h.3,
)

module _ (cutoff now : ℕ) (k : String) (row : JobRow) where
  -- The round for job `k`, and the rounds after it.
  first_round :
      {Late : String → Type 0}
      → (rows : List JobRow) (db : Db) → IsConsistent Late db
      → get_job db k ≡ some row
      → is_stale cutoff row ≡ true
      → Current cutoff db (row ∷ rows)
      → IsSwept cutoff db (fail_stale now (row ∷ rows) db) k row now true
  unfolding fail_stale
  first_round rows db before found stale h =
      let (j, active) = is_stale-active cutoff row stale in
      let (r, run, own) = before.active k j row found active in
      let id' = before.job_id k row found in
      let x : RunRow = record r {
        status = JobRunStatus.failed;
        error = some stale_error;
        finished_at = some now;
      } in
      let db₁ = failed_one db row now in
      let ne = others-Without k row rows id' h.2 in
      let later = Current-failed_one cutoff now db row rows h.2 h.3 in
      let run₁ : get_run db₁ j ≡ some x =
        ap (lookup j) (failed_one-runs db row now j r active run ((before.run_id j r run).0))
        ∙ lookup-insert_self j x db.runs in
      let job₁ : get_job db₁ k ≡ some (stale_job row now) =
        ap (lookup k)
          (failed_one-jobs db row now ∙ ap (λ z. insert z (stale_job row now) db.jobs) id')
        ∙ lookup-insert_self k (stale_job row now) db.jobs in
      let before₁ = fail_rows-IsConsistent db k j row r now before found active run own in
      (
        j,
        x,
        stale_job row now,
        active,
        fail_stale-get_run cutoff now k rows db₁ j x before₁ later ne run₁ own,
        own,
        refl,
        refl,
        fail_stale-get_job cutoff now k rows db₁ ne ∙ job₁,
        refl,
        refl,
        refl,
        refl,
      )

  member_round :
      {Late : String → Type 0}
      → (rows : List JobRow) (db : Db) → IsConsistent Late db
      → get_job db k ≡ some row
      → is_stale cutoff row ≡ true
      → Current cutoff db rows
      → is_in k (ids rows) ≡ true
      → IsSwept cutoff db (fail_stale now rows db) k row now true
  unfolding fail_stale
  member_round [] db before found stale h member = absurd (cc member)
  member_round (x ∷ rows) db before found stale h member = elim (Bool-cases (x.id == k)) [
    | inl q ↦
        let same : x ≡ row =
          let e = sym h.0 ∙ ap (get_job db) ((eq_iff x.id k).0 q) ∙ found in ground (arith, e) in
        subst (λ z. IsSwept cutoff db (fail_stale now (z ∷ rows) db) k row now true) (sym same)
          (first_round rows db before found stale
            (subst (λ z. Current cutoff db (z ∷ rows)) same h))
    | inr q ↦
        let (i, active) = is_stale-active cutoff x h.1 in
        let (s, there, of_row) = before.active x.id i x h.0 active in
        let ne : x.id ≢ k = λ p. cc (q, (eq_iff x.id k).1 p) in
        member_round rows (failed_one db x now)
          (fail_rows-IsConsistent db x.id i x s now before h.0 active there of_row)
          (ap (lookup k) (failed_one-jobs db x now)
            ∙ lookup-insert_ne x.id k (stale_job x now) db.jobs ne
            ∙ found)
          stale (Current-failed_one cutoff now db x rows h.2 h.3) (ground (arith, member, q))
  ]

  kept :
      {Late : String → Type 0}
      → (rows : List JobRow) (db : Db) (o : Option String) → IsConsistent Late db
      → get_job db k ≡ some row
      → Current cutoff db rows
      → Without k rows
      → row.active_run_id ≡ o
      → active_run (fail_stale now rows db) row ≡ active_run db row
  kept rows db none before found h ne a = rw a refl
  kept rows db (some j) before found h ne a =
      let (r, run, own) = before.active k j row found a in
      rw a (fail_stale-get_run cutoff now k rows db j r before h ne run own ∙ sym run)

-- The sweep of consistent tables fails exactly the stale jobs: of each it fails the active run,
-- clears it from the job, counts it and leaves the job failed, and no longer stale. A job that is
-- not stale, and its active run, stay as they are.
pub mark_stale_running_runs_failed-IsSwept :
    {Late : String → Type 0}
    → (db : Db) (cutoff now : ℕ) (k : String) (row : JobRow) → IsConsistent Late db
    → get_job db k ≡ some row
    → IsSwept cutoff db
        (mark_stale_running_runs_failed db cutoff now).1
        k
        row
        now
        (is_stale cutoff row)
unfolding mark_stale_running_runs_failed
mark_stale_running_runs_failed-IsSwept db cutoff now k row before found =
    let rows = keep_if (is_stale cutoff) (values db.jobs) in
    let in_db = IsDict-FoundIn db.jobs before.table in
    let current = selected-Current cutoff db before db.jobs in_db before.table in
    elim (Bool-cases (is_stale cutoff row)) [
      | inl s ↦ rw s (
          member_round cutoff now k row rows db before found s current
            (selected-Remaining cutoff db before db.jobs in_db k row found s))
      | inr s ↦
          let ne = fresh-Without cutoff db k row rows found s current in
          rw s (
            fail_stale-get_job cutoff now k rows db ne ∙ found,
            kept cutoff now k row rows db row.active_run_id before found current ne refl,
          )
    ]

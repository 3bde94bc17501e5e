-- ===== src/Jobs/Outcomes/Starts.antt =====
-- What `try_start_job_run` does on each branch, and two of its calls in a row.
use wotbot.Base.{
  ℕ, ◌+◌, String, ◌≡◌, inl, inr, Option-cases, refl, sym, ap, ◌∙◌, subst, Bool, true, false, not,
  ◌&&◌, ◌||◌, none, some, arith, Bool-cases, truthy, if◌then◌else◌,
}
use wotbot.Base.Dict.{lookup, insert, lookup-insert_self}
use wotbot.Json.{Json}
use wotbot.Jobs.Enums.{JobRunSource, JobRunStatus, is_manual}
use wotbot.Jobs.Records.{
  JobRow, RunRow, Db, key_error, Result, ok, err, get_job, get_run, add_run-new, locked_job_row,
  has_active_run,
}
use wotbot.Jobs.Start.{
  skipped_run, skipped_job, started_run, started_job, create_skipped_run, start_locked,
  try_start_job_run,
}
use wotbot.Jobs.Invariant.{IsConsistent}

-- A user may start a disabled job; nobody starts a job that has an active run.
abbrev pub may_start : JobRow → JobRunSource → Bool
may_start row source = (is_manual source || row.enabled) && not (has_active_run row)

-- What a call does to job `k`, given its row and that the drawn id `i` is new.
abbrev pub IsStart : Db → String → String → JobRow → JobRunSource → Result (RunRow × Db) → Type 0
IsStart db k i row source (err e) = ⊥
IsStart db k i row source (ok (r, db')) =
    (get_run db' i ≡ some r)
    × (r.status ≡ (if may_start row source then JobRunStatus.running else JobRunStatus.skipped))
    × ((row' : JobRow) × (get_job db' k ≡ some row')
        × (row'.id ≡ k)
        × (row'.active_run_id ≡ (if may_start row source then some i else row.active_run_id))
        × (row'.run_count ≡ (if may_start row source then row.run_count else row.run_count + 1)))

module _ (db : Db) (k i : String) (row : JobRow) (source : JobRunSource) (payload : Json) (now : ℕ)
    (found : get_job db k ≡ some row) (id' : row.id ≡ k) (new : get_run db i ≡ none) where
  saved : (row' : JobRow) → row'.id ≡ k → lookup k (insert row'.id row' db.jobs) ≡ some row'
  saved row' e =
      subst (λ z. lookup k (insert z row' db.jobs) ≡ some row') (sym e)
        (lookup-insert_self k row' db.jobs)

  skipped_kept :
      (reason : String) (shown : Bool)
      → ((skipped_job row i now reason shown).id ≡ k)
        × ((skipped_job row i now reason shown).active_run_id ≡ row.active_run_id)
        × ((skipped_job row i now reason shown).run_count ≡ row.run_count + 1)
  skipped_kept reason true = (id', refl, refl)
  skipped_kept reason false = (id', refl, refl)

  skipped-IsStart :
      (reason : String) (shown : Bool)
      → may_start row source ≡ false
      → IsStart db k i row source (create_skipped_run db row i source payload now reason shown)
  unfolding create_skipped_run
  skipped-IsStart reason shown refused =
      rw (add_run-new (skipped_run row i source payload now reason) db new) (
        rw refused (
          lookup-insert_self i (skipped_run row i source payload now reason) db.runs,
          refl,
          (
            skipped_job row i now reason shown,
            saved (skipped_job row i now reason shown) ((skipped_kept reason shown).0),
            (skipped_kept reason shown).0,
            (skipped_kept reason shown).1,
            (skipped_kept reason shown).2,
          ),
        ))

  started-IsStart :
      may_start row source ≡ true
      → IsStart db k i row source (start_locked db row i source payload now)
  unfolding start_locked
  started-IsStart allowed = rw (add_run-new (started_run row i source payload now) db new) (
      rw allowed (
        lookup-insert_self i (started_run row i source payload now) db.runs,
        refl,
        (started_job row i source now, saved (started_job row i source now) id', id', refl, refl),
      ))

  -- On a job that is there, with a run id that is new, a call returns and adds the run `i` that it
  -- returns. The run is running and becomes the active one if the job is enabled or the user asks,
  -- and the job has no active run; otherwise it is skipped and counted, and the active run stays.
  pub try_start_job_run-IsStart :
      IsStart db k i row source (try_start_job_run db k i source payload now)
  unfolding try_start_job_run locked_job_row
  try_start_job_run-IsStart =
      rw found (elim (Bool-cases (not (is_manual source) && not row.enabled)) [
        | inl off ↦ rw off (skipped-IsStart "Job is disabled." true (ground arith))
        | inr on ↦ rw on (elim (Bool-cases (has_active_run row)) [
          | inl busy ↦
              rw busy (skipped-IsStart "Job already has an active run." false (ground arith))
          | inr idle ↦ rw idle (started-IsStart (ground arith))
        ])
      ])

-- A result that skips and keeps run `i` the active one.
abbrev pub Skips : String → String → Result (RunRow × Db) → Type 0
Skips k i x =
    (s : RunRow) × (db' : Db) × (row : JobRow) × (x ≡ ok (s, db'))
    × (s.status ≡ JobRunStatus.skipped)
    × (get_job db' k ≡ some row)
    × (row.active_run_id ≡ some i)

busy-Skips :
    (db : Db) (k i j : String) (row : JobRow) (source : JobRunSource) (x : Result (RunRow × Db))
    → may_start row source ≡ false
    → row.active_run_id ≡ some i
    → IsStart db k j row source x
    → Skips k i x
busy-Skips db k i j row source (err e) refused a h = absurd h
busy-Skips db k i j row source (ok (s, db')) refused a (run, status, (row', found, id', a', n)) = (
  s,
  db',
  row',
  refl,
  status ∙ ap (λ b. if b then JobRunStatus.running else JobRunStatus.skipped) refused,
  found,
  a' ∙ ap (λ b. if b then some j else row.active_run_id) refused ∙ a,
)

busy_refused :
    (row : JobRow) (i : String) (source : JobRunSource)
    → truthy (some i) ≡ true
    → row.active_run_id ≡ some i
    → may_start row source ≡ false
unfolding has_active_run
busy_refused row i source named a = ground arith

found_of_ok :
    (db : Db) (k i : String) (source : JobRunSource) (payload : Json) (now : ℕ) (a : RunRow × Db)
    → try_start_job_run db k i source payload now ≡ ok a
    → (row : JobRow) × (get_job db k ≡ some row)
unfolding try_start_job_run locked_job_row
found_of_ok db k i source payload now a e = elim (Option-cases (get_job db k)) [
  | inl missing ↦ cc (e, missing_err missing)
  | inr found ↦ found
]
  where
    missing_err :
        get_job db k ≡ none → try_start_job_run db k i source payload now ≡ err (key_error k)
    missing_err h = rw h refl

-- While a started run is active, a further call for the job, whoever makes it, skips: it returns a
-- run that is skipped, and the started run stays the active one. Both run ids are new and the
-- first is not empty.
pub try_start_job_run-try_start_job_run :
    {Late : String → Type 0}
    → (db db₁ : Db) (k i j : String) (r : RunRow) (source source' : JobRunSource)
      (payload payload' : Json) (now now' : ℕ)
    → IsConsistent Late db
    → truthy (some i) ≡ true
    → get_run db i ≡ none
    → try_start_job_run db k i source payload now ≡ ok (r, db₁)
    → r.status ≡ JobRunStatus.running
    → get_run db₁ j ≡ none
    → Skips k i (try_start_job_run db₁ k j source' payload' now')
try_start_job_run-try_start_job_run db db₁ k i j r source source' payload payload' now now' before
      named new e is_started new' =
    let (row, found) = found_of_ok db k i source payload now (r, db₁) e in
    let (_, status, (row₁, found₁, id₁, a, _)) = subst (IsStart db k i row source) e (
      try_start_job_run-IsStart db k i row source payload now found (before.job_id k row found)
        new) in
    let active : row₁.active_run_id ≡ some i = ground (arith, a, status, is_started) in
    busy-Skips db₁ k i j row₁ source' _ (busy_refused row₁ i source' named active) active
      (try_start_job_run-IsStart db₁ k j row₁ source' payload' now' found₁ id₁ new')

-- ===== src/Jobs/Outcomes/Waiting.antt =====
-- A run that was cancelled or swept, and asks the user for input while another run of its job is in
-- progress.
use wotbot.Base.{ℕ, String, ◌≡◌, ◌≢◌, refl, sym, ap, ◌∙◌, true, none, some, subst, arith}
use wotbot.Base.Dict.{lookup, insert, lookup-insert_self, lookup-insert_ne}
use wotbot.Json.{Json}
use wotbot.Jobs.Enums.{JobRunStatus, in_progress, is_waiting, has_status}
use wotbot.Jobs.Records.{
  JobRow, RunRow, Db, ok, err, job_run_not_cancellable, get_job, get_run, save_job, locked_job_row,
}
use wotbot.Jobs.Events.{add_job_run_event}
use wotbot.Jobs.Cancel.{cancel_run_row, cancelled_job, cancel_locked, cancel_active_run}
use wotbot.Jobs.Finish.{
  Outcome, finished_run, waiting_job, apply_finished_run_to_job, finish_job_run,
}
use wotbot.Jobs.Invariant.{IsConsistent}
use wotbot.Jobs.Outcomes.Finishes.{finish_job_run-tables}

waiting_in_progress : (x : JobRunStatus) → is_waiting x ≡ true → in_progress x ≡ true
waiting_in_progress JobRunStatus.waiting_for_input h = refl
waiting_in_progress _ h = cc

-- What a cancel does to a job whose active run `j` is in progress, and to another run `i`.
cancels_active :
    (db : Db) (i j k : String) (row : JobRow) (y s : RunRow) (status : JobRunStatus) (now later : ℕ)
    → get_job db k ≡ some row
    → row.id ≡ k
    → row.active_run_id ≡ some j
    → row.last_run_status ≡ some status
    → in_progress status ≡ true
    → get_run db j ≡ some y
    → y.id ≡ j
    → get_run db i ≡ some s
    → j ≢ i
    → (z : JobRow) × (db' : Db) × (cancel_active_run db k now ≡ ok (z, db'))
      × (z.active_run_id ≡ none)
      × (get_run db' i ≡ some s)
      × (cancel_active_run db' k later ≡ err (job_run_not_cancellable k))
unfolding cancel_active_run locked_job_row cancel_locked cancel_run_row add_job_run_event
cancels_active db i j k row y s status now later found id' a last p there own other ne =
    let z = cancelled_job row now in
    let stopped : RunRow = record y {
      status = JobRunStatus.cancelled;
      error = some "Run cancelled by user.";
      finished_at = some now;
    } in
    let db' = save_job z (cancel_run_row db row (some y) now) in
    let cancels : cancel_locked db row row.active_run_id now ≡ ok (z, db') =
      rw a (rw (ap (has_status in_progress) last ∙ p) (rw there refl)) in
    let saved : get_job db' k ≡ some z =
      subst (λ i. lookup k (insert i z db.jobs) ≡ some z) (sym id')
        (lookup-insert_self k z db.jobs) in
    let differ : y.id ≢ i = λ q. ne (sym own ∙ q) in
    (
      z,
      db',
      rw found cancels,
      refl,
      lookup-insert_ne y.id i stopped db.runs differ ∙ other,
      rw saved (ap (λ n. err (job_run_not_cancellable n)) id'),
    )

module _ {Late : String → Type 0} (record_message : Json → String) (db : Db) (i j k : String)
    (o : Outcome) (now later last : ℕ) (row : JobRow) (r s : RunRow) (before : IsConsistent Late db)
    (found : get_job db k ≡ some row) (run : get_run db j ≡ some r) (own : r.job_id ≡ k)
    (active : row.active_run_id ≡ some i) (other : get_run db i ≡ some s)
    (busy : in_progress s.status ≡ true) (ne : j ≢ i) (waits : is_waiting o.status ≡ true) where
  abbrev after : Db
  after = finish_job_run record_message db j k o now

  abbrev row' : JobRow
  row' = waiting_job row (some (finished_run r o now)) j o now

  applied : apply_finished_run_to_job row (some (finished_run r o now)) j o now ≡ row'
  unfolding apply_finished_run_to_job
  applied = rw waits refl

  found' : get_job after k ≡ some row'
  found' =
      ap (lookup k) (
        (finish_job_run-tables record_message db j k o now row r before found run).0
        ∙ ap (λ w. insert k w db.jobs) applied)
      ∙ lookup-insert_self k row' db.jobs

  run' : get_run after j ≡ some (finished_run r o now)
  run' =
      ap (lookup j) ((finish_job_run-tables record_message db j k o now row r before found run).1)
      ∙ lookup-insert_self j (finished_run r o now) db.runs

  other' : get_run after i ≡ some s
  other' =
      ap (lookup i) ((finish_job_run-tables record_message db j k o now row r before found run).1)
      ∙ lookup-insert_ne j i (finished_run r o now) db.runs ne
      ∙ other

  -- A run of the job that is no longer its active one is left waiting, while the active run is in
  -- progress: the two are in progress then, both of the job, and the one that waits is the active
  -- one. A cancel stops that one only, and no second cancel is accepted: the run that was active is
  -- in progress still, and no call can cancel it.
  pub finish_job_run-waiting :
      (x : JobRow) × (y : RunRow) × (z : JobRow) × (db' : Db) × (get_job after k ≡ some x)
      × (x.active_run_id ≡ some j)
      × ((get_run after j ≡ some y) × (y.job_id ≡ k) × (in_progress y.status ≡ true))
      × ((get_run after i ≡ some s) × (s.job_id ≡ k) × (in_progress s.status ≡ true))
      × (cancel_active_run after k later ≡ ok (z, db'))
      × (get_run db' i ≡ some s)
      × (cancel_active_run db' k last ≡ err (job_run_not_cancellable k))
  finish_job_run-waiting =
      let fr = finished_run r o now in
      let (z, db', cancels, _, still, refused) =
        cancels_active after i j k row' fr s o.status later last found' (before.job_id k row found)
          refl refl (waiting_in_progress o.status waits) run' ((before.run_id j r run).0) other'
          ne in
      let (s', there, of_job) = before.active k i row found active in
      let same : s' ≡ s = ground (arith, there, other) in
      (
        row',
        fr,
        z,
        db',
        found',
        refl,
        (run', own, waiting_in_progress o.status waits),
        (other', ap (λ (w : RunRow). w.job_id) (sym same) ∙ of_job, busy),
        cancels,
        still,
        refused,
      )

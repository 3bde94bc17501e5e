-- ===== src/Jobs/Outcomes/Finishes.antt =====
-- What `_finish_job_run_sync` of jobs/stores/runs.py leaves, whether the run waits or has ended.
use wotbot.Base.{
  ℕ, ◌+◌, String, ◌≡◌, inl, inr, refl, ap, ap₂, ◌∙◌, none, some, arith, Bool-cases, if◌then◌else◌,
  opt_eq, str_or,
}
use wotbot.Base.Dict.{lookup, insert}
use wotbot.Json.{Json}
use wotbot.Jobs.Enums.{is_waiting}
use wotbot.Jobs.Records.{JobRow, RunRow, Db, get_job, get_run, save_run}
use wotbot.Jobs.Events.{add_finish_events-tables}
use wotbot.Jobs.Finish.{
  Outcome, finished_run, apply_finished_run_to_job, finish_run_row, finish_job_run,
}
use wotbot.Jobs.Invariant.{IsConsistent}

-- The run `x` as it is reported, of the job that `r` was of.
abbrev pub IsReported : Outcome → ℕ → RunRow → RunRow → Type 0
IsReported o now r x =
    (x.status ≡ o.status)
    × (x.error ≡ o.error)
    × (x.response_text ≡ o.response_text)
    × (x.result ≡ o.result)
    × (x.finished_at ≡ (if is_waiting o.status then none else some now))
    × (x.job_id ≡ r.job_id)

-- The job `y`, which was `row`, after the report of run `j`.
abbrev pub IsUpdated : String → Outcome → JobRow → JobRow → Type 0
IsUpdated j o row y =
    (y.last_run_status ≡ some o.status)
    × (y.last_run_id ≡ some j)
    × (y.active_run_id ≡ (
        if is_waiting o.status
        then some j
        else if opt_eq row.active_run_id j
        then none
        else row.active_run_id))
    × (y.run_count ≡ (if is_waiting o.status then row.run_count else row.run_count + 1))
    × (y.waiting_question
        ≡ (if is_waiting o.status then str_or o.waiting_question o.response_text else none))

module _ {Late : String → Type 0} (record_message : Json → String) (db : Db) (j k : String)
    (o : Outcome) (now : ℕ) (row : JobRow) (r : RunRow) (before : IsConsistent Late db)
    (found : get_job db k ≡ some row) (run : get_run db j ≡ some r) where
  abbrev row' : JobRow
  row' = apply_finished_run_to_job row (some (finished_run r o now)) j o now

  same_id : row'.id ≡ k
  unfolding apply_finished_run_to_job
  same_id = ground (arith, before.job_id k row found)

  pub finish_job_run-tables :
      ((finish_job_run record_message db j k o now).jobs ≡ insert k row' db.jobs)
      × ((finish_job_run record_message db j k o now).runs
          ≡ insert j (finished_run r o now) db.runs)
  unfolding finish_job_run finish_run_row
  finish_job_run-tables =
      let fr = finished_run r o now in
      let db₁ = finish_run_row record_message db (some r) k j o now in
      let t =
        add_finish_events-tables record_message (save_run fr db) k j now o.status o.error
          o.response_text o.result o.waiting_question in
      let there : get_job db₁ k ≡ some row = ap (lookup k) (t.0) ∙ found in
      rw run (
        rw there (
          ap₂ (λ z d. insert z row' d) same_id (t.0),
          t.1 ∙ ap (λ z. insert z fr db.runs) ((before.run_id j r run).0),
        ))

  updated : IsUpdated j o row row'
  unfolding apply_finished_run_to_job
  updated = elim (Bool-cases (is_waiting o.status)) [
    | inl w ↦ rw w (refl, refl, refl, refl, refl)
    | inr w ↦ rw w (ground arith, ground arith, ground arith, ground arith, ground arith)
  ]

  -- The report of a run replaces one run and one job. The run has the reported status, error,
  -- response and result, and an end unless it waits for the user. The job names the run as its last
  -- one. If the run waits it becomes the active one, and is not counted; if it has ended it is
  -- counted, and the active run is cleared if it was this one and stays otherwise.
  pub finish_job_run-IsFinish :
      (x : RunRow) × (y : JobRow) × ((finish_job_run record_message db j k o now).runs
        ≡ insert j x db.runs)
      × ((finish_job_run record_message db j k o now).jobs ≡ insert k y db.jobs)
      × IsReported o now r x
      × IsUpdated j o row y
  finish_job_run-IsFinish = (
    finished_run r o now,
    row',
    finish_job_run-tables.1,
    finish_job_run-tables.0,
    (refl, refl, refl, refl, refl, refl),
    updated,
  )

-- ===== src/Jobs/Invariant/Finishing.antt =====
-- Finishing a run keeps the tables consistent, if the executor finishes the run of the job that it
-- was started for, and the job is late if a run is left waiting that is not its active one.
use wotbot.Base.{
  ℕ, String, ◌≡◌, ◌≢◌, ◌⊎◌, inl, inr, refl, sym, ap, ap₂, ◌∙◌, true, false, some, arith, Bool-cases,
  opt_eq, eq_iff, subst,
}
use wotbot.Base.Dict.{lookup, insert}
use wotbot.Json.{Json}
use wotbot.Jobs.Enums.{JobRunStatus, in_progress, is_waiting, is_running}
use wotbot.Jobs.Records.{JobRow, RunRow, Db, get_job, get_run, save_job, save_run}
use wotbot.Jobs.Events.{add_finish_events-tables}
use wotbot.Jobs.Finish.{
  Outcome, finished_run, waiting_job, ended_job, apply_finished_run_to_job, finish_run_row,
  finish_job_run,
}
use wotbot.Jobs.Invariant.{IsTidy, IsConsistent, Respects, Respects-IsConsistent}

ended_progress :
    (s : JobRunStatus) → is_running s ≡ false → is_waiting s ≡ false → in_progress s ≡ false
ended_progress JobRunStatus.running r w = cc
ended_progress JobRunStatus.waiting_for_input r w = cc
ended_progress _ r w = refl

-- An ended run is not active afterwards; another active run stays.
ended_job-active :
    (row : JobRow) (j : String) (o : Outcome) (now : ℕ) (i : String)
    → (ended_job row j o now).active_run_id ≡ some i
    → (j ≢ i) × (row.active_run_id ≡ some i)
ended_job-active row j o now i h = (λ p. ended_ne h p, ground (arith, eq_iff i j))
  where
    ended_ne : (ended_job row j o now).active_run_id ≡ some i → j ≢ i
    ended_ne e p = ground (arith, eq_iff i j)

ended_job-others :
    (row : JobRow) (j : String) (o : Outcome) (now : ℕ) (i : String)
    → j ≢ i
    → row.active_run_id ≡ some i
    → (ended_job row j o now).active_run_id ≡ some i
ended_job-others row j o now i ne h = ground (arith, eq_iff i j)

ended_job-IsTidy :
    (row : JobRow) (j : String) (o : Outcome) (now : ℕ)
    → in_progress o.status ≡ false
    → IsTidy row
    → IsTidy (ended_job row j o now)
ended_job-IsTidy row j o now ended tidy = elim (Bool-cases (opt_eq row.active_run_id j)) [
  | inl e ↦ rw e (record { busy = λ h. cc (h, ended); idle = λ _. (refl, refl) })
  | inr e ↦ rw e (record { busy = λ h. cc (h, ended); idle = tidy.idle })
]

module _ {Late : String → Type 0} (db : Db) (k j : String) (row : JobRow) (r : RunRow) (o : Outcome)
    (now : ℕ) (before : IsConsistent Late db) (found : get_job db k ≡ some row)
    (run : get_run db j ≡ some r) (own : r.job_id ≡ k) (stops : is_running o.status ≡ false) where
  same_run : (x : RunRow) → get_run db j ≡ some x → x.job_id ≡ k
  same_run x h = ap (λ (z : RunRow). z.job_id) (let e : x ≡ r = ground (arith, h, run) in e) ∙ own

  ended-Respects :
      is_waiting o.status ≡ false
      → Respects Late db k j row (ended_job row j o now) (finished_run r o now)
  ended-Respects w =
      let ended = ended_progress o.status stops w in
      record {
        found = found;
        job_id = ground (arith, before.job_id k row found);
        run_id = before.run_id j r run;
        owner = own;
        tidy = ended_job-IsTidy row j o now ended (before.tidy k row found);
        same_owner = same_run;
        active = λ i h. inr ((ended_job-active row j o now i h).1);
        progress = λ h. cc (h, ended);
        others = λ i x ne h pr a. inr (ended_job-others row j o now i ne a);
      }

  -- The run that was active stays so if it is the one that waits; else the job is late.
  kept_turn :
      (i : String)
      → row.active_run_id ≡ some i
      → j ≢ i
      → Late k ⊎ (row.active_run_id ≡ some j)
      → Late k ⊎ ((waiting_job row (some (finished_run r o now)) j o now).active_run_id ≡ some i)
  kept_turn i b ne (inl late) = inl late
  kept_turn i b ne (inr a) = absurd (ne (cc (a, b)))

  waiting-Respects :
      Late k ⊎ (row.active_run_id ≡ some j)
      → is_waiting o.status ≡ true
      → Respects Late db k j row
          (waiting_job row (some (finished_run r o now)) j o now)
          (finished_run r o now)
  waiting-Respects a w = record {
    found = found;
    job_id = before.job_id k row found;
    run_id = before.run_id j r run;
    owner = own;
    tidy = record { busy = λ _. (before.run_id j r run).1; idle = λ h. cc };
    same_owner = same_run;
    active = λ i h. inl (ground arith);
    progress = λ _. refl;
    others = λ i x ne h pr b. kept_turn i b ne a;
  }

  applied-Respects :
      (is_waiting o.status ≡ true → Late k ⊎ (row.active_run_id ≡ some j))
      → Respects Late db k j row
          (apply_finished_run_to_job row (some (finished_run r o now)) j o now)
          (finished_run r o now)
  unfolding apply_finished_run_to_job
  applied-Respects turn = elim (Bool-cases (is_waiting o.status)) [
    | inl w ↦ with_row (rw w) (waiting-Respects (turn w) w)
    | inr w ↦ with_row (rw w) (ended-Respects w)
  ]
    where
      with_row :
          {row' : JobRow}
          → apply_finished_run_to_job row (some (finished_run r o now)) j o now ≡ row'
          → Respects Late db k j row row' (finished_run r o now)
          → Respects Late db k j row
              (apply_finished_run_to_job row (some (finished_run r o now)) j o now)
              (finished_run r o now)
      with_row e h = subst (λ x. Respects Late db k j row x (finished_run r o now)) (sym e) h

  applied-id : (apply_finished_run_to_job row (some (finished_run r o now)) j o now).id ≡ row.id
  unfolding apply_finished_run_to_job
  applied-id = ground arith

pub finish_job_run-IsConsistent :
    {Late : String → Type 0}
    → (record_message : Json → String) (db : Db) (run_id job_id : String) (o : Outcome) (now : ℕ)
      (row : JobRow) (r : RunRow)
    → IsConsistent Late db
    → get_job db job_id ≡ some row
    → get_run db run_id ≡ some r
    → r.job_id ≡ job_id
    → is_running o.status ≡ false
    → (is_waiting o.status ≡ true → Late job_id ⊎ (row.active_run_id ≡ some run_id))
    → IsConsistent Late (finish_job_run record_message db run_id job_id o now)
unfolding finish_job_run
finish_job_run-IsConsistent record_message db run_id job_id o now row r before found run own stops
      turn =
    let fr = finished_run r o now in
    let row' = apply_finished_run_to_job row (some fr) run_id o now in
    let db₁ = finish_run_row record_message db (some r) job_id run_id o now in
    let t =
      add_finish_events-tables record_message (save_run fr db) job_id run_id now o.status o.error
        o.response_text o.result o.waiting_question in
    let there : get_job db₁ job_id ≡ some row = ap (lookup job_id) (t.0) ∙ found in
    let id' =
      applied-id db job_id run_id row r o now before found run own stops
      ∙ before.job_id job_id row found in
    rw run (
      rw there (
        Respects-IsConsistent db (save_job row' db₁) job_id run_id row row' fr
          (ap₂ (λ z d. insert z row' d) id' (t.0))
          (t.1 ∙ ap (λ z. insert z fr db.runs) ((before.run_id run_id r run).0)) before
          (applied-Respects db job_id run_id row r o now before found run own stops turn)))

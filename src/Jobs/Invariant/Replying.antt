-- ===== src/Jobs/Invariant/Replying.antt =====
-- A reply to the waiting run keeps the tables consistent.
use wotbot.Base.{
  ℕ, String, ◌≡◌, inl, inr, refl, sym, ap, ◌∙◌, true, Option, some, arith, Bool-cases, Option-cases,
  truthy, str_or, if◌then◌else◌,
}
use wotbot.Base.Dict.{insert}
use wotbot.Json.{Json}
use wotbot.Jobs.Enums.{is_waiting, has_status}
use wotbot.Jobs.Records.{
  JobRow, RunRow, Db, Result, ok, err, ◌>>=◌, get_job, get_run, active_or_last_run_id,
  required_run_row,
}
use wotbot.Jobs.Reply.{
  replied_run, replied_job, reply_trigger_payload, accept_reply, is_duplicate, start_reply_job_run,
  normalize_client_reply_id, duplicate_reply_run,
}
use wotbot.Jobs.Invariant.{IsTidy, IsConsistent, CommitsConsistent, Respects, Respects-IsConsistent}

-- A waiting job replies to its active run.
active_or_last_run_id-waiting :
    (row : JobRow) (key j : String)
    → IsTidy row
    → has_status is_waiting row.last_run_status ≡ true
    → active_or_last_run_id row key ≡ ok j
    → row.active_run_id ≡ some j
unfolding active_or_last_run_id
active_or_last_run_id-waiting row key j tidy waits e = ground (arith, tidy.busy)

module _ {Late : String → Type 0} (iso : ℕ → String) (db : Db) (k j : String) (row : JobRow)
    (r : RunRow) (message : String) (reply_id previous : Option String) (now : ℕ)
    (before : IsConsistent Late db) (found : get_job db k ≡ some row) (run : get_run db j ≡ some r)
    (target : has_status is_waiting row.last_run_status ≡ true → row.active_run_id ≡ some j) where
  replied-Respects :
      (payload : Json)
      → row.active_run_id ≡ some j
      → Respects Late db k j row (replied_job row r now) (replied_run r payload)
  replied-Respects payload a =
      let (x, h, own) = before.active k j row found a in
      let is_j = (before.run_id j r run).0 in
      let same : x ≡ r = ground (arith, h, run) in
      record {
        found = found;
        job_id = before.job_id k row found;
        run_id = before.run_id j r run;
        owner = ap (λ (z : RunRow). z.job_id) (sym same) ∙ own;
        tidy = record {
          busy = λ _. ap (λ z. truthy (some z)) is_j ∙ (before.run_id j r run).1;
          idle = λ h. cc;
        };
        same_owner = λ y h'.
            ap (λ (z : RunRow). z.job_id) (let e : y ≡ x = ground (arith, h, h') in e) ∙ own;
        active = λ i h'. inr (ground (arith, is_j, a));
        progress = λ _. ap some is_j;
        others = λ i y ne h' pr b. absurd (ne (cc (a, b)));
      }

  accept_reply-Consistent :
      CommitsConsistent Late (accept_reply iso db row r message reply_id previous now)
  unfolding accept_reply
  accept_reply-Consistent = elim (Bool-cases (has_status is_waiting row.last_run_status)) [
    | inr no_wait ↦ rw no_wait tt
    | inl waits ↦ rw waits (
        let payload =
          reply_trigger_payload iso r message reply_id
            (str_or previous (str_or row.active_run_id row.last_run_id)) now in
        Respects-IsConsistent db _ k j row (replied_job row r now) (replied_run r payload)
          (ap (λ z. insert z (replied_job row r now) db.jobs) (before.job_id k row found))
          (ap (λ z. insert z (replied_run r payload) db.runs) ((before.run_id j r run).0)) before
          (replied-Respects payload (target waits)))
  ]

pub start_reply_job_run-IsConsistent :
    {Late : String → Type 0}
    → (iso : ℕ → String) (db : Db) (job_id message : String)
      (client_reply_id previous_run_id : Option String) (now : ℕ)
    → IsConsistent Late db
    → CommitsConsistent Late
        (start_reply_job_run iso db job_id message client_reply_id previous_run_id now)
unfolding start_reply_job_run
start_reply_job_run-IsConsistent {Late} iso db job_id message client_reply_id previous_run_id now
      before =
    elim (Option-cases (get_job db job_id)) [
      | inl e ↦ rw e tt
      | inr (row, e) ↦ rw e (with_run row e (active_or_last_run_id row job_id) refl)
    ]
  where
    reply_id : Option String
    reply_id = normalize_client_reply_id client_reply_id

    answer : RunRow → JobRow → Result (RunRow × Db)
    answer run row =
        if is_duplicate run reply_id
        then ok (duplicate_reply_run run, db)
        else accept_reply iso db row run message reply_id previous_run_id now

    with_row :
        (row : JobRow) (j : String)
        → get_job db job_id ≡ some row
        → active_or_last_run_id row job_id ≡ ok j
        → CommitsConsistent Late (required_run_row db j >>= λ run. answer run row)
    with_row row j e t = elim (Option-cases (get_run db j)) [
      | inl none_there ↦ rw none_there tt
      | inr (r, there) ↦ rw there (elim (Bool-cases (is_duplicate r reply_id)) [
        | inl twice ↦ rw twice before
        | inr once ↦ rw once (
            accept_reply-Consistent iso db job_id j row r message reply_id previous_run_id now
              before e there
              (λ w. active_or_last_run_id-waiting row job_id j (before.tidy job_id row e) w t))
      ])
    ]

    with_run :
        (row : JobRow)
        → get_job db job_id ≡ some row
        → (o : Result String) → active_or_last_run_id row job_id ≡ o
        → CommitsConsistent Late (o >>= λ j. required_run_row db j >>= λ run. answer run row)
    with_run row e (err x) t = tt
    with_run row e (ok j) t = with_row row j e t

-- ===== src/Jobs/Outcomes/Replies.antt =====
-- Replies to a job, and the second delivery of a reply with a client id.
use wotbot.Base.{
  ℕ, String, ◌≡◌, inl, inr, refl, sym, ap, ◌∙◌, subst, true, Option, some, [], ◌∷◌, arith,
  Bool-cases, Option-cases, truthy, str_or, if◌then◌else◌,
}
use wotbot.Base.Dict.{lookup, insert, lookup-insert_self}
use wotbot.Json.{Json, dict, opt_str}
use wotbot.Jobs.Enums.{JobRunEventType, is_waiting, has_status}
use wotbot.Jobs.Records.{
  JobRow, RunRow, Db, Result, ok, err, ◌>>=◌, get_job, get_run, save_job, save_run, locked_job_row,
  active_or_last_run_id, required_run_row,
}
use wotbot.Jobs.Events.{add_job_run_event}
use wotbot.Jobs.Reply.{
  replied_run, replied_job, reply_trigger_payload, accept_reply, is_duplicate, start_reply_job_run,
  normalize_client_reply_id, has_client_reply_id, duplicate_reply_run,
}
use wotbot.Jobs.Finish.{Outcome, finish_job_run}
use wotbot.Jobs.Invariant.{IsConsistent, CommitsConsistent}
use wotbot.Jobs.Invariant.Replying.{start_reply_job_run-IsConsistent}
use wotbot.Jobs.Outcomes.Held.{
  has_client_reply_id-reply_trigger_payload, Repeats, Refuses, no_target-Refuses, IsHeld,
  AnswersHeld, IsHeld-Repeats, IsHeld-finish_job_run,
}

-- What a reply to job `k` of the tables `before` leaves: an answered one is a duplicate from then
-- on, also after a report of the run.
abbrev pub IsAnswered :
    Db → (ℕ → String) → (Json → String) → String → Option String → Result (RunRow × Db) → Type 0
IsAnswered before iso record_message k client_reply_id (err e) = Refuses before k
IsAnswered before iso record_message k client_reply_id (ok (answer, db)) =
    Repeats iso k client_reply_id db answer.id
    × ((o : Outcome) (now : ℕ)
        → Repeats iso k client_reply_id (finish_job_run record_message db answer.id k o now)
            answer.id)

AnswersHeld-IsAnswered :
    (Late : String → Type 0) (before : Db) (iso : ℕ → String) (record_message : Json → String)
    (k id : String) (client_reply_id : Option String) (r : Result (RunRow × Db))
    → normalize_client_reply_id client_reply_id ≡ some id
    → CommitsConsistent Late r
    → AnswersHeld before k id r
    → IsAnswered before iso record_message k client_reply_id r
AnswersHeld-IsAnswered Late before iso record_message k id client_reply_id (err e) norm after held =
    held
AnswersHeld-IsAnswered Late before iso record_message k id client_reply_id (ok (answer, db)) norm
      after held =
    (
      IsHeld-Repeats iso db k id answer.id client_reply_id norm held,
      λ o now.
          IsHeld-Repeats iso (finish_job_run record_message db answer.id k o now) k id answer.id
            client_reply_id norm
            (IsHeld-finish_job_run record_message db k id answer.id o now after held),
    )

module _ {Late : String → Type 0} (iso : ℕ → String) (db : Db) (k j : String) (row : JobRow)
    (run : RunRow) (message id : String) (previous : Option String) (now : ℕ)
    (before : IsConsistent Late db) (found : get_job db k ≡ some row)
    (target : active_or_last_run_id row k ≡ ok j) (there : get_run db j ≡ some run) where
  duplicate-AnswersHeld :
      has_client_reply_id run.trigger_payload id ≡ true
      → AnswersHeld db k id (ok (duplicate_reply_run run, db))
  unfolding duplicate_reply_run
  duplicate-AnswersHeld held =
      subst (IsHeld db k id) (sym ((before.run_id j run there).0))
        (row, run, found, target, there, held)

  replied_target : active_or_last_run_id (replied_job row run now) k ≡ ok run.id
  unfolding active_or_last_run_id
  replied_target =
      let named : truthy (some run.id) ≡ true =
        ap (λ z. truthy (some z)) ((before.run_id j run there).0) ∙ (before.run_id j run there).1 in
      ground (arith, named)

  accepted-AnswersHeld :
      AnswersHeld db k id (accept_reply iso db row run message (some id) previous now)
  unfolding accept_reply add_job_run_event
  accepted-AnswersHeld = elim (Bool-cases (has_status is_waiting row.last_run_status)) [
    | inr w ↦ rw w (λ row₂ found₂. ground (arith, found, found₂, w))
    | inl w ↦ rw w (
        let previous' = str_or previous (str_or row.active_run_id row.last_run_id) in
        let run' =
          replied_run run (reply_trigger_payload iso run message (some id) previous' now) in
        let row' = replied_job row run now in
        let db' : Db = save_job row' (
          add_job_run_event (save_run run' db) row.id run.id JobRunEventType.user_reply now
            (some message)
            (some (
              dict (
                ("client_reply_id", opt_str (some id))
                ∷ ("previous_run_id", opt_str previous')
                ∷ [])))) in
        let found' : get_job db' k ≡ some row' =
          subst (λ z. lookup k (insert z row' db.jobs) ≡ some row')
            (sym (before.job_id k row found)) (lookup-insert_self k row' db.jobs) in
        let there' : get_run db' run.id ≡ some run' = lookup-insert_self run.id run' db.runs in
        (
          row',
          run',
          found',
          replied_target,
          there',
          has_client_reply_id-reply_trigger_payload iso run message id previous' now,
        ))
  ]

start_reply_job_run-AnswersHeld :
    {Late : String → Type 0}
    → (iso : ℕ → String) (db : Db) (k message id : String)
      (client_reply_id previous : Option String) (now : ℕ)
    → IsConsistent Late db
    → normalize_client_reply_id client_reply_id ≡ some id
    → AnswersHeld db k id (start_reply_job_run iso db k message client_reply_id previous now)
unfolding start_reply_job_run locked_job_row required_run_row
start_reply_job_run-AnswersHeld iso db k message id client_reply_id previous now before norm =
    rw norm (elim (Option-cases (get_job db k)) [
      | inl e ↦ rw e (λ row found. absurd (cc))
      | inr (row, found) ↦ rw found (with_target row found (active_or_last_run_id row k) refl)
    ])
  where
    answer : JobRow → RunRow → Result (RunRow × Db)
    answer row run =
        if is_duplicate run (some id)
        then ok (duplicate_reply_run run, db)
        else accept_reply iso db row run message (some id) previous now

    with_run :
        (row : JobRow) (j : String)
        → get_job db k ≡ some row
        → active_or_last_run_id row k ≡ ok j
        → AnswersHeld db k id (required_run_row db j >>= answer row)
    with_run row j found target = elim (Option-cases (get_run db j)) [
      | inl e ↦ rw e (no_target-Refuses db k before (λ row₂ j₂ run₂ found₂ target₂ there₂. cc))
      | inr (run, there) ↦
          rw there (elim (Bool-cases (has_client_reply_id run.trigger_payload id)) [
            | inl held ↦ rw held (
                duplicate-AnswersHeld iso db k j row run message id previous now before found target
                  there held)
            | inr new ↦ rw new (
                accepted-AnswersHeld iso db k j row run message id previous now before found target
                  there)
          ])
    ]

    with_target :
        (row : JobRow)
        → get_job db k ≡ some row
        → (o : Result String) → active_or_last_run_id row k ≡ o
        → AnswersHeld db k id (o >>= λ j. required_run_row db j >>= answer row)
    with_target row found (err x) t =
        no_target-Refuses db k before (λ row₂ j₂ run₂ found₂ target₂ there₂. cc)
    with_target row found (ok j) t = with_run row j found t

-- A reply with a client id is refused only if the job is missing or does not wait for the user. If
-- it is answered, a later delivery of the same id to the job is answered with the same run, marked
-- as a duplicate, and changes no table, whatever its message and its time: both when no transaction
-- comes between the two deliveries and when a report of this run, with any outcome, is the only one.
pub start_reply_job_run-IsAnswered :
    {Late : String → Type 0}
    → (iso : ℕ → String) (record_message : Json → String) (db : Db) (k message id : String)
      (client_reply_id previous : Option String) (now : ℕ)
    → IsConsistent Late db
    → normalize_client_reply_id client_reply_id ≡ some id
    → IsAnswered db iso record_message k client_reply_id
        (start_reply_job_run iso db k message client_reply_id previous now)
start_reply_job_run-IsAnswered {Late} iso record_message db k message id client_reply_id previous
      now before norm =
    AnswersHeld-IsAnswered Late db iso record_message k id client_reply_id
      (start_reply_job_run iso db k message client_reply_id previous now) norm
      (start_reply_job_run-IsConsistent iso db k message client_reply_id previous now before)
      (start_reply_job_run-AnswersHeld iso db k message id client_reply_id previous now before norm)

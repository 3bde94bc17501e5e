-- ===== src/Jobs/Outcomes/Held.antt =====
-- The id of a reply in the payload of a run, before and after a report of that run.
use wotbot.Base.{
  ℕ, String, ◌≡◌, inl, inr, refl, ap, ◌∙◌, Bool, true, Option, some, List, [], ◌∷◌, ◌++◌, arith,
  any, false, Bool-cases, Option-cases, truthy, ==_self,
}
use wotbot.Base.Dict.{Dict, lookup, insert, lookup-insert_self}
use wotbot.Json.{
  Json, str, get, as_dict, as_list, dict, list, opt_str, to_dict-of_dict, to_list-of_list,
}
use wotbot.Jobs.Enums.{JobRunStatus, is_waiting, in_progress, has_status}
use wotbot.Jobs.Records.{
  JobRow, RunRow, Db, Result, ok, err, get_job, get_run, locked_job_row, active_or_last_run_id,
  required_run_row,
}
use wotbot.Jobs.Reply.{
  reply_is, reply_trigger_payload, start_reply_job_run, normalize_client_reply_id,
  has_client_reply_id, duplicate_reply_run,
}
use wotbot.Jobs.Finish.{Outcome, finished_run, apply_finished_run_to_job, finish_job_run}
use wotbot.Jobs.Outcomes.Finishes.{finish_job_run-tables}
use wotbot.Jobs.Invariant.{IsConsistent}

any-last {ℓ} :
    {A : Type ℓ} (test : A → Bool) (xs : List A) (x : A)
    → test x ≡ true
    → any test (xs ++ x ∷ []) ≡ true
any-last test [] x h = rw h refl
any-last test (y ∷ ys) x h = ground (arith, any-last test ys x h)

searched_replies :
    (d : Dict Json) (replies : List Json) (id : String)
    → has_client_reply_id (dict (insert "replies" (list replies) d)) id ≡ any (reply_is id) replies
unfolding has_client_reply_id get
searched_replies d replies id =
    rw (to_dict-of_dict (insert "replies" (list replies) d))
      (rw (lookup-insert_self "replies" (list replies) d) (rw (to_list-of_list replies) refl))

-- The payload of an accepted reply holds its id.
pub has_client_reply_id-reply_trigger_payload :
    (iso : ℕ → String) (run : RunRow) (message id : String) (previous : Option String) (now : ℕ)
    → has_client_reply_id (reply_trigger_payload iso run message (some id) previous now) id ≡ true
unfolding reply_trigger_payload get lookup
has_client_reply_id-reply_trigger_payload iso run message id previous now =
    let current = as_dict run.trigger_payload in
    let reply = dict (
      ("message", str message)
      ∷ ("client_reply_id", opt_str (some id))
      ∷ ("received_at", str (iso now))
      ∷ ("previous_run_id", opt_str previous)
      ∷ []) in
    let rest =
      insert "latest_reply_at" (str (iso now)) (insert "latest_reply" (str message) current) in
    searched_replies rest (as_list (get "replies" current) ++ reply ∷ []) id
    ∙ any-last (reply_is id) (as_list (get "replies" current)) reply (==_self id)

module _ (iso : ℕ → String) (db : Db) (k j : String) (row : JobRow) (run : RunRow)
    (found : get_job db k ≡ some row) (target : active_or_last_run_id row k ≡ ok j)
    (there : get_run db j ≡ some run) where
  -- A reply whose id the payload holds is answered with the run, and changes nothing.
  duplicate_answer :
      (message id : String) (client_reply_id previous : Option String) (now : ℕ)
      → normalize_client_reply_id client_reply_id ≡ some id
      → has_client_reply_id run.trigger_payload id ≡ true
      → start_reply_job_run iso db k message client_reply_id previous now
        ≡ ok (duplicate_reply_run run, db)
  unfolding start_reply_job_run locked_job_row required_run_row
  duplicate_answer message id client_reply_id previous now norm held =
      rw norm (rw found (rw target (rw there (rw held refl))))

-- A reply with the id, delivered now, is answered with run `j`, marked as a duplicate.
abbrev pub Repeats : (ℕ → String) → String → Option String → Db → String → Type 0
Repeats iso k client_reply_id db j =
    (message : String) (previous : Option String) (now : ℕ)
    → (run : RunRow) × (get_run db j ≡ some run)
      × (start_reply_job_run iso db k message client_reply_id previous now
          ≡ ok (duplicate_reply_run run, db))

-- Run `j`, the one that a reply to job `k` goes to, holds the id.
abbrev pub IsHeld : Db → String → String → String → Type 0
IsHeld db k id j =
    (row : JobRow) × (run : RunRow) × (get_job db k ≡ some row)
    × (active_or_last_run_id row k ≡ ok j)
    × (get_run db j ≡ some run)
    × (has_client_reply_id run.trigger_payload id ≡ true)

-- Job `k`, if it is there, does not wait for the user.
abbrev pub Refuses : Db → String → Type 0
Refuses db k =
    (row : JobRow) → get_job db k ≡ some row → has_status is_waiting row.last_run_status ≡ false

-- The answer to a reply to job `k` of the tables `before`.
abbrev pub AnswersHeld : Db → String → String → Result (RunRow × Db) → Type 0
AnswersHeld before k id (err e) = Refuses before k
AnswersHeld before k id (ok (answer, db)) = IsHeld db k id answer.id

busy_if_waiting :
    (s : Option JobRunStatus) → has_status is_waiting s ≡ true → has_status in_progress s ≡ true
busy_if_waiting s h = ground arith

-- A job that waits for the user has a run that a reply goes to.
waiting_target :
    {Late : String → Type 0} (db : Db) (k : String) (row : JobRow)
    → IsConsistent Late db
    → get_job db k ≡ some row
    → has_status is_waiting row.last_run_status ≡ true
    → (j : String) × (run : RunRow) × (active_or_last_run_id row k ≡ ok j)
      × (get_run db j ≡ some run)
unfolding active_or_last_run_id
waiting_target db k row before found waits =
    let named = (before.tidy k row found).busy (busy_if_waiting row.last_run_status waits) in
    elim (Option-cases row.active_run_id) [
      | inl idle ↦ absurd (ground (arith, named, idle))
      | inr (i, active) ↦
          let (run, there, own) = before.active k i row found active in
          (i, run, ground (arith, named, active), there)
    ]

-- A job that has no run for a reply refuses it.
pub no_target-Refuses :
    {Late : String → Type 0} (db : Db) (k : String)
    → IsConsistent Late db
    → ((row : JobRow) (j : String) (run : RunRow)
        → get_job db k ≡ some row
        → active_or_last_run_id row k ≡ ok j
        → get_run db j ≡ some run
        → ⊥)
    → Refuses db k
no_target-Refuses db k before absent = λ row found.
    elim (Bool-cases (has_status is_waiting row.last_run_status)) [
      | inr idle ↦ idle
      | inl waits ↦
          let (j, run, target, there) = waiting_target db k row before found waits in
          absurd (absent row j run found target there)
    ]

pub IsHeld-Repeats :
    (iso : ℕ → String) (db : Db) (k id j : String) (client_reply_id : Option String)
    → normalize_client_reply_id client_reply_id ≡ some id
    → IsHeld db k id j
    → Repeats iso k client_reply_id db j
IsHeld-Repeats iso db k id j client_reply_id norm (row, run, found, target, there, held) = λ m p t.
    (
      run,
      there,
      duplicate_answer iso db k j row run found target there m id client_reply_id p t norm held,
    )

-- A reply goes to the same run after a report of that run.
reported_target :
    (row : JobRow) (run : Option RunRow) (k j : String) (o : Outcome) (now : ℕ)
    → truthy (some j) ≡ true
    → ((i : String) → row.active_run_id ≡ some i → truthy (some i) ≡ true)
    → active_or_last_run_id row k ≡ ok j
    → active_or_last_run_id (apply_finished_run_to_job row run j o now) k ≡ ok j
unfolding active_or_last_run_id apply_finished_run_to_job
reported_target row run k j o now named actives target = elim (Bool-cases (is_waiting o.status)) [
  | inl w ↦ rw w (ground (arith, named))
  | inr w ↦ rw w (elim (Option-cases row.active_run_id) [
    | inl none_active ↦ ground (arith, named, none_active)
    | inr (i, active) ↦ ground (arith, named, active, actives i active)
  ])
]

pub IsHeld-finish_job_run :
    {Late : String → Type 0} (record_message : Json → String) (db : Db) (k id j : String)
    (o : Outcome) (now : ℕ)
    → IsConsistent Late db
    → IsHeld db k id j
    → IsHeld (finish_job_run record_message db j k o now) k id j
IsHeld-finish_job_run record_message db k id j o now before (row, r, found, target, there, held) =
    let tables = finish_job_run-tables record_message db j k o now row r before found there in
    let named : (i : String) → row.active_run_id ≡ some i → truthy (some i) ≡ true = λ i active.
      let (x, there', own) = before.active k i row found active in (before.run_id i x there').1 in
    let fr = finished_run r o now in
    let row' = apply_finished_run_to_job row (some fr) j o now in
    (
      row',
      fr,
      ap (lookup k) (tables.0) ∙ lookup-insert_self k row' db.jobs,
      reported_target row (some fr) k j o now ((before.run_id j r there).1) named target,
      ap (lookup j) (tables.1) ∙ lookup-insert_self j fr db.runs,
      held,
    )

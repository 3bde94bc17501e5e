-- ===== src/Agent/Trim/Whole.antt =====
-- Trimming drops whole units. The prompt is paired, if no result in the conversation answers a call
-- that is not there.
use wotbot.Base.{
  ℕ, Bool, true, false, not, ◌||◌, List, [], ◌∷◌, map, reverse, leb, keep_if, All, All-append,
  Bool-cases, inl, inr, ◌+◌,
}
use mathlib.Core.List.{reverse-cons}
use wotbot.Agent.Messages.{Message, human, system, ai, tool}
use wotbot.Agent.Sanitize.{sanitize}
use wotbot.Agent.Sanitize.Pairing.{IsPaired, sanitize-IsPaired}
use wotbot.Agent.Sanitize.Strays.{NoStray, sanitize-NoStray}
use wotbot.Agent.Units.{group_units, join}
use wotbot.Agent.Units.Paired.{group_units-IsPaired, join-IsPaired}
use wotbot.Agent.Trim.{
  Marked, starts_human, drop_mark, mark_human, kept_units, pop_system, mark_recent, fit_units,
  trim_conversation,
}

module _ {ℓ} (P : List Message → Type ℓ) where
  -- The units of a marking, kept or not.
  abbrev AllMarked : List Marked → Type ℓ
  AllMarked = All λ v. P v.1

  AllMarked-drop : (us : List (List Message)) → All P us → AllMarked (map drop_mark us)
  AllMarked-drop [] h = tt
  AllMarked-drop (u ∷ us) h = (h.0, AllMarked-drop us h.1)

  AllMarked-recent :
      (count_tokens : List Message → ℕ) (max_tokens spent : ℕ) (any_kept : Bool)
      (us : List (List Message))
      → All P us
      → AllMarked (mark_recent count_tokens max_tokens spent any_kept us)
  unfolding mark_recent
  AllMarked-recent count_tokens max_tokens spent any_kept [] h = tt
  AllMarked-recent count_tokens max_tokens spent any_kept (u ∷ us) h =
      elim (Bool-cases (not any_kept || leb (spent + count_tokens u) max_tokens)) [
        | inl e ↦
            rw e
              (h.0, AllMarked-recent count_tokens max_tokens (spent + count_tokens u) true us h.1)
        | inr e ↦ rw e (h.0, AllMarked-drop us h.1)
      ]

  AllMarked-human : (vs : List Marked) → AllMarked vs → AllMarked (mark_human vs)
  unfolding mark_human
  AllMarked-human [] h = tt
  AllMarked-human ((k, u) ∷ vs) h = elim (Bool-cases (starts_human u)) [
    | inl e ↦ rw e (h.0, h.1)
    | inr e ↦ rw e (h.0, AllMarked-human vs h.1)
  ]

  All-kept : (vs : List Marked) → AllMarked vs → All P (kept_units vs)
  unfolding kept_units
  All-kept [] h = tt
  All-kept ((true, u) ∷ vs) h = (h.0, All-kept vs h.1)
  All-kept ((false, u) ∷ vs) h = All-kept vs h.1

module _ {ℓ κ} {A : Type ℓ} (P : A → Type κ) where
  All-reverse : (xs : List A) → All P xs → All P (reverse xs)
  All-reverse [] h = tt
  All-reverse (x ∷ xs) h =
      rw (reverse-cons x xs) (All-append P (reverse xs) (x ∷ []) (All-reverse xs h.1) (h.0, tt))

All-fit_units {ℓ} :
    (P : List Message → Type ℓ) (count_tokens : List Message → ℕ) (max_tokens : ℕ)
    (us : List (List Message))
    → All P us
    → All P (fit_units count_tokens max_tokens us)
unfolding fit_units
All-fit_units P count_tokens max_tokens us h =
    let marks = mark_recent count_tokens max_tokens 0 false (reverse us) in
    let h' = AllMarked-recent P count_tokens max_tokens 0 false (reverse us) (All-reverse P us h) in
    All-kept P (reverse (mark_human marks))
      (All-reverse (λ v. P v.1) (mark_human marks) (AllMarked-human P marks h'))

pop_system-IsPaired : (ms : List Message) → IsPaired ms → IsPaired (pop_system ms)
unfolding pop_system
pop_system-IsPaired [] h = h
pop_system-IsPaired (system i c ∷ ms) h = record { calls = h.calls; results = h.results }
pop_system-IsPaired (ai i c ts rs ∷ ms) h = h
pop_system-IsPaired (tool i c k n ∷ ms) h = h
pop_system-IsPaired (human i c ∷ ms) h = h

-- Whatever the token counter and the budget: if no tool message of the prepared conversation
-- strays from the calls before it, then in the trimmed prompt too every tool call is answered in
-- the run of tool messages behind it, and every tool message stands in such a run.
pub trim_conversation-IsPaired :
    (count_tokens : List Message → ℕ) (prepare : Message → Message) (is_summary : Message → Bool)
    (max_tokens : ℕ) (messages : List Message)
    → NoStray (map prepare (keep_if (λ m. not (is_summary m)) messages))
    → IsPaired (trim_conversation count_tokens prepare is_summary max_tokens messages)
unfolding trim_conversation
trim_conversation-IsPaired count_tokens prepare is_summary max_tokens messages h =
    let ready = map prepare (keep_if (λ m. not (is_summary m)) messages) in
    let units = group_units (sanitize ready) in
    pop_system-IsPaired (join (fit_units count_tokens max_tokens units)) (
      join-IsPaired (fit_units count_tokens max_tokens units) (
        All-fit_units IsPaired count_tokens max_tokens units (
          group_units-IsPaired (sanitize ready) (sanitize-IsPaired ready)
            (sanitize-NoStray ready h))))

-- ===== src/Runs/Interrupt/Closed.antt =====
-- The repair closes the last turn, and does nothing the second time.
use wotbot.Base.{
  String, ◌≡◌, inl, inr, refl, ap, ◌∙◌, Bool, true, false, ◌||◌, Option, none, some, List, [], ◌∷◌,
  ◌++◌, any, All, All-append, is_in, arith, Bool-cases, Option-cases, append-nil, if◌then◌else◌,
}
use wotbot.Agent.Messages.{Message, human, system, ai, tool, ToolCall, is_human, answered}
use wotbot.Runs.Interrupt.{
  last_turn, is_final, new_result, with_call, updates_of, stop_calls, resolved_after, stop_turn,
  closing, close_turn, interrupted_turn_updates, finalize_interrupted_run,
}

abbrev pub NoHuman : List Message → Type 0
NoHuman = All λ m. is_human m ≡ false

new_result-NoHuman : (resolved : List String) (t : ToolCall) → NoHuman (new_result resolved t)
new_result-NoHuman resolved t = elim (Option-cases t.id) [
  | inl e ↦ rw e tt
  | inr (k, e) ↦
      rw e (elim (Bool-cases (is_in k resolved)) [ inl b ↦ rw b tt | inr b ↦ rw b (refl, tt) ])
]

stop_calls-NoHuman :
    (resolved : List String) (ts : List ToolCall) → NoHuman (stop_calls resolved ts)
unfolding stop_calls
stop_calls-NoHuman resolved [] = tt
stop_calls-NoHuman resolved (t ∷ ts) =
    All-append (λ m. is_human m ≡ false) (new_result resolved t)
      (stop_calls (with_call resolved t) ts) (new_result-NoHuman resolved t)
      (stop_calls-NoHuman (with_call resolved t) ts)

stop_turn-NoHuman : (resolved : List String) (ms : List Message) → NoHuman (stop_turn resolved ms)
unfolding stop_turn
stop_turn-NoHuman resolved [] = tt
stop_turn-NoHuman resolved (ai i c ts rs ∷ ms) =
    All-append (λ m. is_human m ≡ false) (stop_calls resolved ts)
      (stop_turn (resolved_after resolved ts) ms) (stop_calls-NoHuman resolved ts)
      (stop_turn-NoHuman (resolved_after resolved ts) ms)
stop_turn-NoHuman resolved (human i c ∷ ms) = stop_turn-NoHuman resolved ms
stop_turn-NoHuman resolved (system i c ∷ ms) = stop_turn-NoHuman resolved ms
stop_turn-NoHuman resolved (tool i c k n ∷ ms) = stop_turn-NoHuman resolved ms

last_turn-NoHuman : (ms : List Message) → NoHuman ms → last_turn ms ≡ none
unfolding last_turn
last_turn-NoHuman [] h = refl
last_turn-NoHuman (m ∷ ms) h = rw (last_turn-NoHuman ms h.1) (rw (h.0) refl)

-- What follows without a user message is part of the last turn.
abbrev extended : Option (List Message) → List Message → Option (List Message)
extended none ys = none
extended (some turn) ys = some (turn ++ ys)

pub last_turn-append :
    (xs ys : List Message) → NoHuman ys → last_turn (xs ++ ys) ≡ extended (last_turn xs) ys
unfolding last_turn
last_turn-append [] ys h = last_turn-NoHuman ys h
last_turn-append (x ∷ xs) ys h = rw (last_turn-append xs ys h) (go (last_turn xs) (is_human x))
  where
    go :
        (o : Option (List Message)) (b : Bool)
        → (elim (extended o ys) [
          | some turn ↦ some turn
          | none ↦ if b then some (xs ++ ys) else none
        ])
          ≡ extended (elim o [ some turn ↦ some turn | none ↦ if b then some xs else none ]) ys
    go none true = refl
    go none false = refl
    go (some turn) b = refl

any_final-append :
    (xs ys : List Message) → any is_final (xs ++ ys) ≡ any is_final xs || any is_final ys
any_final-append [] ys = refl
any_final-append (x ∷ xs) ys = ground (arith, any_final-append xs ys)

close_turn-NoHuman :
    (partial_text : String) (turn : List Message) → NoHuman (close_turn partial_text turn)
close_turn-NoHuman partial_text turn = elim (Bool-cases (any is_final turn)) [
  | inl e ↦ rw e tt
  | inr e ↦ rw e (
      All-append (λ m. is_human m ≡ false) (stop_turn (answered turn) turn)
        (closing partial_text ∷ []) (stop_turn-NoHuman (answered turn) turn) (refl, tt))
]

-- After the repair an assistant message without calls stands in the turn.
pub close_turn-final :
    (partial_text : String) (turn : List Message)
    → any is_final (turn ++ close_turn partial_text turn) ≡ true
close_turn-final partial_text turn = elim (Bool-cases (any is_final turn)) [
  | inl e ↦ rw e (any_final-append turn [] ∙ ground (arith, e))
  | inr e ↦ rw e (
      any_final-append turn (stop_turn (answered turn) turn ++ closing partial_text ∷ [])
      ∙ ground
          (arith, any_final-append (stop_turn (answered turn) turn) (closing partial_text ∷ [])))
]

-- The last turn after the repair is the last turn before it and the updates.
pub last_turn-finalize :
    (messages turn : List Message) (partial_text : String)
    → last_turn messages ≡ some turn
    → last_turn (finalize_interrupted_run messages partial_text)
      ≡ some (turn ++ close_turn partial_text turn)
unfolding finalize_interrupted_run interrupted_turn_updates
last_turn-finalize messages turn partial_text h =
    ap (λ o. last_turn (messages ++ updates_of partial_text o)) h
    ∙ last_turn-append messages (close_turn partial_text turn)
        (close_turn-NoHuman partial_text turn)
    ∙ ap (λ o. extended o (close_turn partial_text turn)) h

-- The repair of a stopped run is done once: on its own result it adds nothing, whatever text the
-- second caller has, so a finalizer and a reconnect that both repair do not double the answer.
interrupted_turn_updates-finalize_interrupted_run :
    (messages : List Message) (partial_text text : String)
    → interrupted_turn_updates (finalize_interrupted_run messages partial_text) text ≡ []
unfolding interrupted_turn_updates finalize_interrupted_run
interrupted_turn_updates-finalize_interrupted_run messages partial_text text =
    elim (Option-cases (last_turn messages)) [
      | inl e ↦
          ap (λ o. updates_of text (last_turn (messages ++ updates_of partial_text o))) e
          ∙ ap (λ ms. updates_of text (last_turn ms)) (append-nil messages)
          ∙ ap (updates_of text) e
      | inr (turn, e) ↦
          ap (updates_of text) (last_turn-finalize messages turn partial_text e) ∙ closed_twice turn
    ]
  where
    closed_twice :
        (turn : List Message) → close_turn text (turn ++ close_turn partial_text turn) ≡ []
    closed_twice turn = rw (close_turn-final partial_text turn) refl

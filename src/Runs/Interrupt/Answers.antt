-- ===== src/Runs/Interrupt/Answers.antt =====
-- The repair gives each call of the turn that has no result exactly one.
use wotbot.Base.{
  String, ◌≡◌, inl, inr, refl, sym, ap, ◌∙◌, true, false, ◌||◌, Option, none, some, List, [], ◌∷◌,
  ◌++◌, append_assoc, append-nil, subst, any, is_in, All, arith, Bool-cases, Option-cases,
  if◌then◌else◌, ==_self, opt_eq, Bool,
}
use wotbot.Agent.Messages.{Message, human, system, ai, tool, ToolCall, answered}
use wotbot.Runs.Interrupt.{
  last_turn, is_final, stopped, new_result, with_call, stop_calls, resolved_after, stop_turn,
  closing, close_turn, finalize_interrupted_run,
}
use wotbot.Runs.Interrupt.Closed.{last_turn-finalize, close_turn-final}

is_in-append : (k : String) (xs ys : List String) → is_in k (xs ++ ys) ≡ is_in k xs || is_in k ys
is_in-append k [] ys = refl
is_in-append k (x ∷ xs) ys = ground (arith, is_in-append k xs ys)

answered-append : (xs ys : List Message) → answered (xs ++ ys) ≡ answered xs ++ answered ys
answered-append [] ys = refl
answered-append (tool i c k n ∷ xs) ys = ap (◌∷◌ k) (answered-append xs ys)
answered-append (human i c ∷ xs) ys = answered-append xs ys
answered-append (system i c ∷ xs) ys = answered-append xs ys
answered-append (ai i c ts rs ∷ xs) ys = answered-append xs ys

-- The set `resolved` grows by the results written.
is_in-with_call :
    (k : String) (resolved : List String) (t : ToolCall)
    → is_in k (with_call resolved t)
      ≡ is_in k resolved || is_in k (answered (new_result resolved t))
is_in-with_call k resolved t = elim (Option-cases t.id) [
  | inl e ↦ rw e (ground arith)
  | inr (i, e) ↦ rw e (elim (Bool-cases (is_in i resolved)) [
    | inl b ↦ rw b (ground arith)
    | inr b ↦ rw b (ground arith)
  ])
]

is_in-resolved_after :
    (k : String) (resolved : List String) (ts : List ToolCall)
    → is_in k (resolved_after resolved ts)
      ≡ is_in k resolved || is_in k (answered (stop_calls resolved ts))
unfolding resolved_after stop_calls
is_in-resolved_after k resolved [] = ground arith
is_in-resolved_after k resolved (t ∷ ts) =
    let here = is_in-with_call k resolved t in
    let rest = is_in-resolved_after k (with_call resolved t) ts in
    rw
      (
        answered-append (new_result resolved t) (stop_calls (with_call resolved t) ts),
        is_in-append k (answered (new_result resolved t))
            (answered (stop_calls (with_call resolved t) ts)),
      )
      (rest ∙ ground (arith, here))

-- Every call with an id is in `ids`.
abbrev pub CallsIn : List String → List ToolCall → Type 0
CallsIn ids = All λ (t : ToolCall). (k : String) → t.id ≡ some k → is_in k ids ≡ true

with_call-has :
    (resolved : List String) (t : ToolCall) (k : String)
    → t.id ≡ some k
    → is_in k (with_call resolved t) ≡ true
with_call-has resolved t k e =
    rw e
      (elim (Bool-cases (is_in k resolved)) [ inl b ↦ rw b b | inr b ↦ rw b (rw (==_self k) refl) ])

resolved_after-CallsIn :
    (resolved : List String) (ts : List ToolCall) → CallsIn (resolved_after resolved ts) ts
unfolding resolved_after
resolved_after-CallsIn resolved [] = tt
resolved_after-CallsIn resolved (t ∷ ts) = (
  λ k e.
      is_in-resolved_after k (with_call resolved t) ts
      ∙ ground (arith, with_call-has resolved t k e),
  resolved_after-CallsIn (with_call resolved t) ts,
)

CallsIn-mono :
    (ids ids' : List String) (ts : List ToolCall)
    → ((k : String) → is_in k ids ≡ true → is_in k ids' ≡ true)
    → CallsIn ids ts
    → CallsIn ids' ts
CallsIn-mono ids ids' [] h c = tt
CallsIn-mono ids ids' (t ∷ ts) h c = (λ k e. h k (c.0 k e), CallsIn-mono ids ids' ts h c.1)

-- Every call of an assistant message of the list is in `ids`.
abbrev pub AllAnswered : List String → List Message → Type 0
AllAnswered ids [] = Unit
AllAnswered ids (ai i c ts rs ∷ ms) = CallsIn ids ts × AllAnswered ids ms
AllAnswered ids (human i c ∷ ms) = AllAnswered ids ms
AllAnswered ids (system i c ∷ ms) = AllAnswered ids ms
AllAnswered ids (tool i c k n ∷ ms) = AllAnswered ids ms

-- Once every id in `resolved` and in the results written is in `ids`, the turn is answered.
stop_turn-AllAnswered :
    (ids resolved : List String) (ms : List Message)
    → ((k : String)
        → is_in k resolved || is_in k (answered (stop_turn resolved ms)) ≡ true
        → is_in k ids ≡ true)
    → AllAnswered ids ms
unfolding stop_turn
stop_turn-AllAnswered ids resolved [] h = tt
stop_turn-AllAnswered ids resolved (human i c ∷ ms) h = stop_turn-AllAnswered ids resolved ms h
stop_turn-AllAnswered ids resolved (system i c ∷ ms) h = stop_turn-AllAnswered ids resolved ms h
stop_turn-AllAnswered ids resolved (tool i c k n ∷ ms) h = stop_turn-AllAnswered ids resolved ms h
stop_turn-AllAnswered ids resolved (ai i c ts rs ∷ ms) h =
    let later = resolved_after resolved ts in
    let whole = λ (k : String).
      ap (is_in k) (answered-append (stop_calls resolved ts) (stop_turn later ms))
      ∙ is_in-append k (answered (stop_calls resolved ts)) (answered (stop_turn later ms)) in
    (
      CallsIn-mono later ids ts
          (λ k e. h k (ground (arith, e, whole k, is_in-resolved_after k resolved ts)))
          (resolved_after-CallsIn resolved ts),
      stop_turn-AllAnswered ids later ms
          (λ k e. h k (ground (arith, e, whole k, is_in-resolved_after k resolved ts))),
    )

-- The ids are new and none stands twice.
abbrev pub Fresh : List String → List String → Type 0
Fresh resolved [] = Unit
Fresh resolved (k ∷ ks) = (is_in k resolved ≡ false) × Fresh (k ∷ resolved) ks

new_result-Fresh :
    (resolved : List String) (t : ToolCall) (ks : List String)
    → Fresh (with_call resolved t) ks
    → Fresh resolved (answered (new_result resolved t) ++ ks)
new_result-Fresh resolved t ks h = go t.id h
  where
    go :
        (o : Option String)
        → Fresh
            (elim o [
              | none ↦ resolved
              | some k ↦ if is_in k resolved then resolved else k ∷ resolved
            ])
            ks
        → Fresh resolved (
            answered
              (elim o [ none ↦ [] | some k ↦ if is_in k resolved then [] else stopped k ∷ [] ])
            ++ ks)
    go none f = f
    go (some k) f = elim (Bool-cases (is_in k resolved)) [
      | inl b ↦ rw b (rw b at f)
      | inr b ↦ rw b (b, rw b at f)
    ]

stop_calls-Fresh :
    (resolved : List String) (ts : List ToolCall) (ks : List String)
    → Fresh (resolved_after resolved ts) ks
    → Fresh resolved (answered (stop_calls resolved ts) ++ ks)
unfolding stop_calls resolved_after
stop_calls-Fresh resolved [] ks h = h
stop_calls-Fresh resolved (t ∷ ts) ks h =
    let later = stop_calls (with_call resolved t) ts in
    subst (λ zs. Fresh resolved zs)
      (sym (
        ap (λ zs. zs ++ ks) (answered-append (new_result resolved t) later)
        ∙ append_assoc (answered (new_result resolved t)) (answered later) ks))
      (new_result-Fresh resolved t (answered later ++ ks)
        (stop_calls-Fresh (with_call resolved t) ts ks h))

stop_turn-Fresh :
    (resolved : List String) (ms : List Message) → Fresh resolved (answered (stop_turn resolved ms))
unfolding stop_turn
stop_turn-Fresh resolved [] = tt
stop_turn-Fresh resolved (human i c ∷ ms) = stop_turn-Fresh resolved ms
stop_turn-Fresh resolved (system i c ∷ ms) = stop_turn-Fresh resolved ms
stop_turn-Fresh resolved (tool i c k n ∷ ms) = stop_turn-Fresh resolved ms
stop_turn-Fresh resolved (ai i c ts rs ∷ ms) =
    rw (answered-append (stop_calls resolved ts) (stop_turn (resolved_after resolved ts) ms)) (
      stop_calls-Fresh resolved ts (answered (stop_turn (resolved_after resolved ts) ms))
        (stop_turn-Fresh (resolved_after resolved ts) ms))

-- The id of one of the calls, or of a call of one of the messages.
abbrev pub calls : String → List ToolCall → Bool
calls k = any λ (t : ToolCall). opt_eq t.id k

abbrev pub is_called : String → List Message → Bool
is_called k [] = false
is_called k (ai i c ts rs ∷ ms) = calls k ts || is_called k ms
is_called k (_ ∷ ms) = is_called k ms

new_result-calls :
    (k : String) (resolved : List String) (t : ToolCall)
    → is_in k (answered (new_result resolved t)) ≡ true
    → opt_eq t.id k ≡ true
new_result-calls k resolved t h = elim (Option-cases t.id) [
  | inl e ↦ absurd (cc (rw e at h))
  | inr (i, e) ↦ elim (Bool-cases (is_in i resolved)) [
    | inl b ↦ absurd (cc (rw b at (rw e at h)))
    | inr b ↦ rw e (ground (arith, rw b at (rw e at h)))
  ]
]

stop_calls-calls :
    (k : String) (resolved : List String) (ts : List ToolCall)
    → is_in k (answered (stop_calls resolved ts)) ≡ true
    → calls k ts ≡ true
unfolding stop_calls
stop_calls-calls k resolved [] h = absurd (cc h)
stop_calls-calls k resolved (t ∷ ts) h =
    let later = stop_calls (with_call resolved t) ts in
    let split =
      ap (is_in k) (answered-append (new_result resolved t) later)
      ∙ is_in-append k (answered (new_result resolved t)) (answered later) in
    elim (Bool-cases (is_in k (answered (new_result resolved t)))) [
      | inl b ↦ ground (arith, new_result-calls k resolved t b)
      | inr b ↦
          ground (arith, stop_calls-calls k (with_call resolved t) ts (ground (arith, h, split, b)))
    ]

stop_turn-is_called :
    (k : String) (resolved : List String) (ms : List Message)
    → is_in k (answered (stop_turn resolved ms)) ≡ true
    → is_called k ms ≡ true
unfolding stop_turn
stop_turn-is_called k resolved [] h = absurd (cc h)
stop_turn-is_called k resolved (human i c ∷ ms) h = stop_turn-is_called k resolved ms h
stop_turn-is_called k resolved (system i c ∷ ms) h = stop_turn-is_called k resolved ms h
stop_turn-is_called k resolved (tool i c n m ∷ ms) h = stop_turn-is_called k resolved ms h
stop_turn-is_called k resolved (ai i c ts rs ∷ ms) h =
    let first = stop_calls resolved ts in
    let later = stop_turn (resolved_after resolved ts) ms in
    let split =
      ap (is_in k) (answered-append first later)
      ∙ is_in-append k (answered first) (answered later) in
    elim (Bool-cases (is_in k (answered first))) [
      | inl b ↦ ground (arith, stop_calls-calls k resolved ts b)
      | inr b ↦ ground (
        arith,
        stop_turn-is_called k (resolved_after resolved ts) ms (ground (arith, h, split, b)),
      )
    ]

-- Every id of the list is that of a call in the turn.
abbrev pub Called : List Message → List String → Type 0
Called turn = All λ k. is_called k turn ≡ true

All-of_is_in :
    (turn : List Message) (ks : List String)
    → ((k : String) → is_in k ks ≡ true → is_called k turn ≡ true)
    → Called turn ks
All-of_is_in turn [] h = tt
All-of_is_in turn (k ∷ ks) h =
    (h k (rw (==_self k) refl), All-of_is_in turn ks (λ j e. h j (ground (arith, e))))

-- When the last turn has no final answer, the repair leaves a last turn that has one, in which
-- each call with an id has a result. Each result that it writes is for a call of that turn which
-- had none, and no two are for the same id.
pub finalize_interrupted_run-AllAnswered :
    (messages turn : List Message) (partial_text : String)
    → last_turn messages ≡ some turn
    → any is_final turn ≡ false
    → (new : List Message) × (last_turn (finalize_interrupted_run messages partial_text)
        ≡ some (turn ++ new))
      × (any is_final (turn ++ new) ≡ true)
      × AllAnswered (answered (turn ++ new)) turn
      × Fresh (answered turn) (answered new)
      × Called turn (answered new)
finalize_interrupted_run-AllAnswered messages turn partial_text h still_open =
    let stops = stop_turn (answered turn) turn in
    let new = stops ++ closing partial_text ∷ [] in
    let same : close_turn partial_text turn ≡ new = rw still_open refl in
    let new_ids : answered new ≡ answered stops =
      answered-append stops (closing partial_text ∷ []) ∙ append-nil (answered stops) in
    (
      new,
      last_turn-finalize messages turn partial_text h ∙ ap (λ zs. some (turn ++ zs)) same,
      ap (λ zs. any is_final (turn ++ zs)) (sym same) ∙ close_turn-final partial_text turn,
      stop_turn-AllAnswered (answered (turn ++ new)) (answered turn) turn (λ k e.
          ap (is_in k) (answered-append turn new ∙ ap (λ zs. answered turn ++ zs) new_ids)
          ∙ is_in-append k (answered turn) (answered stops)
          ∙ e),
      subst (Fresh (answered turn)) (sym new_ids) (stop_turn-Fresh (answered turn) turn),
      subst (Called turn) (sym new_ids) (
          All-of_is_in turn (answered stops) (λ k e. stop_turn-is_called k (answered turn) turn e)),
    )

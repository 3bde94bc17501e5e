-- ===== src/Agent/Trim/Fits.antt =====
-- What trimming keeps, in the order of the conversation.
use mathlib.Core.List.{reverse-cons}
use wotbot.Base.{
  ℕ, ◌+◌, ◌≤◌, ◌<◌, ◌≡◌, refl, sym, ap, subst₂, ◌∙◌, ◌⊎◌, inl, inr, true, false, ◌||◌, List, [],
  ◌∷◌, ◌++◌, map, reverse, arith, any, All-append, append_assoc, append-nil, reverse-append,
  reverse-reverse,
}
use wotbot.Agent.Messages.{Message}
use wotbot.Agent.Trim.{
  Marked, starts_human, drop_mark, mark_human, kept_units, mark_recent, fit_units,
}
use wotbot.Agent.Trim.Budget.{
  keep_mark, NoHuman, WithHuman, human_marks, total, Stops, Split, mark_recent-Split,
}

kept-append : (xs ys : List Marked) → kept_units (xs ++ ys) ≡ kept_units xs ++ kept_units ys
unfolding kept_units
kept-append [] ys = refl
kept-append ((true, u) ∷ xs) ys = ap (◌∷◌ u) (kept-append xs ys)
kept-append ((false, u) ∷ xs) ys = kept-append xs ys

kept-reverse : (xs : List Marked) → kept_units (reverse xs) ≡ reverse (kept_units xs)
unfolding kept_units
kept-reverse [] = refl
kept-reverse ((true, u) ∷ xs) =
    rw (reverse-cons (true, u) xs, kept-append (reverse xs) ((true, u) ∷ []), kept-reverse xs)
      (sym (reverse-cons u (kept_units xs)))
kept-reverse ((false, u) ∷ xs) =
    rw (reverse-cons (false, u) xs, kept-append (reverse xs) ((false, u) ∷ []), kept-reverse xs)
      (append-nil (reverse (kept_units xs)))

NoHuman-reverse : (us : List (List Message)) → NoHuman us → NoHuman (reverse us)
NoHuman-reverse [] h = tt
NoHuman-reverse (u ∷ us) h = rw (reverse-cons u us) (
    All-append (λ v. starts_human v ≡ false) (reverse us) (u ∷ []) (NoHuman-reverse us h.1)
      (h.0, tt))

any-append :
    (xs ys : List (List Message))
    → any starts_human (xs ++ ys) ≡ (any starts_human xs || any starts_human ys)
any-append [] ys = refl
any-append (x ∷ xs) ys = ground (arith, any-append xs ys)

any-reverse : (us : List (List Message)) → any starts_human (reverse us) ≡ any starts_human us
any-reverse [] = refl
any-reverse (u ∷ us) =
    rw (reverse-cons u us, any-append (reverse us) (u ∷ [])) (ground (arith, any-reverse us))

-- What is kept of `older ++ recent`: all of `recent`, and from `older` at most the latest unit
-- that a human message starts, which is there if `recent` has none.
abbrev pub Keeps : List (List Message) → List (List Message) → List (List Message) → Type 0
Keeps older recent out =
    ((out ≡ recent) × ((any starts_human recent ≡ true) ⊎ (NoHuman recent × NoHuman older)))
    ⊎ ((before : List (List Message)) × (h : List Message) × (after : List (List Message)) × (older
          ≡ before ++ h ∷ after)
        × (starts_human h ≡ true)
        × NoHuman after
        × NoHuman recent
        × (out ≡ h ∷ recent))

Keeps-reverse :
    (ps qs out : List (List Message))
    → WithHuman ps qs out
    → Keeps (reverse qs) (reverse ps) (reverse out)
Keeps-reverse ps qs out (inl (e, inl a)) = inl (ap reverse e, inl (any-reverse ps ∙ a))
Keeps-reverse ps qs out (inl (e, inr (n, m))) =
    inl (ap reverse e, inr (NoHuman-reverse ps n, NoHuman-reverse qs m))
Keeps-reverse ps qs out (inr (q₁, h, q₂, e, s, n, m, o)) = inr (
  reverse q₂,
  h,
  reverse q₁,
  rw (e, reverse-append, reverse-cons, append_assoc),
  s,
  NoHuman-reverse q₁ m,
  NoHuman-reverse ps n,
  rw (o, reverse-append),
)

module _ (count_tokens : List Message → ℕ) where
  total-append :
      (xs ys : List (List Message))
      → total count_tokens (xs ++ ys) ≡ total count_tokens xs + total count_tokens ys
  total-append [] ys = omega arith
  total-append (x ∷ xs) ys = omega (arith, total-append xs ys)

  total-reverse :
      (us : List (List Message)) → total count_tokens (reverse us) ≡ total count_tokens us
  total-reverse [] = refl
  total-reverse (u ∷ us) =
      rw (reverse-cons u us, total-append (reverse us) (u ∷ [])) (omega (arith, total-reverse us))

  -- The units split into older and recent ones. The recent ones end with the newest unit; they
  -- fit the budget, unless that is the only one, and the unit before them would not fit any more.
  abbrev pub Fit : ℕ → List (List Message) → List (List Message) → Type 0
  Fit max_tokens units out =
      (older : List (List Message)) × (recent : List (List Message)) × (newest : List Message)
      × (units ≡ older ++ recent ++ newest ∷ [])
      × ((recent ≡ []) ⊎ (total count_tokens (recent ++ newest ∷ []) ≤ max_tokens))
      × ((older ≡ [])
          ⊎ ((before : List (List Message)) × (last : List Message) × (older ≡ before ++ last ∷ [])
              × (max_tokens < count_tokens last + total count_tokens (recent ++ newest ∷ []))))
      × Keeps older (recent ++ newest ∷ []) out

  recent_fits :
      (max_tokens : ℕ) (u : List Message) (ps : List (List Message))
      → (ps ≡ []) ⊎ (count_tokens u + total count_tokens ps ≤ max_tokens)
      → (reverse ps ≡ []) ⊎ (total count_tokens (reverse ps ++ u ∷ []) ≤ max_tokens)
  recent_fits max_tokens u ps (inl e) = inl (rw e)
  recent_fits max_tokens u ps (inr f) =
      inr (omega (arith, total-append (reverse ps) (u ∷ []), total-reverse ps))

  before_recent :
      (max_tokens : ℕ) (u : List Message) (ps qs : List (List Message))
      → Stops count_tokens max_tokens (count_tokens u + total count_tokens ps) qs
      → (reverse qs ≡ [])
        ⊎ ((before : List (List Message)) × (last : List Message) × (reverse qs
              ≡ before ++ last ∷ [])
            × (max_tokens < count_tokens last + total count_tokens (reverse ps ++ u ∷ [])))
  before_recent max_tokens u ps [] s = inl refl
  before_recent max_tokens u ps (q ∷ qs) s = inr (
    reverse qs,
    q,
    reverse-cons q qs,
    omega (arith, total-append (reverse ps) (u ∷ []), total-reverse ps),
  )

  first_kept :
      (max_tokens : ℕ) (u : List Message) (us : List (List Message))
      → Split count_tokens max_tokens
          (count_tokens u)
          us
          (mark_recent count_tokens max_tokens (count_tokens u) true us)
      → Fit max_tokens (reverse (u ∷ us)) (
          kept_units (
            reverse (
              mark_human
                ((true, u) ∷ mark_recent count_tokens max_tokens (count_tokens u) true us))))
  first_kept max_tokens u us (ps, qs, e, m, f, s) = (
    reverse qs,
    reverse ps,
    u,
    rw (reverse-cons u us, e, reverse-append ps qs),
    recent_fits max_tokens u ps f,
    before_recent max_tokens u ps qs s,
    subst₂ (Keeps (reverse qs)) (reverse-cons u ps)
        (sym (kept-reverse (mark_human (map keep_mark (u ∷ ps) ++ map drop_mark qs)))
          ∙ ap (λ l. kept_units (reverse (mark_human ((true, u) ∷ l)))) (sym m))
        (Keeps-reverse (u ∷ ps) qs _ (human_marks (u ∷ ps) qs)),
  )

  -- Of a conversation with at least one unit, trimming keeps the newest unit, the units before it
  -- for as long as the total fits the budget, and the latest unit that a human message starts,
  -- and nothing else, in the order of the conversation.
  pub fit_units-Fit :
      (max_tokens : ℕ) (units : List (List Message)) (u : List Message)
      → Fit max_tokens (units ++ u ∷ []) (fit_units count_tokens max_tokens (units ++ u ∷ []))
  unfolding fit_units
  fit_units-Fit max_tokens units u =
      subst₂ (Fit max_tokens)
        (reverse-cons u (reverse units) ∙ ap (λ l. l ++ u ∷ []) (reverse-reverse units)) same
        (first_kept max_tokens u (reverse units)
          (mark_recent-Split count_tokens max_tokens (count_tokens u) (reverse units)))
    where
      after_first : ℕ → List (List Message)
      after_first n = kept_units (
          reverse
            (mark_human ((true, u) ∷ mark_recent count_tokens max_tokens n true (reverse units))))

      same : after_first (count_tokens u) ≡ fit_units count_tokens max_tokens (units ++ u ∷ [])
      same =
          rw (reverse-append units (u ∷ []), fit_units)
            (ap after_first (let z : count_tokens u ≡ 0 + count_tokens u = omega arith in z))

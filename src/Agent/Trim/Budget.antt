-- ===== src/Agent/Trim/Budget.antt =====
-- The two loops over the units, newest first.
use wotbot.Base.{
  ℕ, ◌+◌, ◌≤◌, ◌<◌, ◌≡◌, refl, sym, ap, subst, ◌⊎◌, inl, inr, true, false, List, [], ◌∷◌, ◌++◌, map,
  arith, leb, any, All, Bool-cases, leb→le,
}
use wotbot.Agent.Messages.{Message}
use wotbot.Agent.Trim.{Marked, starts_human, drop_mark, mark_human, kept_units, mark_recent}

abbrev pub keep_mark : List Message → Marked
keep_mark u = (true, u)

abbrev pub NoHuman : List (List Message) → Type 0
NoHuman = All λ u. starts_human u ≡ false

kept-dropped : (us : List (List Message)) → kept_units (map drop_mark us) ≡ []
unfolding kept_units
kept-dropped [] = refl
kept-dropped (u ∷ us) = kept-dropped us

kept-marks : (ps qs : List (List Message)) → kept_units (map keep_mark ps ++ map drop_mark qs) ≡ ps
unfolding kept_units
kept-marks [] qs = kept-dropped qs
kept-marks (p ∷ ps) qs = ap (◌∷◌ p) (kept-marks ps qs)

-- What the second loop keeps, given what the first one kept (`ps`) and dropped (`qs`): nothing
-- more, or the first unit of `qs` that a human message starts.
abbrev pub WithHuman : List (List Message) → List (List Message) → List (List Message) → Type 0
WithHuman ps qs out =
    ((out ≡ ps) × ((any starts_human ps ≡ true) ⊎ (NoHuman ps × NoHuman qs)))
    ⊎ ((q₁ : List (List Message)) × (h : List Message) × (q₂ : List (List Message)) × (qs
          ≡ q₁ ++ h ∷ q₂)
        × (starts_human h ≡ true)
        × NoHuman ps
        × NoHuman q₁
        × (out ≡ ps ++ h ∷ []))

human_dropped :
    (qs : List (List Message)) → WithHuman [] qs (kept_units (mark_human (map drop_mark qs)))
unfolding mark_human kept_units
human_dropped [] = inl (refl, inr (tt, tt))
human_dropped (q ∷ qs) = elim (Bool-cases (starts_human q)) [
  | inl e ↦ inr ([], q, qs, refl, e, tt, tt, rw e (ap (◌∷◌ q) (kept-dropped qs)))
  | inr e ↦
      let step : kept_units (mark_human (map drop_mark (q ∷ qs)))
          ≡ kept_units (mark_human (map drop_mark qs)) =
        rw e in
      subst (WithHuman [] (q ∷ qs)) (sym step) (skip e (human_dropped qs))
]
  where
    skip :
        starts_human q ≡ false
        → WithHuman [] qs (kept_units (mark_human (map drop_mark qs)))
        → WithHuman [] (q ∷ qs) (kept_units (mark_human (map drop_mark qs)))
    skip e (inl (o, inl a)) = cc
    skip e (inl (o, inr (_, n))) = inl (o, inr (tt, (e, n)))
    skip e (inr (q₁, h, q₂, split, s, _, n, o)) =
        inr (q ∷ q₁, h, q₂, ap (◌∷◌ q) split, s, tt, (e, n), o)

pub human_marks :
    (ps qs : List (List Message))
    → WithHuman ps qs (kept_units (mark_human (map keep_mark ps ++ map drop_mark qs)))
unfolding mark_human kept_units
human_marks [] qs = human_dropped qs
human_marks (p ∷ ps) qs = elim (Bool-cases (starts_human p)) [
  | inl e ↦ inl (rw e (ap (◌∷◌ p) (kept-marks ps qs)), inl (rw e))
  | inr e ↦
      let step : kept_units (mark_human (map keep_mark (p ∷ ps) ++ map drop_mark qs))
          ≡ p ∷ kept_units (mark_human (map keep_mark ps ++ map drop_mark qs)) =
        rw e in
      subst (WithHuman (p ∷ ps) qs) (sym step) (next e (human_marks ps qs))
]
  where
    next :
        starts_human p ≡ false
        → WithHuman ps qs (kept_units (mark_human (map keep_mark ps ++ map drop_mark qs)))
        → WithHuman (p ∷ ps) qs (p ∷ kept_units (mark_human (map keep_mark ps ++ map drop_mark qs)))
    next e (inl (o, inl a)) = inl (ap (◌∷◌ p) o, inl (rw e a))
    next e (inl (o, inr (n, m))) = inl (ap (◌∷◌ p) o, inr ((e, n), m))
    next e (inr (q₁, h, q₂, split, s, n, m, o)) = inr (q₁, h, q₂, split, s, (e, n), m, ap (◌∷◌ p) o)

module _ (count_tokens : List Message → ℕ) where
  abbrev pub total : List (List Message) → ℕ
  total [] = 0
  total (u ∷ us) = count_tokens u + total us

  -- The loop breaks only at a unit that does not fit any more.
  abbrev pub Stops : ℕ → ℕ → List (List Message) → Type 0
  Stops max_tokens spent [] = Unit
  Stops max_tokens spent (q ∷ qs) = max_tokens < spent + count_tokens q

  abbrev pub Split : ℕ → ℕ → List (List Message) → List Marked → Type 0
  Split max_tokens spent us marks =
      (ps : List (List Message)) × (qs : List (List Message)) × (us ≡ ps ++ qs)
      × (marks ≡ map keep_mark ps ++ map drop_mark qs)
      × ((ps ≡ []) ⊎ (spent + total ps ≤ max_tokens))
      × Stops max_tokens (spent + total ps) qs

  spent_on :
      (max_tokens spent cost : ℕ)
      → spent + cost ≤ max_tokens
      → (ps : List (List Message)) → (ps ≡ []) ⊎ (spent + cost + total ps ≤ max_tokens)
      → spent + (cost + total ps) ≤ max_tokens
  spent_on max_tokens spent cost h ps (inl e) = rw e (omega arith)
  spent_on max_tokens spent cost h ps (inr f) = omega arith

  pub mark_recent-Split :
      (max_tokens spent : ℕ) (us : List (List Message))
      → Split max_tokens spent us (mark_recent count_tokens max_tokens spent true us)
  unfolding mark_recent
  mark_recent-Split max_tokens spent [] = ([], [], refl, refl, inl refl, tt)
  mark_recent-Split max_tokens spent (u ∷ us) =
      elim (Bool-cases (leb (spent + count_tokens u) max_tokens)) [
        | inl e ↦
            rw e (fits (leb→le _ _ e) (mark_recent-Split max_tokens (spent + count_tokens u) us))
        | inr e ↦ rw e ([], u ∷ us, refl, refl, inl refl, ground arith)
      ]
    where
      fits :
          spent + count_tokens u ≤ max_tokens
          → Split max_tokens
              (spent + count_tokens u)
              us
              (mark_recent count_tokens max_tokens (spent + count_tokens u) true us)
          → Split max_tokens spent
              (u ∷ us)
              (keep_mark u ∷ mark_recent count_tokens max_tokens (spent + count_tokens u) true us)
      fits h (ps, qs, e, m, f, s) = (
        u ∷ ps,
        qs,
        ap (◌∷◌ u) e,
        ap (◌∷◌ (true, u)) m,
        inr (spent_on max_tokens spent (count_tokens u) h ps f),
        subst (λ n. Stops max_tokens n qs) (omega arith) s,
      )

-- ===== src/CodeExecutor/Isolation.antt =====
-- What every interleaving of calls keeps true of the phases and the locks of the entries.
pub mod Cleanup
pub mod Moves
pub mod Reached
use wotbot.Base.{
  ℕ, ◌≤◌, ◌<◌, String, ◌≡◌, ◌≢◌, ◌⊎◌, inl, inr, refl, sym, ap, ap₂, ◌∙◌, subst, Bool, true, false,
  Option, none, some, arith, Bool-cases, nat_eq, if◌then◌else◌, ◌==◌, eq_iff,
}
use wotbot.Base.Dict.{Dict, lookup, erase, lookup-erase}
use wotbot.CodeExecutor.Pool.{set_at}
use wotbot.CodeExecutor.Calls.{
  Phase, outside, looking, waiting, checking, executing, failing, held, entry_of, running,
}

-- A lock is held by one call, and code runs on the entry that the table has for its session, unless
-- the session may be shut down.
pub record IsUsed (MayStop : String → Type 0) (sessions : Dict ℕ) (locked : ℕ → Bool) (fresh : ℕ)
    (phases : ℕ → Phase) : Type 0 where
  pub locks : (i e : ℕ) → held (phases i) ≡ some e → locked e ≡ true
  pub alone : (i j e : ℕ) → held (phases i) ≡ some e → held (phases j) ≡ some e → i ≡ j
  pub got : (i e : ℕ) → entry_of (phases i) ≡ some e → e < fresh
  pub runs :
      (i : ℕ) (s : String) (e : ℕ)
      → running (phases i) ≡ some (s, e)
      → MayStop s ⊎ (lookup s sessions ≡ some e)

pub held-running : (q : Phase) (s : String) (e : ℕ) → running q ≡ some (s, e) → held q ≡ some e
held-running (executing t v) s e h = ground (arith, h)
held-running outside s e h = cc
held-running (looking t) s e h = cc
held-running (waiting t v) s e h = cc
held-running (checking t v) s e h = cc
held-running (failing t v) s e h = cc

pub entry_of-held : (q : Phase) (e : ℕ) → held q ≡ some e → entry_of q ≡ some e
entry_of-held (checking s v) e h = h
entry_of-held (executing s v) e h = h
entry_of-held (failing s v) e h = h
entry_of-held outside e h = cc
entry_of-held (looking s) e h = cc
entry_of-held (waiting s v) e h = cc

-- The phase of a call after one call has moved.
pub phase_cases :
    (phases : ℕ → Phase) (i : ℕ) (q : Phase) (j : ℕ)
    → ((j ≡ i) × (set_at i q phases j ≡ q)) ⊎ ((j ≢ i) × (set_at i q phases j ≡ phases j))
phase_cases phases i q j = elim (Bool-cases (nat_eq j i)) [
  | inl e ↦ inl (ground (arith, e), rw e refl)
  | inr e ↦ inr (ground (arith, e), rw e refl)
]

module _ (MayStop : String → Type 0) (sessions : Dict ℕ) (locked : ℕ → Bool) (fresh : ℕ)
    (phases : ℕ → Phase) (u : IsUsed MayStop sessions locked fresh phases) where
  -- One call moves, and the table and the locks with it.
  pub moved-IsUsed :
      (sessions' : Dict ℕ) (locked' : ℕ → Bool) (fresh' i : ℕ) (q : Phase)
      → fresh ≤ fresh'
      → ((j e : ℕ) → j ≢ i → held (phases j) ≡ some e → locked' e ≡ true)
      → ((e : ℕ)
          → held q ≡ some e
          → (locked' e ≡ true) × ((j : ℕ) → j ≢ i → held (phases j) ≢ some e))
      → ((e : ℕ) → entry_of q ≡ some e → e < fresh')
      → ((s : String) (e : ℕ) → running q ≡ some (s, e) → MayStop s ⊎ (lookup s sessions' ≡ some e))
      → ((s : String) (e : ℕ) → lookup s sessions ≡ some e → lookup s sessions' ≡ some e)
      → IsUsed MayStop sessions' locked' fresh' (set_at i q phases)
  moved-IsUsed sessions' locked' fresh' i q more keeps own gets runs stays = record {
    locks = λ j e h. elim (phase_cases phases i q j) [
      | inl (_, p) ↦ (own e (ap held (sym p) ∙ h)).0
      | inr (ne, p) ↦ keeps j e ne (ap held (sym p) ∙ h)
    ];
    alone = λ j k e h h'. elim (phase_cases phases i q j) [
      | inl (a, p) ↦ elim (phase_cases phases i q k) [
        | inl (b, _) ↦ a ∙ sym b
        | inr (ne, r) ↦ absurd ((own e (ap held (sym p) ∙ h)).1 k ne (ap held (sym r) ∙ h'))
      ]
      | inr (ne, p) ↦ elim (phase_cases phases i q k) [
        | inl (b, r) ↦ absurd ((own e (ap held (sym r) ∙ h')).1 j ne (ap held (sym p) ∙ h))
        | inr (_, r) ↦ u.alone j k e (ap held (sym p) ∙ h) (ap held (sym r) ∙ h')
      ]
    ];
    got = λ j e h. elim (phase_cases phases i q j) [
      | inl (_, p) ↦ gets e (ap entry_of (sym p) ∙ h)
      | inr (_, p) ↦ omega (arith, more, u.got j e (ap entry_of (sym p) ∙ h))
    ];
    runs = λ j s e h. elim (phase_cases phases i q j) [
      | inl (_, p) ↦ runs s e (ap running (sym p) ∙ h)
      | inr (_, p) ↦ elim (u.runs j s e (ap running (sym p) ∙ h)) [
        | inl m ↦ inl m
        | inr there ↦ inr (stays s e there)
      ]
    ];
  }

  -- A call that ends up with no entry, or with one that it waits for.
  pub idle-IsUsed :
      (i : ℕ) (q : Phase)
      → held q ≡ none
      → running q ≡ none
      → ((e : ℕ) → entry_of q ≡ some e → e < fresh)
      → IsUsed MayStop sessions locked fresh (set_at i q phases)
  idle-IsUsed i q no_lock no_run gets =
      moved-IsUsed sessions locked fresh i q (omega arith) (λ j e _ h. u.locks j e h)
        (λ e h. absurd (cc (h, no_lock))) gets (λ s e h. absurd (cc (h, no_run))) (λ s e h. h)

  -- A call that holds the lock of an entry goes on holding it.
  pub held-IsUsed :
      (i e : ℕ) (q : Phase)
      → held (phases i) ≡ some e
      → held q ≡ some e
      → entry_of q ≡ some e
      → ((s : String) (v : ℕ) → running q ≡ some (s, v) → lookup s sessions ≡ some v)
      → IsUsed MayStop sessions locked fresh (set_at i q phases)
  held-IsUsed i e q holds still has runs =
      moved-IsUsed sessions locked fresh i q (omega arith) (λ j v _ h. u.locks j v h)
        (λ v h.
          let same : v ≡ e = ground (arith, h, still) in
          (
            u.locks i v (subst (λ a. held (phases i) ≡ some a) (sym same) holds),
            λ j ne k. ne (u.alone j i v k (subst (λ a. held (phases i) ≡ some a) (sym same) holds)),
          ))
        (λ v h.
          let same : v ≡ e = ground (arith, h, has) in
          omega (arith, same, u.got i e (entry_of-held (phases i) e holds)))
        (λ s v h. inr (runs s v h)) (λ s v h. h)

  -- A call gives back the lock of its entry.
  pub released-IsUsed :
      (i e : ℕ) (q : Phase)
      → held (phases i) ≡ some e
      → held q ≡ none
      → entry_of q ≡ none
      → running q ≡ none
      → IsUsed MayStop sessions (set_at e false locked) fresh (set_at i q phases)
  released-IsUsed i e q holds no_lock no_entry no_run =
      moved-IsUsed sessions (set_at e false locked) fresh i q (omega arith)
        (λ j v ne h.
          let other : v ≢ e =
            λ p. ne (u.alone j i e (subst (λ a. held (phases j) ≡ some a) p h) holds) in
          ground (arith, other, u.locks j v h))
        (λ v h. absurd (cc (h, no_lock))) (λ v h. absurd (cc (h, no_entry)))
        (λ s v h. absurd (cc (h, no_run))) (λ s v h. h)

  -- A waiting call takes the lock of its entry, which is free.
  pub acquired-IsUsed :
      (i e : ℕ) (s : String)
      → phases i ≡ waiting s e
      → locked e ≡ false
      → IsUsed MayStop sessions (set_at e true locked) fresh (set_at i (checking s e) phases)
  acquired-IsUsed i e s waits free =
      moved-IsUsed sessions (set_at e true locked) fresh i (checking s e) (omega arith)
        (λ j v ne h. ground (arith, u.locks j v h))
        (λ v h.
          let same : v ≡ e = ground (arith, h) in
          (ground (arith, same), λ j ne k. cc (u.locks j v k, ap locked same, free)))
        (λ v h.
          let same : v ≡ e = ground (arith, h) in
          omega (arith, same, u.got i e (ap entry_of waits)))
        (λ t v h. absurd (cc h)) (λ t v h. h)

  -- A session is removed on which no code runs, or which may be shut down.
  pub removed-IsUsed :
      (s : String) (e : ℕ)
      → lookup s sessions ≡ some e
      → MayStop s ⊎ ((i : ℕ) → running (phases i) ≢ some (s, e))
      → IsUsed MayStop (erase s sessions) locked fresh phases
  removed-IsUsed s e there free = record {
    locks = u.locks;
    alone = u.alone;
    got = u.got;
    runs = λ i t v h. elim (u.runs i t v h) [
      | inl m ↦ inl m
      | inr found ↦ elim (Bool-cases (s == t)) [
        | inr ne ↦ inr (ground (arith, ne, found, lookup-erase s t sessions))
        | inl eq ↦
            let same : s ≡ t = (eq_iff s t).0 eq in
            elim free [
              | inl m ↦ inl (subst MayStop same m)
              | inr none_runs ↦ absurd (
                  let both : some v ≡ some e =
                    sym found ∙ ap (λ a. lookup a sessions) (sym same) ∙ there in
                  let v_e : v ≡ e = ground (arith, both) in
                  none_runs i (h ∙ ap₂ (λ a b. some (a, b)) (sym same) v_e))
            ]
      ]
    ];
  }

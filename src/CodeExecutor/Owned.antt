-- ===== src/CodeExecutor/Owned.antt =====
-- Every execution lock that is taken is held by a call.
use wotbot.Base.{
  ℕ, String, ◌≡◌, ◌≢◌, ◌⊎◌, inl, inr, refl, sym, ap, ◌∙◌, subst, Bool, true, false, none, some,
  List, [], ◌∷◌, arith, Bool-cases, Option-cases, nat_eq,
}
use wotbot.Base.Dict.{lookup}
use wotbot.CodeExecutor.Pool.{
  Pool, set_at, get_or_create_session, check_entry, end_execution, shutdown, name_of,
  shutdown_by_entry, shutdown_each, idle_sessions, cleanup_idle,
}
use wotbot.CodeExecutor.Calls.{
  Phase, outside, looking, waiting, checking, executing, failing, held, System, moved, checked,
  Step, call, look, refuse, give_up, acquire, check, finish, fail, drop, stop, clean, Reachable,
  start, next,
}
use wotbot.CodeExecutor.Isolation.{phase_cases}
use wotbot.CodeExecutor.Isolation.Moves.{session_of-cases, check_entry-cases}

abbrev pub Owned : (ℕ → Bool) → (ℕ → Phase) → Type 0
Owned locked phases = (e : ℕ) → locked e ≡ true → (i : ℕ) × (held (phases i) ≡ some e)

pub moved_self : (phases : ℕ → Phase) (i : ℕ) (q : Phase) → set_at i q phases i ≡ q
moved_self phases i q = elim (phase_cases phases i q i) [
  | inl (_, p) ↦ p
  | inr (ne, _) ↦ absurd (ne refl)
]

pub moved_other :
    (phases : ℕ → Phase) (i : ℕ) (q : Phase) (j : ℕ) → j ≢ i → set_at i q phases j ≡ phases j
moved_other phases i q j ne = elim (phase_cases phases i q j) [
  | inl (same, _) ↦ absurd (ne same)
  | inr (_, p) ↦ p
]

moved-Owned :
    (locked locked' : ℕ → Bool) (phases : ℕ → Phase) (i : ℕ) (q : Phase)
    → Owned locked phases
    → ((e : ℕ)
        → locked' e ≡ true
        → (held q ≡ some e) ⊎ ((locked e ≡ true) × (held (phases i) ≢ some e)))
    → Owned locked' (set_at i q phases)
moved-Owned locked locked' phases i q owned from e taken = elim (from e taken) [
  | inl mine ↦ (i, ap held (moved_self phases i q) ∙ mine)
  | inr (before, other) ↦
      let (j, holds) = owned e before in
      let ne : j ≢ i = λ same. other (subst (λ k. held (phases k) ≡ some e) same holds) in
      (j, ap held (moved_other phases i q j ne) ∙ holds)
]

-- A call that holds no lock before or after its move.
unlocked-Owned :
    (locked locked' : ℕ → Bool) (phases : ℕ → Phase) (i : ℕ) (q : Phase)
    → Owned locked phases
    → held (phases i) ≡ none
    → ((e : ℕ) → locked' e ≡ true → locked e ≡ true)
    → Owned locked' (set_at i q phases)
unlocked-Owned locked locked' phases i q owned free from =
    moved-Owned locked locked' phases i q owned (λ e taken. inr (from e taken, λ h. cc (h, free)))

-- A call that goes on holding its lock.
holding-Owned :
    (locked : ℕ → Bool) (phases : ℕ → Phase) (i e : ℕ) (q : Phase)
    → Owned locked phases
    → held (phases i) ≡ some e
    → held q ≡ some e
    → Owned locked (set_at i q phases)
holding-Owned locked phases i e q owned holds still =
    moved-Owned locked locked phases i q owned (λ v taken. elim (Bool-cases (nat_eq v e)) [
      | inl eq ↦ let same : v ≡ e = ground (arith, eq) in inl (still ∙ ap some (sym same))
      | inr ne ↦ inr (taken, λ h. ground (arith, h, holds, ne))
    ])

released-Owned :
    (locked : ℕ → Bool) (phases : ℕ → Phase) (i e : ℕ) (q : Phase)
    → Owned locked phases
    → held (phases i) ≡ some e
    → Owned (set_at e false locked) (set_at i q phases)
released-Owned locked phases i e q owned holds =
    moved-Owned locked (set_at e false locked) phases i q owned (λ v taken.
      elim (Bool-cases (nat_eq v e)) [
        | inl eq ↦ absurd (ground (arith, taken, eq))
        | inr ne ↦ inr (ground (arith, taken, ne), λ h. ground (arith, h, holds, ne))
      ])

shutdown-locked : (p : Pool) (name : String) → (shutdown p name).locked ≡ p.locked
unfolding shutdown
shutdown-locked p name = elim (Option-cases (lookup name p.sessions)) [
  | inl e ↦ rw e refl
  | inr (v, e) ↦ rw e refl
]

shutdown_by_entry-locked : (p : Pool) (e : ℕ) → (shutdown_by_entry p e).locked ≡ p.locked
unfolding shutdown_by_entry
shutdown_by_entry-locked p e = elim (Option-cases (name_of e p.sessions)) [
  | inl n ↦ rw n refl
  | inr (v, n) ↦ rw n refl
]

shutdown_each-locked : (p : Pool) (ids : List String) → (shutdown_each p ids).locked ≡ p.locked
unfolding shutdown_each
shutdown_each-locked p [] = refl
shutdown_each-locked p (name ∷ ids) =
    shutdown_each-locked (shutdown p name) ids ∙ shutdown-locked p name

cleanup_idle-locked :
    (p : Pool) (idle_timeout now : ℕ) → (cleanup_idle idle_timeout p now).locked ≡ p.locked
unfolding cleanup_idle
cleanup_idle-locked p idle_timeout now = shutdown_each-locked p (idle_sessions idle_timeout p now)

module _ (MayStop : String → Type 0) (max_sessions : ℕ) where
  abbrev pub SystemOwned : System → Type 0
  SystemOwned s = Owned s.pool.locked s.phases

  looked-Owned :
      (s : System) (i : ℕ) (name : String) (pid now entry : ℕ) (p : Pool)
      → SystemOwned s
      → s.phases i ≡ looking name
      → get_or_create_session max_sessions s.pool name pid now ≡ some (entry, p)
      → SystemOwned (moved s p i (waiting name entry))
  unfolding get_or_create_session
  looked-Owned s i name pid now entry p owned at got =
      unlocked-Owned s.pool.locked p.locked s.phases i (waiting name entry) owned (ap held at)
        (λ e taken.
          elim (session_of-cases max_sessions s.pool name pid now (lookup name s.pool.sessions)
            entry p got) [
              | inl (_, same) ↦ ap (λ (d : Pool). d.locked e) (sym same) ∙ taken
              | inr (_, _, _, made) ↦
                  let still = ap (λ (d : Pool). d.locked e) (sym made) ∙ taken in
                  ground (arith, still)
            ])

  checked-Owned :
      (s : System) (i : ℕ) (name : String) (e now : ℕ) (pid_is_alive : ℕ → Bool)
      → SystemOwned s
      → s.phases i ≡ checking name e
      → SystemOwned (checked s i name e now (check_entry pid_is_alive s.pool name e))
  checked-Owned s i name e now pid_is_alive owned at =
      let holds : held (s.phases i) ≡ some e = ap held at in
      let back = released-Owned s.pool.locked s.phases i e (looking name) owned holds in
      elim (check_entry-cases pid_is_alive s.pool name e) [
        | inr stale ↦ rw stale back
        | inl (_, inr dead) ↦ rw dead back
        | inl (_, inl up) ↦
            rw up (holding-Owned s.pool.locked s.phases i e (executing name e) owned holds refl)
      ]

  step-Owned : (s t : System) → SystemOwned s → Step MayStop max_sessions s t → SystemOwned t
  unfolding end_execution
  step-Owned s t owned (call i name at) =
      unlocked-Owned s.pool.locked s.pool.locked s.phases i (looking name) owned (ap held at)
        (λ e h. h)
  step-Owned s t owned (look i name pid now e p at got) =
      looked-Owned s i name pid now e p owned at got
  step-Owned s t owned (refuse i name pid now at got) =
      unlocked-Owned s.pool.locked s.pool.locked s.phases i outside owned (ap held at) (λ e h. h)
  step-Owned s t owned (give_up i name e at) =
      unlocked-Owned s.pool.locked s.pool.locked s.phases i outside owned (ap held at) (λ e h. h)
  step-Owned s t owned (acquire i name e at free) =
      moved-Owned s.pool.locked (set_at e true s.pool.locked) s.phases i (checking name e) owned
        (λ v taken. elim (Bool-cases (nat_eq v e)) [
          | inl eq ↦ let same : v ≡ e = ground (arith, eq) in inl (ap some (sym same))
          | inr ne ↦ inr (ground (arith, taken, ne), λ h. cc (h, ap held at))
        ])
  step-Owned s t owned (check alive i name e now at) = checked-Owned s i name e now alive owned at
  step-Owned s t owned (finish i name e next_worker_pid now at) =
      released-Owned s.pool.locked s.phases i e outside owned (ap held at)
  step-Owned s t owned (fail i name e at) =
      holding-Owned s.pool.locked s.phases i e (failing name e) owned (ap held at) refl
  step-Owned s t owned (drop i name e now at) =
      subst (λ l. Owned (set_at e false l) (set_at i outside s.phases))
        (sym (shutdown_by_entry-locked s.pool e))
        (released-Owned s.pool.locked s.phases i e outside owned (ap held at))
  step-Owned s t owned (stop name may) =
      subst (λ l. Owned l s.phases) (sym (shutdown-locked s.pool name)) owned
  step-Owned s t owned (clean idle_timeout now) =
      subst (λ l. Owned l s.phases) (sym (cleanup_idle-locked s.pool idle_timeout now)) owned

  pub Reachable-Owned : (s : System) → Reachable MayStop max_sessions s → SystemOwned s
  Reachable-Owned s start = λ e taken. absurd (cc taken)
  Reachable-Owned t (next {s} before step) = step-Owned s t (Reachable-Owned s before) step

-- ===== src/CodeExecutor/Release.antt =====
-- No execution lock is left behind: who holds it can always give it back.
use wotbot.Base.{
  ℕ, String, ◌≡◌, ◌≢◌, inl, inr, refl, sym, ap, ◌∙◌, subst, Bool, true, false, none, some, arith,
}
use wotbot.CodeExecutor.Pool.{
  Pool, remove, check_entry, set_locked, used, end_execution, shutdown_by_entry,
}
use wotbot.CodeExecutor.Calls.{
  Phase, outside, looking, waiting, checking, executing, failing, held, running, System, moved,
  checked, Step, check, finish, drop, Reachable,
}
use wotbot.CodeExecutor.Isolation.Moves.{check_entry-cases}
use wotbot.CodeExecutor.Owned.{moved_self, moved_other, Reachable-Owned}

module _ (MayStop : String → Type 0) (max_sessions : ℕ) where
  -- Steps each of which moves one call, and leaves all others where they are.
  pub data OwnSteps (i : ℕ) (s : System) : System → Type 0 where
    none_more : OwnSteps i s s
    one_more :
        {t u : System}
        → OwnSteps i s t
        → Step MayStop max_sessions t u
        → u.phases i ≢ t.phases i
        → ((j : ℕ) → j ≢ i → u.phases j ≡ t.phases j)
        → OwnSteps i s u

  -- A call holds the lock of the entry, and gives it back by steps of its own.
  abbrev pub CanRelease : System → ℕ → Type 0
  CanRelease s e =
      (i : ℕ) × (held (s.phases i) ≡ some e)
      × (t : System) × OwnSteps i s t
      × (t.pool.locked e ≡ false)
      × (held (t.phases i) ≡ none)

  -- The last step of the call `i`, which gives back the lock of `e`.
  last_step :
      (s u : System) (i e : ℕ) (p : Pool) (q : Phase)
      → OwnSteps i s u
      → Step MayStop max_sessions u (moved u (set_locked p e false) i q)
      → held (u.phases i) ≡ some e
      → held q ≡ none
      → (t : System) × OwnSteps i s t × (t.pool.locked e ≡ false) × (held (t.phases i) ≡ none)
  last_step s u i e p q before step holds free = (
    moved u (set_locked p e false) i q,
    one_more before step (λ same. cc (holds, free, ap held (sym (moved_self u.phases i q))))
        (λ j ne. moved_other u.phases i q j ne),
    ground arith,
    ap held (moved_self u.phases i q) ∙ free,
  )

  -- The code that runs ends.
  finished :
      (s u : System) (i e : ℕ) (name : String)
      → OwnSteps i s u
      → u.phases i ≡ executing name e
      → (t : System) × OwnSteps i s t × (t.pool.locked e ≡ false) × (held (t.phases i) ≡ none)
  finished s u i e name before at =
      last_step s u i e (end_execution u.pool e none 0) outside before (finish i name e none 0 at)
        (ap held at) refl

  -- The entry is checked, and its code runs if the check succeeds.
  checks :
      (s : System) (i e : ℕ) (name : String)
      → s.phases i ≡ checking name e
      → (t : System) × OwnSteps i s t × (t.pool.locked e ≡ false) × (held (t.phases i) ≡ none)
  checks s i e name at =
      let alive = λ (pid : ℕ). true in
      let step = λ (r : Bool × Pool) (got : check_entry alive s.pool name e ≡ r).
        subst (λ a. Step MayStop max_sessions s (checked s i name e 0 a)) got
          (check alive i name e 0 at) in
      elim (check_entry-cases alive s.pool name e) [
        | inr stale ↦
            last_step s s i e s.pool (looking name) none_more (step (false, s.pool) stale)
              (ap held at) refl
        | inl (_, inr dead) ↦
            last_step s s i e (remove s.pool name e) (looking name) none_more
              (step (false, remove s.pool name e) dead) (ap held at) refl
        | inl (_, inl up) ↦
            finished s (moved s (used s.pool e 0) i (executing name e)) i e name
              (one_more none_more (step (true, s.pool) up)
                (λ same. cc (at, ap running (moved_self s.phases i (executing name e))))
                (λ j ne. moved_other s.phases i (executing name e) j ne))
              (moved_self s.phases i (executing name e))
      ]

  holder_releases :
      (s : System) (i e : ℕ) (q : Phase)
      → s.phases i ≡ q
      → held q ≡ some e
      → (t : System) × OwnSteps i s t × (t.pool.locked e ≡ false) × (held (t.phases i) ≡ none)
  holder_releases s i e outside at h = cc h
  holder_releases s i e (looking name) at h = cc h
  holder_releases s i e (waiting name v) at h = cc h
  holder_releases s i e (checking name v) at h =
      checks s i e name (at ∙ ap (checking name) (ground (arith, h)))
  holder_releases s i e (executing name v) at h =
      finished s s i e name none_more (at ∙ ap (executing name) (ground (arith, h)))
  holder_releases s i e (failing name v) at h =
      last_step s s i e (used (shutdown_by_entry s.pool e) e 0) outside none_more
        (drop i name e 0 (at ∙ ap (failing name) (ground (arith, h)))) (ap held at ∙ h) refl

  -- No execution lock is left behind: whenever the lock of an entry is taken, a call of `execute`
  -- holds it, and steps of that call alone lead to a state in which the lock is free and the call
  -- holds none, whatever has happened before.
  pub locked-CanRelease :
      (s : System) (e : ℕ)
      → Reachable MayStop max_sessions s
      → s.pool.locked e ≡ true
      → CanRelease s e
  locked-CanRelease s e reached taken =
      let (i, holds) = Reachable-Owned MayStop max_sessions s reached e taken in
      let (t, steps, free, none_held) = holder_releases s i e (s.phases i) refl holds in
      (i, holds, t, steps, free, none_held)

-- ===== src/CodeExecutor/Isolation/Reached.antt =====
-- Every step of a call keeps the calls apart.
use wotbot.Base.{ℕ, ◌≤◌, String, ◌≡◌, ◌⊎◌, inl, inr, refl, sym, ap, ◌∙◌, true, some, length, arith}
use wotbot.Base.Dict.{lookup}
use wotbot.CodeExecutor.Pool.{set_at, end_execution}
use wotbot.CodeExecutor.Calls.{
  outside, looking, executing, failing, held, running, System, Step, call, look, refuse, give_up,
  acquire, check, finish, fail, drop, stop, clean, Reachable, start, next, no_calls,
}
use wotbot.CodeExecutor.Isolation.Moves.{
  kept-IsTable, released, moved_only, looked, check_ended, dropped,
}
use wotbot.CodeExecutor.Isolation.{held-IsUsed, acquired-IsUsed}
use wotbot.CodeExecutor.Isolation.Cleanup.{IsIsolated, shutdown-IsIsolated, cleanup_idle-IsIsolated}

module _ (MayStop : String → Type 0) (max_sessions : ℕ) where
  pub step-IsIsolated :
      (s t : System)
      → IsIsolated MayStop max_sessions s
      → Step MayStop max_sessions s t
      → IsIsolated MayStop max_sessions t
  unfolding end_execution
  step-IsIsolated s t h (call i name at) =
      moved_only MayStop max_sessions s i (looking name) h refl refl (λ e k. absurd (cc k))
  step-IsIsolated s t h (look i name pid now e p at got) =
      looked MayStop max_sessions s i name pid now e p h got
  step-IsIsolated s t h (refuse i name pid now at got) =
      moved_only MayStop max_sessions s i outside h refl refl (λ e k. absurd (cc k))
  step-IsIsolated s t h (give_up i name e at) =
      moved_only MayStop max_sessions s i outside h refl refl (λ e k. absurd (cc k))
  step-IsIsolated s t h (acquire i name e at free) = record {
    table =
        kept-IsTable max_sessions s.pool s.pool.worker_pid s.pool.last_used
          (set_at e true s.pool.locked) h.table;
    used =
        acquired-IsUsed MayStop s.pool.sessions s.pool.locked s.pool.fresh s.phases h.used i e name
          at free;
  }
  step-IsIsolated s t h (check alive i name e now at) =
      check_ended MayStop max_sessions s i name e now alive h at
  step-IsIsolated s t h (finish i name e next_worker_pid now at) =
      released MayStop max_sessions s i e outside _ _ h (ap held at) refl refl refl
  step-IsIsolated s t h (fail i name e at) = record {
    table = h.table;
    used =
        held-IsUsed MayStop s.pool.sessions s.pool.locked s.pool.fresh s.phases h.used i e
          (failing name e) (ap held at) refl refl (λ t v k. absurd (cc k));
  }
  step-IsIsolated s t h (drop i name e now at) = dropped MayStop max_sessions s i name e now h at
  step-IsIsolated s t h (stop name may) =
      shutdown-IsIsolated MayStop max_sessions s name h (λ e k. inl may)
  step-IsIsolated s t h (clean idle_timeout now) =
      cleanup_idle-IsIsolated MayStop max_sessions s idle_timeout now h

  no_calls-IsIsolated : IsIsolated MayStop max_sessions no_calls
  unfolding lookup
  no_calls-IsIsolated = record {
    table = record {
      dict = tt;
      made = λ s e h. absurd (cc h);
      opened = λ s e h. absurd (cc h);
      one = λ s t e h k. absurd (cc h);
      fits = omega arith;
    };
    used = record {
      locks = λ i e h. absurd (cc h);
      alone = λ i j e h k. absurd (cc h);
      got = λ i e h. absurd (cc h);
      runs = λ i s e h. absurd (cc h);
    };
  }

  pub Reachable-IsIsolated :
      (s : System) → Reachable MayStop max_sessions s → IsIsolated MayStop max_sessions s
  Reachable-IsIsolated s start = no_calls-IsIsolated
  Reachable-IsIsolated t (next {s} before step) =
      step-IsIsolated s t (Reachable-IsIsolated s before) step

not_stopped {ℓ κ} : {A : Type ℓ} {B : Type κ} → ¬ A → A ⊎ B → B
not_stopped never (inl a) = absurd (never a)
not_stopped never (inr b) = b

-- While a session is not shut down from outside, its code runs one at a time: two calls of `execute`
-- whose code runs are the same call, if they have the same session, or the same entry and with it
-- the same worker. The entry is the one that the table has for the session, its connection is open,
-- its lock is taken, and the table has no more than `max_sessions` sessions. This holds in every
-- interleaving of calls, of workers found dead, of failed exchanges and of the cleanup.
pub executing_alone :
    (MayStop : String → Type 0) (max_sessions : ℕ) (s : System) (i j : ℕ)
    (session_id other : String) (e v : ℕ)
    → Reachable MayStop max_sessions s
    → ¬ MayStop session_id
    → s.phases i ≡ executing session_id e
    → s.phases j ≡ executing other v
    → ((session_id ≡ other) ⊎ (e ≡ v))
    → (i ≡ j)
      × (lookup session_id s.pool.sessions ≡ some e)
      × (s.pool.is_open e ≡ true)
      × (s.pool.locked e ≡ true)
      × (length s.pool.sessions ≤ max_sessions)
executing_alone MayStop max_sessions s i j session_id other e v reached stays at_i at_j shared =
    let h = Reachable-IsIsolated MayStop max_sessions s reached in
    let current = λ (k n : ℕ) (at : s.phases k ≡ executing session_id n).
      not_stopped stays (h.used.runs k session_id n (ap running at)) in
    let same : e ≡ v = elim shared [
      | inr q ↦ q
      | inl q ↦
          let mine = current j v (at_j ∙ ap (λ a. executing a v) (sym q)) in
          ground (arith, sym (current i e at_i) ∙ mine)
    ] in
    (
      h.used.alone i j e (ap held at_i) (ap held at_j ∙ ap some (sym same)),
      current i e at_i,
      h.table.opened session_id e (current i e at_i),
      h.used.locks i e (ap held at_i),
      h.table.fits,
    )

-- ===== src/CodeExecutor/Isolation/Cleanup.antt =====
-- Sessions that leave the table, one by one or in the cleanup.
use wotbot.Base.{
  ℕ, String, ◌≡◌, ◌≢◌, ◌⊎◌, inl, inr, sym, ap, ◌∙◌, true, false, none, some, List, [], ◌∷◌, All,
  All-map, arith, Option-cases,
}
use wotbot.Base.Dict.{
  Dict, lookup, keys, keep_entries, keep_entries-IsDict, IsDict-FoundIn, lookup-keep_entries,
}
use wotbot.CodeExecutor.Pool.{
  Pool, remove, shutdown, name_of, shutdown_by_entry, shutdown_each, is_idle, cleanup_idle,
}
use wotbot.CodeExecutor.Calls.{Phase, held, running, System}
use wotbot.CodeExecutor.Table.{IsTable, lookup-erase_found, remove-IsTable, name_of-eq_some}
use wotbot.CodeExecutor.Isolation.{IsUsed, held-running, removed-IsUsed}

-- The table is in order, each lock is held by one call at most, and running code has the entry of its
-- session.
pub record IsIsolated (MayStop : String → Type 0) (max_sessions : ℕ) (s : System) : Type 0 where
  pub table : IsTable max_sessions s.pool
  pub used : IsUsed MayStop s.pool.sessions s.pool.locked s.pool.fresh s.phases

module _ (MayStop : String → Type 0) (max_sessions : ℕ) where
  pub removed-IsIsolated :
      (s : System) (session_id : String) (e : ℕ)
      → IsIsolated MayStop max_sessions s
      → lookup session_id s.pool.sessions ≡ some e
      → MayStop session_id ⊎ ((i : ℕ) → running (s.phases i) ≢ some (session_id, e))
      → IsIsolated MayStop max_sessions (record s { pool = remove s.pool session_id e })
  removed-IsIsolated s session_id e h there free = record {
    table = remove-IsTable max_sessions s.pool session_id e h.table there;
    used =
        removed-IsUsed MayStop s.pool.sessions s.pool.locked s.pool.fresh s.phases h.used session_id
          e there free;
  }

  -- The pool without the session `session_id`, where `free` says that it may go.
  pub shutdown-IsIsolated :
      (s : System) (session_id : String)
      → IsIsolated MayStop max_sessions s
      → ((e : ℕ)
          → lookup session_id s.pool.sessions ≡ some e
          → MayStop session_id ⊎ ((i : ℕ) → running (s.phases i) ≢ some (session_id, e)))
      → IsIsolated MayStop max_sessions (record s { pool = shutdown s.pool session_id })
  unfolding shutdown
  shutdown-IsIsolated s session_id h free =
      elim (Option-cases (lookup session_id s.pool.sessions)) [
        | inl e ↦ rw e h
        | inr (v, e) ↦ rw e (removed-IsIsolated s session_id v h e (free v e))
      ]

  -- No other call runs code on an entry whose lock is held.
  pub only_holder :
      (s : System) (i e : ℕ)
      → IsIsolated MayStop max_sessions s
      → held (s.phases i) ≡ some e
      → running (s.phases i) ≡ none
      → (name : String) (j : ℕ) → running (s.phases j) ≢ some (name, e)
  only_holder s i e h holds rests name j r =
      let same : i ≡ j = h.used.alone i j e holds (held-running (s.phases j) name e r) in
      cc (rests, r, ap (λ k. running (s.phases k)) same)

  -- The holder of the lock of an entry that runs no code removes it from the table.
  pub shutdown_by_entry-IsIsolated :
      (s : System) (i e : ℕ)
      → IsIsolated MayStop max_sessions s
      → held (s.phases i) ≡ some e
      → running (s.phases i) ≡ none
      → IsIsolated MayStop max_sessions (record s { pool = shutdown_by_entry s.pool e })
  unfolding shutdown_by_entry
  shutdown_by_entry-IsIsolated s i e h holds rests =
      elim (Option-cases (name_of e s.pool.sessions)) [
        | inl n ↦ rw n h
        | inr (name, n) ↦ rw n (
            removed-IsIsolated s name e h (name_of-eq_some e s.pool.sessions name h.table.dict n)
              (inr (only_holder s i e h holds rests name)))
      ]

-- The sessions whose locks are free.
abbrev pub IsFree : Pool → String → Type 0
IsFree p session_id = (e : ℕ) → lookup session_id p.sessions ≡ some e → p.locked e ≡ false

shutdown-IsFree :
    (p : Pool) (name session_id : String)
    → IsFree p session_id
    → IsFree (shutdown p name) session_id
unfolding shutdown
shutdown-IsFree p name session_id h = elim (Option-cases (lookup name p.sessions)) [
  | inl e ↦ rw e h
  | inr (v, e) ↦ rw e (λ w k. h w (lookup-erase_found name session_id w p.sessions k).1)
]

idle-IsFree :
    (p : Pool) (idle_timeout now : ℕ) (session_id : String) (e : ℕ)
    → lookup session_id p.sessions ≡ some e
    → is_idle idle_timeout p now e ≡ true
    → IsFree p session_id
idle-IsFree p idle_timeout now session_id e found idle v there =
    let same : v ≡ e = ground (arith, sym there ∙ found) in ground (arith, idle, same)

All-keys {ℓ κ} :
    {V : Type ℓ} (P : String → Type κ) (d : Dict V) → All (λ x. P x.0) d → All P (keys d)
All-keys P [] h = tt
All-keys P (x ∷ d) h = (h.0, All-keys P d h.1)

idle_keys-IsFree :
    (max_sessions : ℕ) (p : Pool) (idle_timeout now : ℕ)
    → IsTable max_sessions p
    → All (IsFree p) (keys (keep_entries (λ s e. is_idle idle_timeout p now e) p.sessions))
idle_keys-IsFree max_sessions p idle_timeout now t =
    let test = λ (s : String) (e : ℕ). is_idle idle_timeout p now e in
    let kept = keep_entries test p.sessions in
    All-keys (IsFree p) kept (
      All-map _ _ kept
        (λ x found.
          let (there, idle) = (lookup-keep_entries test x.0 x.1 p.sessions t.dict).0 found in
          idle-IsFree p idle_timeout now x.0 x.1 there idle)
        (IsDict-FoundIn kept (keep_entries-IsDict test p.sessions t.dict)))

module _ (MayStop : String → Type 0) (max_sessions : ℕ) where
  shutdown_each-IsIsolated :
      (phases : ℕ → Phase) (ids : List String) (p : Pool)
      → IsIsolated MayStop max_sessions (record { pool = p; phases = phases })
      → All (IsFree p) ids
      → IsIsolated MayStop max_sessions (record { pool = shutdown_each p ids; phases = phases })
  unfolding shutdown_each
  shutdown_each-IsIsolated phases [] p h free = h
  shutdown_each-IsIsolated phases (name ∷ ids) p h free =
      let s : System = record { pool = p; phases = phases } in
      shutdown_each-IsIsolated phases ids (shutdown p name)
        (shutdown-IsIsolated MayStop max_sessions s name h (λ e there.
          inr λ i r. cc (h.used.locks i e (held-running (phases i) name e r), free.0 e there)))
        (All-map _ _ ids (λ x f. shutdown-IsFree p name x f) free.1)

  pub cleanup_idle-IsIsolated :
      (s : System) (idle_timeout now : ℕ)
      → IsIsolated MayStop max_sessions s
      → IsIsolated MayStop max_sessions (record s { pool = cleanup_idle idle_timeout s.pool now })
  unfolding cleanup_idle
  cleanup_idle-IsIsolated s idle_timeout now h =
      shutdown_each-IsIsolated s.phases _ s.pool h
        (idle_keys-IsFree max_sessions s.pool idle_timeout now h.table)

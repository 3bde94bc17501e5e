-- ===== src/CodeExecutor/Isolation/Moves.antt =====
-- The steps of a call that change the table or give back a lock keep the calls apart.
use wotbot.Base.{
  ℕ, ◌+◌, ◌<◌, String, ◌≡◌, ◌⊎◌, inl, inr, refl, sym, ap, ◌∙◌, subst, subst₂, Bool, true, false,
  Option, none, some, length, arith, Bool-cases, leb,
}
use wotbot.Base.Dict.{lookup, insert, lookup-insert_ne}
use wotbot.CodeExecutor.Pool.{
  Pool, set_at, created, session_of, get_or_create_session, remove, is_entry, check_entry,
  set_locked, used, shutdown_by_entry,
}
use wotbot.CodeExecutor.Calls.{
  Phase, outside, looking, waiting, checking, executing, failing, held, entry_of, running, System,
  moved, checked,
}
use wotbot.CodeExecutor.Table.{IsTable, created-IsTable}
use wotbot.CodeExecutor.Isolation.{
  entry_of-held, moved-IsUsed, idle-IsUsed, held-IsUsed, released-IsUsed,
}
use wotbot.CodeExecutor.Isolation.Cleanup.{
  IsIsolated, removed-IsIsolated, only_holder, shutdown_by_entry-IsIsolated,
}

-- The table does not see the other fields of the entries.
pub kept-IsTable :
    (max_sessions : ℕ) (p : Pool) (pids times : ℕ → ℕ) (locks : ℕ → Bool)
    → IsTable max_sessions p
    → IsTable max_sessions (record p { worker_pid = pids; last_used = times; locked = locks })
kept-IsTable max_sessions p pids times locks t = record {
  dict = t.dict;
  made = t.made;
  opened = t.opened;
  one = t.one;
  fits = t.fits;
}

is_entry-eq_true : (o : Option ℕ) (e : ℕ) → is_entry o e ≡ true → o ≡ some e
is_entry-eq_true none e h = cc
is_entry-eq_true (some v) e h = ground (arith, h)

abbrev in_some {ℓ} : {A : Type ℓ} → A → Option A → A
in_some a none = a
in_some a (some b) = b

same_in_some {ℓ} : {A : Type ℓ} (x y : A) → some x ≡ some y → x ≡ y
same_in_some x y h = ap (in_some y) h

-- The session is there, or is made where the table has room.
pub session_of-cases :
    (max_sessions : ℕ) (p : Pool) (session_id : String) (pid now : ℕ) (o : Option ℕ) (entry : ℕ)
    (p' : Pool)
    → session_of max_sessions p session_id pid now o ≡ some (entry, p')
    → ((o ≡ some entry) × (p' ≡ p))
      ⊎ ((o ≡ none)
          × (leb max_sessions (length p.sessions) ≡ false)
          × (entry ≡ p.fresh)
          × (p' ≡ created p session_id pid now))
session_of-cases max_sessions p session_id pid now (some e) entry p' h =
    let both = same_in_some (e, p) (entry, p') h in
    inl (ap (λ x. some x.0) both, ap (λ x. x.1) (sym both))
session_of-cases max_sessions p session_id pid now none entry p' h =
    elim (Bool-cases (leb max_sessions (length p.sessions))) [
      | inl full ↦ absurd (cc (rw full at h))
      | inr small ↦
          let both =
            same_in_some (p.fresh, created p session_id pid now) (entry, p') (rw small at h) in
          inr (refl, small, ap (λ x. x.0) (sym both), ap (λ x. x.1) (sym both))
    ]

pub check_entry-cases :
    (pid_is_alive : ℕ → Bool) (p : Pool) (session_id : String) (e : ℕ)
    → ((lookup session_id p.sessions ≡ some e)
        × ((check_entry pid_is_alive p session_id e ≡ (true, p))
            ⊎ (check_entry pid_is_alive p session_id e ≡ (false, remove p session_id e))))
      ⊎ (check_entry pid_is_alive p session_id e ≡ (false, p))
unfolding check_entry
check_entry-cases pid_is_alive p session_id e =
    elim (Bool-cases (is_entry (lookup session_id p.sessions) e)) [
      | inr gone ↦ inr (rw gone refl)
      | inl current ↦ inl (
        is_entry-eq_true (lookup session_id p.sessions) e current,
        elim (Bool-cases (pid_is_alive (p.worker_pid e))) [
          | inl up ↦ inl (rw current (rw up refl))
          | inr dead ↦ inr (rw current (rw dead refl))
        ],
      )
    ]

module _ (MayStop : String → Type 0) (max_sessions : ℕ) where
  abbrev pub Isolated : System → Type 0
  Isolated = IsIsolated MayStop max_sessions

  pub released :
      (s : System) (i e : ℕ) (q : Phase) (pids times : ℕ → ℕ)
      → Isolated s
      → held (s.phases i) ≡ some e
      → held q ≡ none
      → entry_of q ≡ none
      → running q ≡ none
      → Isolated (
          moved s
            (record s.pool {
              worker_pid = pids;
              last_used = times;
              locked = set_at e false s.pool.locked;
            })
            i
            q)
  released s i e q pids times h holds a b c = record {
    table = kept-IsTable max_sessions s.pool pids times (set_at e false s.pool.locked) h.table;
    used =
        released-IsUsed MayStop s.pool.sessions s.pool.locked s.pool.fresh s.phases h.used i e q
          holds a b c;
  }

  pub moved_only :
      (s : System) (i : ℕ) (q : Phase)
      → Isolated s
      → held q ≡ none
      → running q ≡ none
      → ((e : ℕ) → entry_of q ≡ some e → e < s.pool.fresh)
      → Isolated (moved s s.pool i q)
  moved_only s i q h a b gets = record {
    table = h.table;
    used =
        idle-IsUsed MayStop s.pool.sessions s.pool.locked s.pool.fresh s.phases h.used i q a b gets;
  }

  created_for :
      (s : System) (i : ℕ) (session_id : String) (pid now : ℕ)
      → Isolated s
      → lookup session_id s.pool.sessions ≡ none
      → leb max_sessions (length s.pool.sessions) ≡ false
      → Isolated (moved s (created s.pool session_id pid now) i (waiting session_id s.pool.fresh))
  created_for s i session_id pid now h new small = record {
    table = created-IsTable max_sessions s.pool session_id pid now h.table small;
    used =
        moved-IsUsed MayStop s.pool.sessions s.pool.locked s.pool.fresh s.phases h.used
          (insert session_id s.pool.fresh s.pool.sessions) (set_at s.pool.fresh false s.pool.locked)
          (s.pool.fresh + 1) i (waiting session_id s.pool.fresh) (omega arith)
          (λ j e _ k.
            ground (arith, h.used.locks j e k, h.used.got j e (entry_of-held (s.phases j) e k)))
          (λ e k. absurd (cc k)) (λ e k. ground (arith, k)) (λ t e k. absurd (cc k))
          (λ t e k.
            lookup-insert_ne session_id t s.pool.fresh s.pool.sessions
              (λ same. cc (k, new, ap (λ a. lookup a s.pool.sessions) same))
            ∙ k);
  }

  pub looked :
      (s : System) (i : ℕ) (session_id : String) (pid now entry : ℕ) (p : Pool)
      → Isolated s
      → get_or_create_session max_sessions s.pool session_id pid now ≡ some (entry, p)
      → Isolated (moved s p i (waiting session_id entry))
  unfolding get_or_create_session
  looked s i session_id pid now entry p h got =
      elim (session_of-cases max_sessions s.pool session_id pid now
        (lookup session_id s.pool.sessions) entry p got) [
          | inl (there, kept) ↦
              subst (λ d. Isolated (moved s d i (waiting session_id entry))) (sym kept)
                (moved_only s i (waiting session_id entry) h refl refl (λ v k.
                  let same : v ≡ entry = ground (arith, k) in
                  omega (arith, same, h.table.made session_id entry there)))
          | inr (absent, small, new, made) ↦
              subst₂ (λ v d. Isolated (moved s d i (waiting session_id v))) (sym new) (sym made)
                (created_for s i session_id pid now h absent small)
        ]

  pub check_ended :
      (s : System) (i : ℕ) (session_id : String) (e now : ℕ) (pid_is_alive : ℕ → Bool)
      → Isolated s
      → s.phases i ≡ checking session_id e
      → Isolated (checked s i session_id e now (check_entry pid_is_alive s.pool session_id e))
  check_ended s i session_id e now pid_is_alive h at =
      let holds : held (s.phases i) ≡ some e = ap held at in
      elim (check_entry-cases pid_is_alive s.pool session_id e) [
        | inr stale ↦ rw stale (
            released s i e (looking session_id) s.pool.worker_pid s.pool.last_used h holds refl refl
              refl)
        | inl (there, inr dead) ↦ rw dead (
            released (record s { pool = remove s.pool session_id e }) i e (looking session_id)
              s.pool.worker_pid s.pool.last_used
              (removed-IsIsolated MayStop max_sessions s session_id e h there
                (inr (only_holder MayStop max_sessions s i e h holds (ap running at) session_id)))
              holds refl refl refl)
        | inl (there, inl up) ↦ rw up (record {
          table =
              kept-IsTable max_sessions s.pool s.pool.worker_pid (set_at e now s.pool.last_used)
                s.pool.locked h.table;
          used =
              held-IsUsed MayStop s.pool.sessions s.pool.locked s.pool.fresh s.phases h.used i e
                (executing session_id e) holds refl refl
                (λ t v k.
                  let both = same_in_some (session_id, e) (t, v) k in
                  subst (λ x. lookup x.0 s.pool.sessions ≡ some x.1) both there);
        })
      ]

  pub dropped :
      (s : System) (i : ℕ) (session_id : String) (e now : ℕ)
      → Isolated s
      → s.phases i ≡ failing session_id e
      → Isolated (moved s (set_locked (used (shutdown_by_entry s.pool e) e now) e false) i outside)
  unfolding shutdown_by_entry
  dropped s i session_id e now h at =
      let p = shutdown_by_entry s.pool e in
      let holds : held (s.phases i) ≡ some e = ap held at in
      released (record s { pool = p }) i e outside p.worker_pid (set_at e now p.last_used)
        (shutdown_by_entry-IsIsolated MayStop max_sessions s i e h holds (ap running at)) holds refl
        refl refl

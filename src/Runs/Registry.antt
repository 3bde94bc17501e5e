-- ===== src/Runs/Registry.antt =====
-- `RunRegistry` of core/agent_runs.py: the task of each running thread, and the locks that make the
-- runs of a thread follow one another. Tasks and lock entries are objects, compared by identity: a
-- number names each. `done` tells which tasks have ended.
pub mod Locks
use wotbot.Base.{
  ℕ, zero, suc, ◌+◌, ◌-◌, String, ◌≡◌, ◌≢◌, inl, inr, refl, sym, ◌∙◌, Bool, true, false, not, ◌&&◌,
  Option, none, some, arith, Bool-cases, Option-cases, nat_eq, if◌then◌else◌, ==_self,
}
use wotbot.Base.Dict.{Dict, lookup, insert, erase, lookup-insert, lookup-erase, lookup-insert_self}

-- `users` is the field of each entry; `fresh` names the next new one.
pub record Registry : Type 0 where
  pub tasks : Dict ℕ
  pub thread_locks : Dict ℕ
  pub users : ℕ → ℕ
  pub fresh : ℕ

-- `task is not None and not task.done()`
abbrev pub alive : (ℕ → Bool) → Option ℕ → Bool
alive done none = false
alive done (some task) = not (done task)

unfoldable pub register : (ℕ → Bool) → Registry → String → ℕ → Bool × Registry
register done r thread_id task =
    if alive done (lookup thread_id r.tasks)
    then (false, r)
    else (true, record r { tasks = insert thread_id task r.tasks })

abbrev pub is_task : Option ℕ → ℕ → Bool
is_task none task = false
is_task (some t) task = nat_eq t task

unfoldable pub unregister : Registry → String → ℕ → Registry
unregister r thread_id task =
    if is_task (lookup thread_id r.tasks) task
    then record r { tasks = erase thread_id r.tasks }
    else r

-- `cancel`: the task that is told to stop, if there is one.
unfoldable pub cancel : (ℕ → Bool) → Registry → String → Option ℕ
cancel done r thread_id =
    let task = lookup thread_id r.tasks in if alive done task then task else none

unfoldable pub is_running : (ℕ → Bool) → Registry → String → Bool
is_running done r thread_id = alive done (lookup thread_id r.tasks)

-- One field of one entry.
abbrev pub set_users : ℕ → ℕ → (ℕ → ℕ) → ℕ → ℕ
set_users entry n users e = if nat_eq e entry then n else users e

abbrev pub entered : Registry → String → Option ℕ → ℕ × Registry
entered r thread_id none = (
  r.fresh,
  record r {
    thread_locks = insert thread_id r.fresh r.thread_locks;
    users = set_users r.fresh 1 r.users;
    fresh = r.fresh + 1;
  },
)
entered r thread_id (some entry) =
    (entry, record r { users = set_users entry (r.users entry + 1) r.users })

-- `thread_lock`, before the lock is taken: the entry that the caller holds on to.
unfoldable pub enter : Registry → String → ℕ × Registry
enter r thread_id = entered r thread_id (lookup thread_id r.thread_locks)

-- The `finally` of `thread_lock`.
unfoldable pub leave : Registry → String → ℕ → Registry
leave r thread_id entry =
    let left = r.users entry - 1 in
    let r' = record r { users = set_users entry left r.users } in
    if nat_eq left 0 && is_task (lookup thread_id r.thread_locks) entry
    then record r' { thread_locks = erase thread_id r.thread_locks }
    else r'

-- While a registered task has not ended, no other task can be registered for the thread, the
-- thread is running, a cancel reaches that task, and unregistering another task has no effect on
-- it; its own unregistering frees the thread.
register-register :
    (done : ℕ → Bool) (r : Registry) (thread_id : String) (task other : ℕ)
    → (register done r thread_id task).0 ≡ true
    → done task ≡ false
    → task ≢ other
    → let r' = (register done r thread_id task).1 in
      (register done r' thread_id other ≡ (false, r'))
      × (is_running done r' thread_id ≡ true)
      × (cancel done r' thread_id ≡ some task)
      × (unregister r' thread_id other ≡ r')
      × (is_running done (unregister r' thread_id task) thread_id ≡ false)
unfolding register is_running cancel unregister
register-register done r thread_id task other got runs ne =
    elim (Bool-cases (alive done (lookup thread_id r.tasks))) [
      | inl e ↦ absurd (ground (arith, rw e at got))
      | inr e ↦ rw e (
          let own = lookup-insert_self thread_id task r.tasks in
          let gone : lookup thread_id (erase thread_id (insert thread_id task r.tasks)) ≡ none =
            lookup-erase thread_id thread_id (insert thread_id task r.tasks)
            ∙ ground (arith, ==_self thread_id) in
          let apart : nat_eq task other ≡ false = ground (arith, ne) in
          let same : nat_eq task task ≡ true = ground arith in
          (
            rw own (rw runs refl),
            rw own (rw runs refl),
            rw own (rw runs refl),
            rw own (rw apart refl),
            rw own (rw same (rw gone refl)),
          ))
    ]

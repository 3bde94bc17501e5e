-- ===== src/CodeExecutor/Calls.antt =====
-- Calls of `execute` on one pool, interleaved with each other, with shutdowns and with the cleanup.
-- Any waiting call may take a free lock. An exchange with a worker ends or fails, since
-- `_communicate` waits for the reply under a time limit.
use wotbot.Base.{ℕ, String, ◌≡◌, Bool, true, false, Option, none, some, []}
use wotbot.CodeExecutor.Pool.{
  Pool, set_at, get_or_create_session, check_entry, set_locked, used, end_execution, shutdown,
  shutdown_by_entry, cleanup_idle,
}

-- Where a call of `execute` is: outside, before the lookup of its session, waiting for the execution
-- lock of an entry, or holding that lock: before the check of the entry, while its code runs, and
-- after a failed exchange with the worker.
pub data Phase : Type 0 where
  outside : Phase
  looking : String → Phase
  waiting : String → ℕ → Phase
  checking : String → ℕ → Phase
  executing : String → ℕ → Phase
  failing : String → ℕ → Phase

-- The entry whose lock the call holds.
abbrev pub held : Phase → Option ℕ
held (checking s e) = some e
held (executing s e) = some e
held (failing s e) = some e
held _ = none

-- The entry that the call has got.
abbrev pub entry_of : Phase → Option ℕ
entry_of (waiting s e) = some e
entry_of (checking s e) = some e
entry_of (executing s e) = some e
entry_of (failing s e) = some e
entry_of _ = none

-- The session and the entry of code that runs.
abbrev pub running : Phase → Option (String × ℕ)
running (executing s e) = some (s, e)
running _ = none

-- The calls are numbered; each has a phase.
pub record System : Type 0 where
  pub pool : Pool
  pub phases : ℕ → Phase

abbrev pub moved : System → Pool → ℕ → Phase → System
moved s p i q = record { pool = p; phases = set_at i q s.phases }

-- The end of the check: the code runs, or the lock is given back and the loop goes round.
abbrev pub checked : System → ℕ → String → ℕ → ℕ → Bool × Pool → System
checked s i session_id entry now (true, p) =
    moved s (used p entry now) i (executing session_id entry)
checked s i session_id entry now (false, p) =
    moved s (set_locked p entry false) i (looking session_id)

-- `MayStop` tells which sessions may be shut down from outside.
pub data Step (MayStop : String → Type 0) (max_sessions : ℕ) (s : System) : System → Type 0 where
  call :
      (i : ℕ) (session_id : String)
      → s.phases i ≡ outside
      → Step MayStop max_sessions s (moved s s.pool i (looking session_id))
  look :
      (i : ℕ) (session_id : String) (pid now entry : ℕ) (p : Pool)
      → s.phases i ≡ looking session_id
      → get_or_create_session max_sessions s.pool session_id pid now ≡ some (entry, p)
      → Step MayStop max_sessions s (moved s p i (waiting session_id entry))
  refuse :
      (i : ℕ) (session_id : String) (pid now : ℕ)
      → s.phases i ≡ looking session_id
      → get_or_create_session max_sessions s.pool session_id pid now ≡ none
      → Step MayStop max_sessions s (moved s s.pool i outside)
  give_up :
      (i : ℕ) (session_id : String) (entry : ℕ)
      → s.phases i ≡ waiting session_id entry
      → Step MayStop max_sessions s (moved s s.pool i outside)
  acquire :
      (i : ℕ) (session_id : String) (entry : ℕ)
      → s.phases i ≡ waiting session_id entry
      → s.pool.locked entry ≡ false
      → Step MayStop max_sessions s
          (moved s (set_locked s.pool entry true) i (checking session_id entry))
  check :
      (pid_is_alive : ℕ → Bool) (i : ℕ) (session_id : String) (entry now : ℕ)
      → s.phases i ≡ checking session_id entry
      → Step MayStop max_sessions s
          (checked s i session_id entry now (check_entry pid_is_alive s.pool session_id entry))
  finish :
      (i : ℕ) (session_id : String) (entry : ℕ) (next_worker_pid : Option ℕ) (now : ℕ)
      → s.phases i ≡ executing session_id entry
      → Step MayStop max_sessions s (
          moved s
            (set_locked (end_execution s.pool entry next_worker_pid now) entry false)
            i
            outside)
  fail :
      (i : ℕ) (session_id : String) (entry : ℕ)
      → s.phases i ≡ executing session_id entry
      → Step MayStop max_sessions s (moved s s.pool i (failing session_id entry))
  drop :
      (i : ℕ) (session_id : String) (entry now : ℕ)
      → s.phases i ≡ failing session_id entry
      → Step MayStop max_sessions s (
          moved s
            (set_locked (used (shutdown_by_entry s.pool entry) entry now) entry false)
            i
            outside)
  stop :
      (session_id : String)
      → MayStop session_id
      → Step MayStop max_sessions s (record s { pool = shutdown s.pool session_id })
  clean :
      (idle_timeout now : ℕ)
      → Step MayStop max_sessions s (record s { pool = cleanup_idle idle_timeout s.pool now })

abbrev pub empty_pool : Pool
empty_pool = record {
  sessions = [];
  worker_pid = λ e. 0;
  last_used = λ e. 0;
  locked = λ e. false;
  is_open = λ e. false;
  fresh = 0;
}

abbrev pub no_calls : System
no_calls = record { pool = empty_pool; phases = λ i. outside }

pub data Reachable (MayStop : String → Type 0) (max_sessions : ℕ) : System → Type 0 where
  start : Reachable MayStop max_sessions no_calls
  next :
      {s t : System}
      → Reachable MayStop max_sessions s
      → Step MayStop max_sessions s t
      → Reachable MayStop max_sessions t

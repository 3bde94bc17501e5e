-- ===== src/CodeExecutor/Tests.antt =====
-- Runs of the session pool at concrete inputs.
use wotbot.Base.{
  ℕ, ◌≤◌, String, ◌≡◌, inl, refl, true, false, Option, none, some, [], ◌∷◌, length, ◌==◌,
}
use wotbot.Base.Dict.{lookup}
use wotbot.CodeExecutor.Pool.{
  Pool, get_or_create_session, check_entry, set_locked, end_execution, shutdown, shutdown_by_entry,
  cleanup_idle, shutdown_all,
}
use wotbot.CodeExecutor.Calls.{
  looking, waiting, checking, System, moved, checked, call, look, acquire, check, clean, empty_pool,
  no_calls, Reachable, start, next,
}
use wotbot.CodeExecutor.Release.{CanRelease, locked-CanRelease}
use wotbot.CodeExecutor.Isolation.Reached.{executing_alone}

abbrev or_empty : Option (ℕ × Pool) → Pool
or_empty none = empty_pool
or_empty (some a) = a.1

-- The pool after one lookup, and after a second session.
abbrev one_session : Pool
unfolding get_or_create_session
one_session = or_empty (get_or_create_session 2 empty_pool "a" 41 10)

abbrev two_sessions : Pool
unfolding get_or_create_session
two_sessions = or_empty (get_or_create_session 2 one_session "b" 42 11)

abbrev locked_session : Pool
unfolding get_or_create_session
locked_session = set_locked two_sessions 0 true

third_refused : get_or_create_session 2 two_sessions "c" 43 12 ≡ none
unfolding get_or_create_session
third_refused = refl

known_found : get_or_create_session 2 two_sessions "a" 43 12 ≡ some (0, two_sessions)
unfolding get_or_create_session
known_found = refl

-- The cleanup leaves the session whose code runs.
busy_kept : (cleanup_idle 60 locked_session 100).sessions ≡ ("a", 0) ∷ []
unfolding get_or_create_session cleanup_idle
busy_kept = refl

all_gone : (shutdown_all locked_session).sessions ≡ []
unfolding get_or_create_session shutdown_all
all_gone = refl

-- A dead worker makes place for a new one.
dead_replaced :
    get_or_create_session 2 ((check_entry (λ pid. false) two_sessions "a" 0).1) "a" 44 13
    ≡ some (2, or_empty (get_or_create_session 2 (shutdown two_sessions "a") "a" 44 13))
unfolding get_or_create_session check_entry shutdown
dead_replaced = refl

pid_kept : (end_execution one_session 0 (some 0) 20).worker_pid 0 ≡ 41
unfolding get_or_create_session end_execution
pid_kept = refl

crashed : (shutdown_by_entry two_sessions 1).sessions ≡ ("a", 0) ∷ []
unfolding get_or_create_session shutdown_by_entry
crashed = refl

-- Two calls for one session: the first runs, the second waits for the lock, and the cleanup comes.
abbrev IsB : String → Type 0
IsB s = (s == "b") ≡ true

abbrev both_called : System
both_called = moved (moved no_calls empty_pool 0 (looking "a")) empty_pool 1 (looking "a")

abbrev both_looked : System
unfolding get_or_create_session
both_looked = moved (moved both_called one_session 0 (waiting "a" 0)) one_session 1 (waiting "a" 0)

abbrev first_in : System
unfolding get_or_create_session
first_in = moved both_looked (set_locked one_session 0 true) 0 (checking "a" 0)

abbrev first_runs : System
unfolding get_or_create_session check_entry
first_runs = checked first_in 0 "a" 0 20 (check_entry (λ pid. true) first_in.pool "a" 0)

abbrev cleaned : System
unfolding get_or_create_session check_entry cleanup_idle
cleaned = record first_runs { pool = cleanup_idle 60 first_runs.pool 100 }

cleaned-Reachable : Reachable IsB 2 cleaned
unfolding get_or_create_session check_entry cleanup_idle
cleaned-Reachable =
    let called = next (next start (call 0 "a" refl)) (call 1 "a" refl) in
    let looked =
      next (next called (look 0 "a" 41 10 0 one_session refl refl))
        (look 1 "a" 43 12 0 one_session refl refl) in
    next (next (next looked (acquire 0 "a" 0 refl refl)) (check (λ pid. true) 0 "a" 0 20 refl))
      (clean 60 100)

executing_alone_example :
    (◌≡◌ {A = ℕ} 0 0)
    × (lookup "a" cleaned.pool.sessions ≡ some 0)
    × (cleaned.pool.is_open 0 ≡ true)
    × (cleaned.pool.locked 0 ≡ true)
    × (length cleaned.pool.sessions ≤ 2)
unfolding get_or_create_session check_entry cleanup_idle
executing_alone_example =
    executing_alone IsB 2 cleaned 0 0 "a" "a" 0 0 cleaned-Reachable (λ b. cc b) refl refl (inl refl)

locked-CanRelease_example : CanRelease IsB 2 cleaned 0
unfolding get_or_create_session check_entry cleanup_idle
locked-CanRelease_example = locked-CanRelease IsB 2 cleaned 0 cleaned-Reachable refl

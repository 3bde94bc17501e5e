-- ===== src/Runs/Tests/Registry.antt =====
-- Two users of one thread's lock, and a task that is registered twice.
use wotbot.Base.{◌≡◌, refl, true, false, some, [], ◌∷◌}
use wotbot.Base.Dict.{lookup, insert, erase}
use wotbot.Runs.Registry.{Registry, enter, leave, register, unregister, cancel, is_running}
use wotbot.Runs.Registry.Locks.{Running, idle, moves, enters, leaves, IsLocked, Running-IsLocked}

abbrev no_runs : Registry
no_runs = record { tasks = []; thread_locks = []; users = λ e. 0; fresh = 0 }

abbrev first_in : Registry
first_in = (enter no_runs "t1").1

abbrev both_in : Registry
both_in = (enter first_in "t1").1

abbrev second_in : Registry
second_in = leave both_in "t1" 0

second_in-Running : Running second_in (("t1", 0) ∷ [])
unfolding enter lookup insert
second_in-Running =
    moves
      (moves (moves (idle [] (λ e. 0) 0) (enters {r = no_runs} "t1")) (enters {r = first_in} "t1"))
      (leaves {r = both_in} (("t1", 0) ∷ []) [] "t1" 0)

Running-IsLocked_example : IsLocked second_in (("t1", 0) ∷ [])
Running-IsLocked_example = Running-IsLocked second_in-Running

-- A second task is not registered while the first runs, and cannot unregister it.
registered_once :
    let r' = (register (λ t. false) no_runs "t1" 7).1 in
    (register (λ t. false) r' "t1" 8 ≡ (false, r'))
    × (is_running (λ t. false) r' "t1" ≡ true)
    × (cancel (λ t. false) r' "t1" ≡ some 7)
    × (unregister r' "t1" 8 ≡ r')
    × (is_running (λ t. false) (unregister r' "t1" 7) "t1" ≡ false)
unfolding register is_running cancel unregister lookup insert erase
registered_once = (refl, refl, refl, refl, refl)

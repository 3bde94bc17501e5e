-- ===== src/CodeExecutor/Pool.antt =====
-- `SessionPool` of apps/code-executor/code_executor/session_pool.py: the table of sessions and the
-- bodies that run under the pool's lock. Session entries are objects, compared by identity: a
-- number names each. No body under the lock of the pool waits, so each is one function.
use wotbot.Base.{
  ℕ, zero, suc, ◌+◌, ◌-◌, String, Bool, true, false, not, ◌&&◌, Option, none, some, List, [], ◌∷◌,
  length, nat_eq, leb, ltb, if◌then◌else◌,
}
use wotbot.Base.Dict.{Dict, lookup, insert, erase, keys, keep_entries}

-- The fields of `_SessionEntry`, each by the entry: `locked` is the state of its execution lock and
-- `is_open` that of the connection to its worker. `fresh` names the next new entry.
pub record Pool : Type 0 where
  pub sessions : Dict ℕ
  pub worker_pid : ℕ → ℕ
  pub last_used : ℕ → ℕ
  pub locked : ℕ → Bool
  pub is_open : ℕ → Bool
  pub fresh : ℕ

-- One field of one entry.
abbrev pub set_at {ℓ} : {A : Type ℓ} → ℕ → A → (ℕ → A) → ℕ → A
set_at entry a f e = if nat_eq e entry then a else f e

abbrev pub created : Pool → String → ℕ → ℕ → Pool
created p session_id pid now = record {
  sessions = insert session_id p.fresh p.sessions;
  worker_pid = set_at p.fresh pid p.worker_pid;
  last_used = set_at p.fresh now p.last_used;
  locked = set_at p.fresh false p.locked;
  is_open = set_at p.fresh true p.is_open;
  fresh = p.fresh + 1;
}

abbrev pub session_of : ℕ → Pool → String → ℕ → ℕ → Option ℕ → Option (ℕ × Pool)
session_of max_sessions p session_id pid now (some entry) = some (entry, p)
session_of max_sessions p session_id pid now none =
    if leb max_sessions (length p.sessions)
    then none
    else some (p.fresh, created p session_id pid now)

-- `_get_or_create_session`: `none` where it raises. `pid` is that of the process that is started.
unfoldable pub get_or_create_session : ℕ → Pool → String → ℕ → ℕ → Option (ℕ × Pool)
unfolding lookup insert
get_or_create_session max_sessions p session_id pid now =
    session_of max_sessions p session_id pid now (lookup session_id p.sessions)

-- An entry leaves the table, and its connection is closed.
abbrev pub remove : Pool → String → ℕ → Pool
remove p session_id entry = record p {
  sessions = erase session_id p.sessions;
  is_open = set_at entry false p.is_open;
}

-- `_worker_is_available`
unfoldable pub worker_is_available : (ℕ → Bool) → Pool → String → ℕ → Bool × Pool
unfolding erase
worker_is_available pid_is_alive p session_id entry =
    if pid_is_alive (p.worker_pid entry) then (true, p) else (false, remove p session_id entry)

abbrev pub is_entry : Option ℕ → ℕ → Bool
is_entry none entry = false
is_entry (some e) entry = nat_eq e entry

-- The second body of `execute` under the pool's lock: whether the code is run on the entry.
unfoldable pub check_entry : (ℕ → Bool) → Pool → String → ℕ → Bool × Pool
unfolding lookup worker_is_available
check_entry pid_is_alive p session_id entry =
    if is_entry (lookup session_id p.sessions) entry
    then worker_is_available pid_is_alive p session_id entry
    else (false, p)

-- The execution lock of an entry is taken, and given back.
abbrev pub set_locked : Pool → ℕ → Bool → Pool
set_locked p entry b = record p { locked = set_at entry b p.locked }

abbrev pub used : Pool → ℕ → ℕ → Pool
used p entry now = record p { last_used = set_at entry now p.last_used }

-- The pid that the worker reports, `none` or 0 when it reports none.
abbrev pub renewed : ℕ → Option ℕ → ℕ
renewed pid none = pid
renewed pid (some zero) = pid
renewed pid (some (suc n)) = suc n

-- `_execute_entry`, from the reply of the worker on.
unfoldable pub end_execution : Pool → ℕ → Option ℕ → ℕ → Pool
end_execution p entry next_worker_pid now = record (used p entry now) {
  worker_pid = set_at entry (renewed (p.worker_pid entry) next_worker_pid) p.worker_pid;
}

abbrev pub shut : Pool → String → Option ℕ → Pool
shut p session_id none = p
shut p session_id (some entry) = remove p session_id entry

unfoldable pub shutdown : Pool → String → Pool
unfolding lookup erase
shutdown p session_id = shut p session_id (lookup session_id p.sessions)

-- The first session of an entry.
unfoldable pub name_of : ℕ → Dict ℕ → Option String
name_of entry [] = none
name_of entry ((session_id, e) ∷ d) = if nat_eq e entry then some session_id else name_of entry d

abbrev pub shut_name : Pool → ℕ → Option String → Pool
shut_name p entry none = p
shut_name p entry (some session_id) = remove p session_id entry

unfoldable pub shutdown_by_entry : Pool → ℕ → Pool
unfolding name_of erase
shutdown_by_entry p entry = shut_name p entry (name_of entry p.sessions)

unfoldable pub shutdown_each : Pool → List String → Pool
unfolding shutdown
shutdown_each p [] = p
shutdown_each p (session_id ∷ ids) = shutdown_each (shutdown p session_id) ids

abbrev pub is_idle : ℕ → Pool → ℕ → ℕ → Bool
is_idle idle_timeout p now entry =
    not (p.locked entry) && ltb idle_timeout (now - p.last_used entry)

-- `to_remove` of `cleanup_idle`
abbrev pub idle_sessions : ℕ → Pool → ℕ → List String
idle_sessions idle_timeout p now =
    keys (keep_entries (λ s e. is_idle idle_timeout p now e) p.sessions)

-- `cleanup_idle`: nothing waits between its bodies under the lock, which is never found taken.
unfoldable pub cleanup_idle : ℕ → Pool → ℕ → Pool
unfolding keep_entries shutdown_each
cleanup_idle idle_timeout p now = shutdown_each p (idle_sessions idle_timeout p now)

unfoldable pub shutdown_all : Pool → Pool
unfolding shutdown_each
shutdown_all p = shutdown_each p (keys p.sessions)

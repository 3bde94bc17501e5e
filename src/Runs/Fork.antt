-- ===== src/Runs/Fork.antt =====
-- `fork_before_message` of core/agent_runs.py: rewinding a thread to just before a message.
use wotbot.Base.{
  String, ◌≡◌, inl, inr, refl, ap, Bool, true, false, Option, none, some, List, [], ◌∷◌, ◌++◌,
  reverse, any, All, Bool-cases, opt_eq, if◌then◌else◌,
}
use wotbot.Json.{Json}
use wotbot.Agent.Messages.{Message, message_id}

-- A snapshot of the graph's history: its messages, what else its values hold, and its next nodes.
pub record Snapshot : Type 0 where
  pub config : String
  pub messages : List Message
  pub other_values : Json
  pub next : List String

-- What `aupdate_state` writes: onto the head of the thread, or onto the checkpoint of a snapshot.
pub data Fork : Type 0 where
  to_empty : Fork
  to_snapshot : Snapshot → (as_node : String) → Fork

abbrev pub has_message : String → List Message → Bool
has_message id = any λ m. opt_eq (message_id m) id

abbrev pub as_node : List String → String
as_node [] = "__start__"
as_node (n ∷ ns) = n

abbrev pub fork_to : Option Snapshot → Fork
fork_to none = to_empty
fork_to (some s) = to_snapshot s (as_node s.next)

-- The first snapshot with the message, and `snapshots[target_index - 1]`; `before` is the snapshot
-- that was passed last.
unfoldable pub fork_from : String → Option Snapshot → List Snapshot → Option Fork
fork_from id before [] = none
fork_from id before (s ∷ snapshots) =
    let later = fork_from id (some s) snapshots in
    if has_message id s.messages then some (fork_to before) else later

-- The history comes newest first; `none` is the answer `False`.
unfoldable pub fork_before_message : String → List Snapshot → Option Fork
unfolding fork_from
fork_before_message id history = fork_from id none (reverse history)

-- The snapshots do not have the message.
abbrev pub Lack : String → List Snapshot → Type 0
Lack id = All λ (s : Snapshot). has_message id s.messages ≡ false

abbrev pub last_or : Option Snapshot → List Snapshot → Option Snapshot
last_or before [] = before
last_or before (s ∷ snapshots) = last_or (some s) snapshots

-- The fork is at the snapshot before the first one with the message.
abbrev pub IsFork : String → Option Snapshot → List Snapshot → Option Fork → Type 0
IsFork id before snapshots none = Lack id snapshots
IsFork id before snapshots (some fork) =
    (older : List Snapshot) × (target : Snapshot) × (newer : List Snapshot) × (snapshots
      ≡ older ++ target ∷ newer)
    × Lack id older
    × (has_message id target.messages ≡ true)
    × (fork ≡ fork_to (last_or before older))

fork_from-IsFork :
    (id : String) (before : Option Snapshot) (snapshots : List Snapshot)
    → IsFork id before snapshots (fork_from id before snapshots)
unfolding fork_from
fork_from-IsFork id before [] = tt
fork_from-IsFork id before (s ∷ snapshots) = elim (Bool-cases (has_message id s.messages)) [
  | inl e ↦ rw e ([], s, snapshots, refl, tt, e, refl)
  | inr e ↦ rw e (go (fork_from id (some s) snapshots) (fork_from-IsFork id (some s) snapshots) e)
]
  where
    go :
        (o : Option Fork)
        → IsFork id (some s) snapshots o
        → has_message id s.messages ≡ false
        → IsFork id before (s ∷ snapshots) o
    go none h e = (e, h)
    go (some fork) (older, target, newer, same, lack, hit, is) e =
        (s ∷ older, target, newer, ap (◌∷◌ s) same, (e, lack), hit, is)

-- A fork is refused exactly when no snapshot of the thread has the message. Otherwise it goes to
-- the snapshot right before the oldest one that has it, and to an empty thread if there is none
-- before it; all the older snapshots lack the message, so the superseded turn is gone.
pub fork_before_message-IsFork :
    (id : String) (history : List Snapshot)
    → IsFork id none (reverse history) (fork_before_message id history)
unfolding fork_before_message
fork_before_message-IsFork id history = fork_from-IsFork id none (reverse history)

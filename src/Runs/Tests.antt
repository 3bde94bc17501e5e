-- ===== src/Runs/Tests.antt =====
-- A stopped run, a stream and a history, and the theorems at them.
pub mod Registry
use wotbot.Base.{String, ◌≡◌, refl, true, false, none, some, List, [], ◌∷◌, ◌++◌, reverse, any}
use wotbot.Base.Text.{strip}
use wotbot.Json.{null, str}
use wotbot.Agent.Messages.{Message, human, ai, tool, ToolCall, answered}
use wotbot.Runs.Interrupt.{
  last_turn, is_final, stop_calls, resolved_after, interrupted_turn_updates, stopped, closing,
  finalize_interrupted_run,
}
use wotbot.Runs.Interrupt.Answers.{AllAnswered, Called, Fresh, finalize_interrupted_run-AllAnswered}
use wotbot.Runs.Partial.{Chunk, empty, observe_all, text, texts, join, text-observe_all}
use wotbot.Runs.Fork.{Snapshot, IsFork, fork_before_message, fork_before_message-IsFork}

abbrev search_call : ToolCall
search_call = record { id = some "a"; name = "things_search"; args = null }

abbrev code_call : ToolCall
code_call = record { id = some "b"; name = "run_code"; args = null }

-- One of two calls has a result when the run stops.
abbrev stopped_turn : List Message
stopped_turn =
    ai none null (search_call ∷ code_call ∷ []) [] ∷ tool none null "a" (some "things_search") ∷ []

abbrev question : Message
question = human (some "q") (str "Is it on?")

updates :
    interrupted_turn_updates (question ∷ stopped_turn) " It i" ≡ stopped "b" ∷ closing "It i" ∷ []
unfolding interrupted_turn_updates stop_calls resolved_after
updates = refl

-- A repaired turn is not repaired again.
repaired_once :
    interrupted_turn_updates (finalize_interrupted_run (question ∷ stopped_turn) " It i") "" ≡ []
unfolding interrupted_turn_updates finalize_interrupted_run last_turn
repaired_once = refl

finalize_interrupted_run-AllAnswered_example :
    (new : List Message) × (last_turn (finalize_interrupted_run (question ∷ stopped_turn) " It i")
      ≡ some (stopped_turn ++ new))
    × (any is_final (stopped_turn ++ new) ≡ true)
    × AllAnswered (answered (stopped_turn ++ new)) stopped_turn
    × Fresh (answered stopped_turn) (answered new)
    × Called stopped_turn (answered new)
unfolding last_turn
finalize_interrupted_run-AllAnswered_example =
    finalize_interrupted_run-AllAnswered (question ∷ stopped_turn) stopped_turn " It i" refl refl

abbrev part : String → Chunk
part s = record { id = some "m1"; content = str s; is_last = false }

text-observe_all_example :
    (text (observe_all empty (part "It " ∷ part "is " ∷ []))
      ≡ strip (join (texts (part "It " ∷ part "is " ∷ []))))
    × ((d : Chunk)
        → d.is_last ≡ true
        → text (observe_all (observe_all empty (part "It " ∷ part "is " ∷ [])) (d ∷ [])) ≡ "")
text-observe_all_example =
    text-observe_all empty "m1" (part "It ") (part "is " ∷ []) refl (λ e. cc)
      ((refl, refl), ((refl, refl), tt))

abbrev snapshot : String → List Message → Snapshot
snapshot c ms = record { config = c; messages = ms; other_values = null; next = [] }

abbrev history : List Snapshot
history = snapshot "c2" (question ∷ stopped_turn) ∷ snapshot "c1" [] ∷ []

fork_before_message-IsFork_example :
    IsFork "q" none (reverse history) (fork_before_message "q" history)
fork_before_message-IsFork_example = fork_before_message-IsFork "q" history

-- ===== src/Runs/Interrupt.antt =====
-- `_interrupted_turn_updates` and `_finalize_interrupted_run` of core/agent_runs.py: the repair of a
-- turn that a stopped run left open. `resolved` starts with the ids of the tool messages.
pub mod Closed
pub mod Answers
use wotbot.Base.{
  ℕ, String, ◌≡◌, inl, inr, refl, sym, ap, ◌∙◌, Bool, true, false, not, ◌&&◌, ◌||◌, Option, none,
  some, List, [], ◌∷◌, ◌++◌, any, is_in, All, arith, Bool-cases, Option-cases, append_assoc,
  append-nil, if◌then◌else◌, ◌==◌, ==_self, eq_iff,
}
use wotbot.Base.Text.{strip}
use wotbot.Json.{Json, str, null}
use wotbot.Agent.Messages.{Message, human, system, ai, tool, ToolCall, is_human, answered}

abbrev pub interrupted_turn_notice : String
interrupted_turn_notice = "The response was interrupted before it finished. Try asking again."

abbrev pub stopped_tool_result : String
stopped_tool_result = "{\"status\":\"stopped\",\"reason\":\"run_interrupted\"}"

-- The messages after the last user message.
unfoldable pub last_turn : List Message → Option (List Message)
last_turn [] = none
last_turn (m ∷ ms) = elim (last_turn ms) [
  | some turn ↦ some turn
  | none ↦ if is_human m then some ms else none
]

-- An assistant message without tool calls, which ends the turn.
abbrev pub is_final : Message → Bool
is_final (ai i c [] rs) = true
is_final _ = false

abbrev pub stopped : String → Message
stopped k = tool none (str stopped_tool_result) k none

-- A round of the inner loop: the result for a call that has none, and `resolved` after it.
abbrev pub new_result : List String → ToolCall → List Message
new_result resolved t = elim t.id [
  | none ↦ []
  | some k ↦ if is_in k resolved then [] else stopped k ∷ []
]

abbrev pub with_call : List String → ToolCall → List String
with_call resolved t = elim t.id [
  | none ↦ resolved
  | some k ↦ if is_in k resolved then resolved else k ∷ resolved
]

-- The inner loop.
unfoldable pub stop_calls : List String → List ToolCall → List Message
stop_calls resolved [] = []
stop_calls resolved (t ∷ ts) = new_result resolved t ++ stop_calls (with_call resolved t) ts

unfoldable pub resolved_after : List String → List ToolCall → List String
resolved_after resolved [] = resolved
resolved_after resolved (t ∷ ts) = resolved_after (with_call resolved t) ts

-- The loop over the turn.
unfoldable pub stop_turn : List String → List Message → List Message
unfolding stop_calls resolved_after
stop_turn resolved [] = []
stop_turn resolved (ai i c ts rs ∷ ms) =
    stop_calls resolved ts ++ stop_turn (resolved_after resolved ts) ms
stop_turn resolved (_ ∷ ms) = stop_turn resolved ms

abbrev pub closing : String → Message
closing partial_text =
    let text = strip partial_text in
    ai none (str (if text == "" then interrupted_turn_notice else text)) [] []

abbrev pub close_turn : String → List Message → List Message
close_turn partial_text turn =
    if any is_final turn then [] else stop_turn (answered turn) turn ++ closing partial_text ∷ []

abbrev pub updates_of : String → Option (List Message) → List Message
updates_of partial_text none = []
updates_of partial_text (some turn) = close_turn partial_text turn

unfoldable pub interrupted_turn_updates : List Message → String → List Message
unfolding last_turn stop_turn strip
interrupted_turn_updates messages partial_text = updates_of partial_text (last_turn messages)

-- `_finalize_interrupted_run`: the graph appends the updates, whose ids are new, to the messages.
unfoldable pub finalize_interrupted_run : List Message → String → List Message
unfolding interrupted_turn_updates
finalize_interrupted_run messages partial_text =
    messages ++ interrupted_turn_updates messages partial_text

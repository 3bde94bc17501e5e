-- ===== src/Agent/Sanitize.antt =====
-- `_sanitize_message_sequence` of agent/nodes.py: the repair of tool calls and their results.
pub mod Block
pub mod Pairing
pub mod Strays
use wotbot.Base.{
  ℕ, zero, suc, ◌≤◌, String, ◌≡◌, refl, Bool, true, false, Option, none, some, List, [], ◌∷◌, ◌++◌,
  arith, length, keep_if, is_in, All, nat_eq, if◌then◌else◌,
}
use wotbot.Json.{Json}
use wotbot.Agent.Messages.{Message, human, system, ai, tool, ToolCall, RawCall, id_in, answered}

-- The tool messages that directly follow: the inner `while`.
unfoldable pub leading_tools : List Message → List Message
leading_tools (tool i c k n ∷ ms) = tool i c k n ∷ leading_tools ms
leading_tools _ = []

-- The messages from `next_index` on.
unfoldable pub after_tools : List Message → List Message
after_tools (tool i c k n ∷ ms) = after_tools ms
after_tools ms = ms

abbrev pub call_in : List String → ToolCall → Bool
call_in ids t = id_in ids t.id

abbrev pub raw_in : List String → RawCall → Bool
raw_in ids r = id_in ids r.id

-- `tm.tool_call_id in matched_ids`, for a tool message.
abbrev pub tool_in : List String → Message → Bool
tool_in ids (tool i c k n) = is_in k ids
tool_in ids _ = false

-- The message with its calls cut down to the matched ones, or as it was when all of them match.
unfoldable pub patch :
    Option String → Json → List ToolCall → List RawCall → List String → List ToolCall → Message
patch i c ts rs ids matched =
    if nat_eq (length matched) (length ts)
    then ai i c ts rs
    else ai i c matched (keep_if (raw_in ids) rs)

-- What one AI message with calls leaves, given the tool messages behind it.
unfoldable pub tool_block :
    Option String → Json → List ToolCall → List RawCall → List Message → List Message
unfolding patch
tool_block i c ts rs [] = []
tool_block i c ts rs (m ∷ ms) =
    let tools = m ∷ ms in
    let ids = answered tools in
    let matched = keep_if (call_in ids) ts in
    elim matched [
      | [] ↦ []
      | t ∷ rest ↦ patch i c ts rs ids (t ∷ rest) ∷ keep_if (tool_in ids) tools
    ]

-- The outer `while`, on fuel.
sanitize_loop : ℕ → List Message → List Message
sanitize_loop zero ms = []
sanitize_loop (suc f) [] = []
sanitize_loop (suc f) (ai i c (t ∷ ts) rs ∷ ms) =
    tool_block i c (t ∷ ts) rs (leading_tools ms) ++ sanitize_loop f (after_tools ms)
sanitize_loop (suc f) (ai i c [] rs ∷ ms) = ai i c [] rs ∷ sanitize_loop f ms
sanitize_loop (suc f) (tool i c k n ∷ ms) = sanitize_loop f ms
sanitize_loop (suc f) (human i c ∷ ms) = human i c ∷ sanitize_loop f ms
sanitize_loop (suc f) (system i c ∷ ms) = system i c ∷ sanitize_loop f ms

unfoldable pub sanitize : List Message → List Message
unfolding sanitize_loop leading_tools after_tools tool_block
sanitize ms = sanitize_loop (length ms) ms

-- The same by recursion on the messages: tool messages leave with the AI message before them.
pub sanitized : List Message → List Message
sanitized [] = []
sanitized (ai i c (t ∷ ts) rs ∷ ms) = tool_block i c (t ∷ ts) rs (leading_tools ms) ++ sanitized ms
sanitized (ai i c [] rs ∷ ms) = ai i c [] rs ∷ sanitized ms
sanitized (tool i c k n ∷ ms) = sanitized ms
sanitized (human i c ∷ ms) = human i c ∷ sanitized ms
sanitized (system i c ∷ ms) = system i c ∷ sanitized ms

sanitized-after_tools : (ms : List Message) → sanitized (after_tools ms) ≡ sanitized ms
unfolding sanitized after_tools
sanitized-after_tools [] = refl
sanitized-after_tools (tool i c k n ∷ ms) = sanitized-after_tools ms
sanitized-after_tools (ai i c ts rs ∷ ms) = refl
sanitized-after_tools (human i c ∷ ms) = refl
sanitized-after_tools (system i c ∷ ms) = refl

length-after_tools : (ms : List Message) → length (after_tools ms) ≤ length ms
unfolding after_tools
length-after_tools [] = omega arith
length-after_tools (tool i c k n ∷ ms) = omega (arith, length-after_tools ms)
length-after_tools (ai i c ts rs ∷ ms) = omega arith
length-after_tools (human i c ∷ ms) = omega arith
length-after_tools (system i c ∷ ms) = omega arith

sanitize_loop-eq : (f : ℕ) (ms : List Message) → length ms ≤ f → sanitize_loop f ms ≡ sanitized ms
unfolding sanitize_loop sanitized
sanitize_loop-eq zero [] h = refl
sanitize_loop-eq zero (m ∷ ms) h = absurd (omega arith)
sanitize_loop-eq (suc f) [] h = refl
sanitize_loop-eq (suc f) (ai i c (t ∷ ts) rs ∷ ms) h = rw (
  sanitize_loop-eq f (after_tools ms) (omega (arith, length-after_tools ms)),
  sanitized-after_tools ms,
)
sanitize_loop-eq (suc f) (ai i c [] rs ∷ ms) h = rw (sanitize_loop-eq f ms (omega arith))
sanitize_loop-eq (suc f) (tool i c k n ∷ ms) h = sanitize_loop-eq f ms (omega arith)
sanitize_loop-eq (suc f) (human i c ∷ ms) h = rw (sanitize_loop-eq f ms (omega arith))
sanitize_loop-eq (suc f) (system i c ∷ ms) h = rw (sanitize_loop-eq f ms (omega arith))

-- The index loop ends within as many rounds as there are messages, and computes the recursion.
pub sanitize-eq-sanitized : (ms : List Message) → sanitize ms ≡ sanitized ms
unfolding sanitize
sanitize-eq-sanitized ms = sanitize_loop-eq (length ms) ms (omega arith)

-- ===== src/Agent/Messages.antt =====
-- LangChain's messages, as far as the code reads them: the classes that it tests for by
-- `isinstance`, and their fields.
use wotbot.Base.{String, Bool, true, false, Option, none, some, List, [], ◌∷◌, is_in}
use wotbot.Json.{Json}

-- An entry of `AIMessage.tool_calls`.
pub record ToolCall : Type 0 where
  pub id : Option String
  pub name : String
  pub args : Json

-- An entry of `AIMessage.additional_kwargs["tool_calls"]`, the provider's own form of the calls.
pub record RawCall : Type 0 where
  pub id : Option String
  pub body : Json

-- An id and a content come first. `ai` has the calls, then the raw calls (none when the key is
-- missing); `tool` has the id of the call that it answers and the tool's name.
pub data Message : Type 0 where
  human : Option String → Json → Message
  system : Option String → Json → Message
  ai : Option String → Json → List ToolCall → List RawCall → Message
  tool : Option String → Json → String → Option String → Message

-- `tool_call["id"] in ids`
abbrev pub id_in : List String → Option String → Bool
id_in ids none = false
id_in ids (some i) = is_in i ids

-- The call ids of the tool messages of a list.
abbrev pub answered : List Message → List String
answered [] = []
answered (tool i c k n ∷ ms) = k ∷ answered ms
answered (human i c ∷ ms) = answered ms
answered (system i c ∷ ms) = answered ms
answered (ai i c ts rs ∷ ms) = answered ms

-- `isinstance(message, HumanMessage)`
abbrev pub is_human : Message → Bool
is_human (human i c) = true
is_human _ = false

abbrev pub is_system : Message → Bool
is_system (system i c) = true
is_system _ = false

abbrev pub is_tool : Message → Bool
is_tool (tool i c k n) = true
is_tool _ = false

-- `isinstance(message, AIMessage) and message.tool_calls`
abbrev pub has_calls : Message → Bool
has_calls (ai i c (t ∷ ts) rs) = true
has_calls _ = false

abbrev pub message_id : Message → Option String
message_id (human i c) = i
message_id (system i c) = i
message_id (ai i c ts rs) = i
message_id (tool i c k n) = i

-- ===== src/Agent/Trim.antt =====
-- `_fit_units_to_budget` and `_trim_conversation` of agent/nodes.py. The token counter is
-- LangChain's `count_tokens_approximately`, a parameter.
pub mod Budget
pub mod Fits
pub mod Whole
use wotbot.Base.{
  ℕ, ◌+◌, String, Bool, true, false, not, ◌||◌, List, [], ◌∷◌, map, reverse, leb, keep_if,
  if◌then◌else◌,
}
use wotbot.Agent.Messages.{Message, human, system, ai, tool, is_human}
use wotbot.Agent.Sanitize.{sanitize}
use wotbot.Agent.Units.{group_units, join}

-- A unit with its entry of `keep`.
abbrev pub Marked : Type 0
Marked = Bool × List Message

-- `isinstance(unit[0], HumanMessage)`
abbrev pub starts_human : List Message → Bool
starts_human [] = false
starts_human (m ∷ ms) = is_human m

abbrev pub drop_mark : List Message → Marked
drop_mark u = (false, u)

-- The second loop: the first unit, newest first, that a human message starts is kept.
unfoldable pub mark_human : List Marked → List Marked
mark_human [] = []
mark_human ((k, u) ∷ us) = if starts_human u then (true, u) ∷ us else (k, u) ∷ mark_human us

unfoldable pub kept_units : List Marked → List (List Message)
kept_units [] = []
kept_units ((k, u) ∷ us) = if k then u ∷ kept_units us else kept_units us

-- `if result and isinstance(result[0], SystemMessage): result.pop(0)`
unfoldable pub pop_system : List Message → List Message
pop_system (system i c ∷ ms) = ms
pop_system ms = ms

module _ (count_tokens : List Message → ℕ) where
  -- The first loop, over the units newest first. `spent` is what `budget` has fallen by, so the
  -- test `cost <= budget` is `spent + cost <= max_tokens`; at the `break` the rest is dropped.
  unfoldable pub mark_recent : ℕ → ℕ → Bool → List (List Message) → List Marked
  mark_recent max_tokens spent any_kept [] = []
  mark_recent max_tokens spent any_kept (u ∷ us) =
      let kept = (true, u) ∷ mark_recent max_tokens (spent + count_tokens u) true us in
      if not any_kept || leb (spent + count_tokens u) max_tokens
      then kept
      else map drop_mark (u ∷ us)

  unfoldable pub fit_units : ℕ → List (List Message) → List (List Message)
  unfolding mark_recent mark_human kept_units
  fit_units max_tokens units =
      kept_units (reverse (mark_human (mark_recent max_tokens 0 false (reverse units))))

  unfoldable pub fit_units_to_budget : ℕ → List (List Message) → List Message
  unfolding fit_units pop_system
  fit_units_to_budget max_tokens units = pop_system (join (fit_units max_tokens units))

  -- `prepare` is `_strip_ui_tool_data`, and `is_summary` is
  -- `is_device_interaction_summary_message`.
  unfoldable pub trim_conversation :
      (Message → Message) → (Message → Bool) → ℕ → List Message → List Message
  unfolding fit_units_to_budget sanitize group_units
  trim_conversation prepare is_summary max_tokens messages =
      fit_units_to_budget max_tokens
        (group_units (sanitize (map prepare (keep_if (λ m. not (is_summary m)) messages))))

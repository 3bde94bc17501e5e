-- ===== src/Agent/Units.antt =====
-- `_group_conversation_units` of agent/nodes.py: a prompt as units that trimming keeps or drops
-- whole.
pub mod Paired
use wotbot.Base.{
  ℕ, zero, suc, ◌≤◌, ◌≡◌, refl, ap, sym, subst, inl, inr, Bool, true, false, Option, List, [], ◌∷◌,
  ◌++◌, arith, length, All, append_assoc, Bool-cases, if◌then◌else◌,
}
use wotbot.Agent.Messages.{Message, human, system, ai, tool, ToolCall}
use wotbot.Agent.Sanitize.{leading_tools, after_tools}
use wotbot.Agent.Sanitize.Pairing.{IsPaired, CallsAnswered, NoOrphan}
use wotbot.Agent.Sanitize.Strays.{answers, NoStray}

-- The results of the calls that directly follow: the inner `while`, which stops at the first
-- message that answers none of them.
unfoldable pub own_results : List ToolCall → List Message → List Message
own_results ts [] = []
own_results ts (m ∷ ms) = if answers ts m then m ∷ own_results ts ms else []

unfoldable pub after_own : List ToolCall → List Message → List Message
after_own ts [] = []
after_own ts (m ∷ ms) = if answers ts m then after_own ts ms else m ∷ ms

-- The outer `while`, on fuel.
group_loop : ℕ → List Message → List (List Message)
group_loop zero ms = []
group_loop (suc f) [] = []
group_loop (suc f) (ai i c (t ∷ ts) rs ∷ ms) =
    (ai i c (t ∷ ts) rs ∷ own_results (t ∷ ts) ms) ∷ group_loop f (after_own (t ∷ ts) ms)
group_loop (suc f) (ai i c [] rs ∷ ms) = (ai i c [] rs ∷ []) ∷ group_loop f ms
group_loop (suc f) (tool i c k n ∷ ms) = (tool i c k n ∷ []) ∷ group_loop f ms
group_loop (suc f) (human i c ∷ ms) = (human i c ∷ []) ∷ group_loop f ms
group_loop (suc f) (system i c ∷ ms) = (system i c ∷ []) ∷ group_loop f ms

unfoldable pub group_units : List Message → List (List Message)
unfolding group_loop own_results after_own
group_units ms = group_loop (length ms) ms

-- The messages of the units, in order.
abbrev pub join : List (List Message) → List Message
join [] = []
join (u ∷ us) = u ++ join us

own_results-after_own :
    (ts : List ToolCall) (ms : List Message) → own_results ts ms ++ after_own ts ms ≡ ms
unfolding own_results after_own
own_results-after_own ts [] = refl
own_results-after_own ts (m ∷ ms) = elim (Bool-cases (answers ts m)) [
  | inl e ↦ rw e (ap (◌∷◌ m) (own_results-after_own ts ms))
  | inr e ↦ rw e
]

length-after_own : (ts : List ToolCall) (ms : List Message) → length (after_own ts ms) ≤ length ms
unfolding after_own
length-after_own ts [] = omega arith
length-after_own ts (m ∷ ms) = ground (arith, length-after_own ts ms)

join-group_loop : (f : ℕ) (ms : List Message) → length ms ≤ f → join (group_loop f ms) ≡ ms
unfolding group_loop
join-group_loop zero [] h = refl
join-group_loop zero (m ∷ ms) h = absurd (omega arith)
join-group_loop (suc f) [] h = refl
join-group_loop (suc f) (ai i c (t ∷ ts) rs ∷ ms) h =
    let rest = after_own (t ∷ ts) ms in
    rw (join-group_loop f rest (omega (arith, length-after_own (t ∷ ts) ms)))
      (ap (◌∷◌ (ai i c (t ∷ ts) rs)) (own_results-after_own (t ∷ ts) ms))
join-group_loop (suc f) (ai i c [] rs ∷ ms) h =
    ap (◌∷◌ (ai i c [] rs)) (join-group_loop f ms (omega arith))
join-group_loop (suc f) (tool i c k n ∷ ms) h =
    ap (◌∷◌ (tool i c k n)) (join-group_loop f ms (omega arith))
join-group_loop (suc f) (human i c ∷ ms) h =
    ap (◌∷◌ (human i c)) (join-group_loop f ms (omega arith))
join-group_loop (suc f) (system i c ∷ ms) h =
    ap (◌∷◌ (system i c)) (join-group_loop f ms (omega arith))

-- The units, one after the other, are the conversation: none of it is lost, doubled or moved.
pub join-group_units : (ms : List Message) → join (group_units ms) ≡ ms
unfolding group_units
join-group_units ms = join-group_loop (length ms) ms (omega arith)

-- ===== src/Agent/Sanitize/Block.antt =====
-- What one AI message with calls leaves, and the tool messages behind it.
use wotbot.Base.{
  ◌≤◌, String, ◌≡◌, refl, sym, ap, ◌∙◌, ◌⊎◌, inl, inr, Bool, true, Option, none, some, List, [],
  ◌∷◌, ◌++◌, arith, length, keep_if, any, opt_eq, is_in, All, nat_eq, Bool-cases, ==_self, eq_iff,
}
use wotbot.Json.{Json}
use wotbot.Agent.Messages.{Message, human, system, ai, tool, ToolCall, RawCall, answered, is_tool}
use wotbot.Agent.Sanitize.{leading_tools, call_in, raw_in, tool_in, patch, tool_block}

abbrev pub AllTools : List Message → Type 0
AllTools = All λ m. is_tool m ≡ true

-- Every call is answered by a tool message of the list.
abbrev pub AllAnswered : List Message → List ToolCall → Type 0
AllAnswered tools = All λ t. call_in (answered tools) t ≡ true

pub leading_tools-AllTools : (ms : List Message) → AllTools (leading_tools ms)
unfolding leading_tools
leading_tools-AllTools [] = tt
leading_tools-AllTools (tool i c k n ∷ ms) = (refl, leading_tools-AllTools ms)
leading_tools-AllTools (ai i c ts rs ∷ ms) = tt
leading_tools-AllTools (human i c ∷ ms) = tt
leading_tools-AllTools (system i c ∷ ms) = tt

pub leading_tools-append :
    (xs ys : List Message) → AllTools xs → leading_tools ys ≡ [] → leading_tools (xs ++ ys) ≡ xs
unfolding leading_tools
leading_tools-append [] ys h e = e
leading_tools-append (tool i c k n ∷ xs) ys h e =
    ap (◌∷◌ (tool i c k n)) (leading_tools-append xs ys h.1 e)
leading_tools-append (ai i c ts rs ∷ xs) ys h e = cc (h.0)
leading_tools-append (human i c ∷ xs) ys h e = cc (h.0)
leading_tools-append (system i c ∷ xs) ys h e = cc (h.0)

keep_answers :
    (ids : List String) (xs : List Message)
    → AllTools xs
    → ((k : String) → is_in k (answered xs) ≡ true → is_in k ids ≡ true)
    → keep_if (tool_in ids) xs ≡ xs
keep_answers ids [] h w = refl
keep_answers ids (tool i c k n ∷ xs) h w =
    let hit : is_in k ids ≡ true = w k (rw (==_self k)) in
    rw hit (ap (◌∷◌ (tool i c k n)) (keep_answers ids xs h.1 λ j e. w j (ground (arith, e))))
keep_answers ids (ai i c ts rs ∷ xs) h w = cc (h.0)
keep_answers ids (human i c ∷ xs) h w = cc (h.0)
keep_answers ids (system i c ∷ xs) h w = cc (h.0)

-- `matched_tool_messages` is every tool message of the block.
pub keep_answers_self : (xs : List Message) → AllTools xs → keep_if (tool_in (answered xs)) xs ≡ xs
keep_answers_self xs h = keep_answers (answered xs) xs h (λ k e. e)

module _ {ℓ} {A : Type ℓ} (test : A → Bool) where
  pub length-keep_if-le : (xs : List A) → length (keep_if test xs) ≤ length xs
  length-keep_if-le [] = omega arith
  length-keep_if-le (x ∷ xs) = ground (arith, length-keep_if-le xs)

  pub keep_if-All : (xs : List A) → All (λ x. test x ≡ true) (keep_if test xs)
  keep_if-All [] = tt
  keep_if-All (x ∷ xs) = elim (Bool-cases (test x)) [
    | inl e ↦ rw e (e, keep_if-All xs)
    | inr e ↦ rw e (keep_if-All xs)
  ]

  pub keep_if-eq_of_length :
      (xs : List A) → length (keep_if test xs) ≡ length xs → keep_if test xs ≡ xs
  keep_if-eq_of_length [] h = refl
  keep_if-eq_of_length (x ∷ xs) h = ground (arith, length-keep_if-le xs, keep_if-eq_of_length xs)

  pub keep_if-eq_of_All : (xs : List A) → All (λ x. test x ≡ true) xs → keep_if test xs ≡ xs
  keep_if-eq_of_All [] h = refl
  keep_if-eq_of_All (x ∷ xs) h = rw (h.0) (ap (◌∷◌ x) (keep_if-eq_of_All xs h.1))

-- One of the calls has this id.
abbrev pub asked : List ToolCall → String → Bool
asked ts k = any (λ t. opt_eq t.id k) ts

asked_step :
    (ids : List String) (t : ToolCall) (ts : List ToolCall) (k : String) (o : Option String)
    → t.id ≡ o
    → asked (t ∷ ts) k ≡ true
    → is_in k ids ≡ true
    → (asked ts k ≡ true → is_in k ids ≡ true → asked (keep_if (call_in ids) ts) k ≡ true)
    → asked (keep_if (call_in ids) (t ∷ ts)) k ≡ true
asked_step ids t ts k none e h m rest = ground arith
asked_step ids t ts k (some j) e h m rest = ground (arith, eq_iff j k)

asked-keep_if :
    (ids : List String) (ts : List ToolCall) (k : String)
    → asked ts k ≡ true
    → is_in k ids ≡ true
    → asked (keep_if (call_in ids) ts) k ≡ true
asked-keep_if ids [] k h m = h
asked-keep_if ids (t ∷ ts) k h m = asked_step ids t ts k (t.id) refl h m (asked-keep_if ids ts k)

-- A block vanishes, or it is an AI message whose calls are all answered, then all its tools; a
-- call that one of the tools answers is still there.
abbrev pub Leaves : Option String → Json → List ToolCall → List Message → List Message → Type 0
Leaves i c calls tools out =
    (out ≡ [])
    ⊎ ((t : ToolCall) × (ts : List ToolCall) × (rs : List RawCall) × (out
          ≡ ai i c (t ∷ ts) rs ∷ tools)
        × AllAnswered tools (t ∷ ts)
        × ((k : String)
            → asked calls k ≡ true
            → is_in k (answered tools) ≡ true
            → asked (t ∷ ts) k ≡ true))

patch-Leaves :
    (i : Option String) (c : Json) (ts : List ToolCall) (rs : List RawCall) (tools : List Message)
    (t : ToolCall) (rest : List ToolCall)
    → keep_if (call_in (answered tools)) ts ≡ t ∷ rest
    → AllAnswered tools (t ∷ rest)
    → Leaves i c ts tools (patch i c ts rs (answered tools) (t ∷ rest) ∷ tools)
unfolding patch
patch-Leaves i c ts rs tools t rest e all =
    elim (Bool-cases (nat_eq (length (t ∷ rest)) (length ts))) [
      | inl same ↦
          let whole : keep_if (call_in (answered tools)) ts ≡ ts =
            keep_if-eq_of_length (call_in (answered tools)) ts (rw e (ground arith)) in
          rw same (inr (t, rest, rs, ap (λ l. ai i c l rs ∷ tools) (sym whole ∙ e), all, kept))
      | inr cut ↦ rw cut (inr (t, rest, keep_if (raw_in (answered tools)) rs, refl, all, kept))
    ]
  where
    kept :
        (k : String)
        → asked ts k ≡ true
        → is_in k (answered tools) ≡ true
        → asked (t ∷ rest) k ≡ true
    kept k h m = rw e at (asked-keep_if (answered tools) ts k h m)

pub tool_block-Leaves :
    (i : Option String) (c : Json) (ts : List ToolCall) (rs : List RawCall) (tools : List Message)
    → AllTools tools
    → Leaves i c ts tools (tool_block i c ts rs tools)
unfolding tool_block
tool_block-Leaves i c ts rs [] h = inl refl
tool_block-Leaves i c ts rs (m ∷ ms) h =
    go (keep_if (call_in ids) ts) refl (keep_if-All (call_in ids) ts)
  where
    ids : List String
    ids = answered (m ∷ ms)

    go :
        (matched : List ToolCall)
        → keep_if (call_in ids) ts ≡ matched
        → AllAnswered (m ∷ ms) matched
        → Leaves i c ts (m ∷ ms) (tool_block i c ts rs (m ∷ ms))
    go [] e all = rw (e, tool_block) (inl refl)
    go (t ∷ rest) e all =
        rw (e, tool_block)
          (rw (keep_answers_self (m ∷ ms) h) (patch-Leaves i c ts rs (m ∷ ms) t rest e all))

-- ===== src/Agent/Sanitize/Strays.antt =====
-- Results that answer no call of the AI message before them: the repair adds none.
use wotbot.Base.{
  String, ◌≡◌, sym, subst, inl, inr, Bool, true, false, Option, List, [], ◌∷◌, ◌++◌, arith, is_in,
  All, ==_self,
}
use wotbot.Json.{Json}
use wotbot.Agent.Messages.{Message, human, system, ai, tool, ToolCall, answered}
use wotbot.Agent.Sanitize.{leading_tools, sanitized, sanitize, sanitize-eq-sanitized}
use wotbot.Agent.Sanitize.Block.{
  AllTools, leading_tools-AllTools, leading_tools-append, asked, Leaves, tool_block-Leaves,
}
use wotbot.Agent.Sanitize.Pairing.{NoOrphan-Opens, sanitize-IsPaired}

-- The message is a tool's result for one of the calls.
abbrev pub answers : List ToolCall → Message → Bool
answers ts (tool i c k n) = asked ts k
answers ts _ = false

-- Each tool message behind an AI message with calls answers one of them.
abbrev pub NoStray : List Message → Type 0
NoStray [] = Unit
NoStray (ai i c (t ∷ ts) rs ∷ ms) =
    All (λ m. answers (t ∷ ts) m ≡ true) (leading_tools ms) × NoStray ms
NoStray (ai i c [] rs ∷ ms) = NoStray ms
NoStray (tool i c k n ∷ ms) = NoStray ms
NoStray (human i c ∷ ms) = NoStray ms
NoStray (system i c ∷ ms) = NoStray ms

NoStray-tools : (xs ys : List Message) → AllTools xs → NoStray ys → NoStray (xs ++ ys)
NoStray-tools [] ys h p = p
NoStray-tools (tool i c k n ∷ xs) ys h p = NoStray-tools xs ys h.1 p
NoStray-tools (ai i c ts rs ∷ xs) ys h p = cc (h.0)
NoStray-tools (human i c ∷ xs) ys h p = cc (h.0)
NoStray-tools (system i c ∷ xs) ys h p = cc (h.0)

-- The results of a block answer the calls that are left of it.
still_asked :
    (calls ts : List ToolCall) (ids : List String) (xs : List Message)
    → ((k : String) → asked calls k ≡ true → is_in k ids ≡ true → asked ts k ≡ true)
    → ((k : String) → is_in k (answered xs) ≡ true → is_in k ids ≡ true)
    → All (λ m. answers calls m ≡ true) xs
    → All (λ m. answers ts m ≡ true) xs
still_asked calls ts ids [] keep w h = tt
still_asked calls ts ids (tool i c k n ∷ xs) keep w h = (
  keep k h.0 (w k (rw (==_self k))),
  still_asked calls ts ids xs keep (λ j e. w j (ground (arith, e))) h.1,
)
still_asked calls ts ids (ai i c us rs ∷ xs) keep w h = cc (h.0)
still_asked calls ts ids (human i c ∷ xs) keep w h = cc (h.0)
still_asked calls ts ids (system i c ∷ xs) keep w h = cc (h.0)

module _ (i : Option String) (c : Json) (calls : List ToolCall) where
  block_NoStray :
      (tools out rest : List Message)
      → AllTools tools
      → All (λ m. answers calls m ≡ true) tools
      → Leaves i c calls tools out
      → leading_tools rest ≡ []
      → NoStray rest
      → NoStray (out ++ rest)
  block_NoStray tools out rest all own (inl e) o p = rw e p
  block_NoStray tools out rest all own (inr (t, ts, rs, e, _, keep)) o p = rw e (
    subst (All λ m. answers (t ∷ ts) m ≡ true) (sym (leading_tools-append tools rest all o))
        (still_asked calls (t ∷ ts) (answered tools) tools keep (λ k h. h) own),
    NoStray-tools tools rest all p,
  )

sanitized-Opens : (ms : List Message) → leading_tools (sanitized ms) ≡ []
sanitized-Opens ms =
    rw (← sanitize-eq-sanitized ms)
      (let p = sanitize-IsPaired ms in NoOrphan-Opens (sanitize ms) p.results)

sanitized-NoStray : (ms : List Message) → NoStray ms → NoStray (sanitized ms)
unfolding sanitized
sanitized-NoStray [] h = tt
sanitized-NoStray (ai i c (t ∷ ts) rs ∷ ms) h =
    let tools = leading_tools ms in
    let all = leading_tools-AllTools ms in
    block_NoStray i c (t ∷ ts) tools _ (sanitized ms) all h.0
      (tool_block-Leaves i c (t ∷ ts) rs tools all) (sanitized-Opens ms) (sanitized-NoStray ms h.1)
sanitized-NoStray (ai i c [] rs ∷ ms) h = sanitized-NoStray ms h
sanitized-NoStray (tool i c k n ∷ ms) h = sanitized-NoStray ms h
sanitized-NoStray (human i c ∷ ms) h = sanitized-NoStray ms h
sanitized-NoStray (system i c ∷ ms) h = sanitized-NoStray ms h

-- If no run of results holds a stray one, then none does after the repair.
pub sanitize-NoStray : (ms : List Message) → NoStray ms → NoStray (sanitize ms)
sanitize-NoStray ms h = rw (sanitize-eq-sanitized ms) (sanitized-NoStray ms h)

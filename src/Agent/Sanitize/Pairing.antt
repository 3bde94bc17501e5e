-- ===== src/Agent/Sanitize/Pairing.antt =====
-- Calls and results after the repair: which calls are answered, and which results belong to one.
use wotbot.Base.{
  String, ◌≡◌, refl, sym, ap, subst, ◌∙◌, inl, inr, Bool, true, false, Option, none, some, List, [],
  ◌∷◌, ◌++◌, arith, keep_if, not, if◌then◌else◌,
}
use wotbot.Json.{Json}
use wotbot.Agent.Messages.{
  Message, human, system, ai, tool, ToolCall, RawCall, id_in, answered, is_tool, has_calls,
}
use wotbot.Agent.Sanitize.{
  leading_tools, call_in, patch, tool_block, sanitized, sanitize, sanitize-eq-sanitized,
}
use wotbot.Agent.Sanitize.Block.{
  AllTools, AllAnswered, leading_tools-AllTools, leading_tools-append, keep_answers_self,
  keep_if-eq_of_All, Leaves, tool_block-Leaves,
}

-- Every call of every AI message is answered by one of the tool messages directly behind it.
abbrev pub CallsAnswered : List Message → Type 0
CallsAnswered [] = Unit
CallsAnswered (ai i c ts rs ∷ ms) = AllAnswered (leading_tools ms) ts × CallsAnswered ms
CallsAnswered (tool i c k n ∷ ms) = CallsAnswered ms
CallsAnswered (human i c ∷ ms) = CallsAnswered ms
CallsAnswered (system i c ∷ ms) = CallsAnswered ms

-- Every tool message stands in the run of tool messages behind an AI message with calls; the flag
-- says whether such a run is open.
abbrev pub NoOrphan : Bool → List Message → Type 0
NoOrphan open_run [] = Unit
NoOrphan open_run (tool i c k n ∷ ms) = (open_run ≡ true) × NoOrphan open_run ms
NoOrphan open_run (ai i c [] rs ∷ ms) = NoOrphan false ms
NoOrphan open_run (ai i c (t ∷ ts) rs ∷ ms) = NoOrphan true ms
NoOrphan open_run (human i c ∷ ms) = NoOrphan false ms
NoOrphan open_run (system i c ∷ ms) = NoOrphan false ms

pub record IsPaired (ms : List Message) : Type 0 where
  pub calls : CallsAnswered ms
  pub results : NoOrphan false ms

pub CallsAnswered-tools :
    (xs ys : List Message) → AllTools xs → CallsAnswered ys → CallsAnswered (xs ++ ys)
CallsAnswered-tools [] ys h p = p
CallsAnswered-tools (tool i c k n ∷ xs) ys h p = CallsAnswered-tools xs ys h.1 p
CallsAnswered-tools (ai i c ts rs ∷ xs) ys h p = cc (h.0)
CallsAnswered-tools (human i c ∷ xs) ys h p = cc (h.0)
CallsAnswered-tools (system i c ∷ xs) ys h p = cc (h.0)

pub NoOrphan-open : (ys : List Message) → NoOrphan false ys → NoOrphan true ys
NoOrphan-open [] p = tt
NoOrphan-open (tool i c k n ∷ ys) p = cc (p.0)
NoOrphan-open (ai i c [] rs ∷ ys) p = p
NoOrphan-open (ai i c (t ∷ ts) rs ∷ ys) p = p
NoOrphan-open (human i c ∷ ys) p = p
NoOrphan-open (system i c ∷ ys) p = p

pub NoOrphan-tools :
    (xs ys : List Message) → AllTools xs → NoOrphan false ys → NoOrphan true (xs ++ ys)
NoOrphan-tools [] ys h p = NoOrphan-open ys p
NoOrphan-tools (tool i c k n ∷ xs) ys h p = (refl, NoOrphan-tools xs ys h.1 p)
NoOrphan-tools (ai i c ts rs ∷ xs) ys h p = cc (h.0)
NoOrphan-tools (human i c ∷ xs) ys h p = cc (h.0)
NoOrphan-tools (system i c ∷ xs) ys h p = cc (h.0)

-- No list that the repair returns begins with a tool message.
abbrev pub Opens : List Message → Type 0
Opens ms = leading_tools ms ≡ []

record IsRepaired (ms : List Message) : Type 0 where
  opens : Opens ms
  calls : CallsAnswered ms
  results : NoOrphan false ms

-- A block before a repaired list.
block_IsRepaired :
    (i : Option String) (c : Json) (calls : List ToolCall) (tools out rest : List Message)
    → AllTools tools
    → Leaves i c calls tools out
    → IsRepaired rest
    → IsRepaired (out ++ rest)
unfolding leading_tools
block_IsRepaired i c calls tools out rest all (inl e) r = rw e r
block_IsRepaired i c calls tools out rest all (inr (t, ts, rs, e, answers, _)) r = rw e (record {
  opens = refl;
  calls = (
    subst (λ l. AllAnswered l (t ∷ ts)) (sym (leading_tools-append tools rest all r.opens)) answers,
    CallsAnswered-tools tools rest all r.calls,
  );
  results = NoOrphan-tools tools rest all r.results;
})

sanitized-IsRepaired : (ms : List Message) → IsRepaired (sanitized ms)
unfolding sanitized leading_tools
sanitized-IsRepaired [] = record { opens = refl; calls = tt; results = tt }
sanitized-IsRepaired (ai i c (t ∷ ts) rs ∷ ms) =
    let tools = leading_tools ms in
    let all = leading_tools-AllTools ms in
    block_IsRepaired i c (t ∷ ts) tools _ (sanitized ms) all
      (tool_block-Leaves i c (t ∷ ts) rs tools all) (sanitized-IsRepaired ms)
sanitized-IsRepaired (ai i c [] rs ∷ ms) =
    let r = sanitized-IsRepaired ms in
    record { opens = refl; calls = (tt, r.calls); results = r.results }
sanitized-IsRepaired (tool i c k n ∷ ms) = sanitized-IsRepaired ms
sanitized-IsRepaired (human i c ∷ ms) =
    let r = sanitized-IsRepaired ms in record { opens = refl; calls = r.calls; results = r.results }
sanitized-IsRepaired (system i c ∷ ms) =
    let r = sanitized-IsRepaired ms in record { opens = refl; calls = r.calls; results = r.results }

-- Whatever the conversation, after the repair every tool call is answered by a tool message in
-- the run directly behind its AI message, and every tool message stands in such a run.
pub sanitize-IsPaired : (ms : List Message) → IsPaired (sanitize ms)
sanitize-IsPaired ms =
    rw (sanitize-eq-sanitized ms)
      (let r = sanitized-IsRepaired ms in record { calls = r.calls; results = r.results })

-- A block whose calls are all answered stays as it is.
no_answer : (o : Option String) → id_in [] o ≡ true → ⊥
no_answer none h = cc
no_answer (some k) h = cc

tool_block-answered :
    (i : Option String) (c : Json) (t : ToolCall) (ts : List ToolCall) (rs : List RawCall)
    (tools : List Message)
    → AllTools tools
    → AllAnswered tools (t ∷ ts)
    → tool_block i c (t ∷ ts) rs tools ≡ ai i c (t ∷ ts) rs ∷ tools
unfolding tool_block patch
tool_block-answered i c t ts rs [] all h = absurd (no_answer t.id h.0)
tool_block-answered i c t ts rs (m ∷ ms) all h =
    rw (keep_if-eq_of_All (call_in (answered (m ∷ ms))) (t ∷ ts) h, tool_block)
      (rw (keep_answers_self (m ∷ ms) all) (ground arith))

pub NoOrphan-Opens : (ms : List Message) → NoOrphan false ms → Opens ms
unfolding leading_tools
NoOrphan-Opens [] q = refl
NoOrphan-Opens (tool i c k n ∷ ms) q = cc (q.0)
NoOrphan-Opens (ai i c ts rs ∷ ms) q = refl
NoOrphan-Opens (human i c ∷ ms) q = refl
NoOrphan-Opens (system i c ∷ ms) q = refl

cons_sanitized :
    (m : Message) (ms : List Message)
    → Opens ms
    → leading_tools ms ++ sanitized ms ≡ ms
    → m ∷ sanitized ms ≡ m ∷ ms
cons_sanitized m ms o e = ap (◌∷◌ m) (rw o at e)

sanitized-paired :
    (b : Bool) (ms : List Message)
    → CallsAnswered ms
    → NoOrphan b ms
    → leading_tools ms ++ sanitized ms ≡ ms
unfolding sanitized leading_tools
sanitized-paired b [] p q = refl
sanitized-paired b (tool i c k n ∷ ms) p q = ap (◌∷◌ (tool i c k n)) (sanitized-paired b ms p q.1)
sanitized-paired b (ai i c [] rs ∷ ms) p q =
    cons_sanitized (ai i c [] rs) ms (NoOrphan-Opens ms q) (sanitized-paired false ms p.1 q)
sanitized-paired b (ai i c (t ∷ ts) rs ∷ ms) p q =
    rw (tool_block-answered i c t ts rs (leading_tools ms) (leading_tools-AllTools ms) p.0)
      (ap (◌∷◌ (ai i c (t ∷ ts) rs)) (sanitized-paired true ms p.1 q))
sanitized-paired b (human i c ∷ ms) p q =
    cons_sanitized (human i c) ms (NoOrphan-Opens ms q) (sanitized-paired false ms p q)
sanitized-paired b (system i c ∷ ms) p q =
    cons_sanitized (system i c) ms (NoOrphan-Opens ms q) (sanitized-paired false ms p q)

-- A conversation whose calls are answered and whose results belong to a call is left as it is.
pub sanitize-eq_of_IsPaired : (ms : List Message) → IsPaired ms → sanitize ms ≡ ms
sanitize-eq_of_IsPaired ms h =
    rw (sanitize-eq-sanitized ms)
      (rw (NoOrphan-Opens ms h.results) at (sanitized-paired false ms h.calls h.results))

-- Repairing a second time changes nothing.
pub sanitize-sanitize : (ms : List Message) → sanitize (sanitize ms) ≡ sanitize ms
sanitize-sanitize ms = sanitize-eq_of_IsPaired (sanitize ms) (sanitize-IsPaired ms)

-- A message that is neither a tool's result nor an AI message with calls.
abbrev pub is_plain : Message → Bool
is_plain m = if is_tool m then false else not (has_calls m)

keep_plain-tools :
    (xs ys : List Message) → AllTools xs → keep_if is_plain (xs ++ ys) ≡ keep_if is_plain ys
keep_plain-tools [] ys h = refl
keep_plain-tools (tool i c k n ∷ xs) ys h = keep_plain-tools xs ys h.1
keep_plain-tools (ai i c ts rs ∷ xs) ys h = cc (h.0)
keep_plain-tools (human i c ∷ xs) ys h = cc (h.0)
keep_plain-tools (system i c ∷ xs) ys h = cc (h.0)

keep_plain-block :
    (i : Option String) (c : Json) (calls : List ToolCall) (tools out rest : List Message)
    → AllTools tools
    → Leaves i c calls tools out
    → keep_if is_plain (out ++ rest) ≡ keep_if is_plain rest
keep_plain-block i c calls tools out rest all (inl e) = rw e
keep_plain-block i c calls tools out rest all (inr (t, ts, rs, e, answers, _)) =
    rw e (keep_plain-tools tools rest all)

keep_plain-sanitized : (ms : List Message) → keep_if is_plain (sanitized ms) ≡ keep_if is_plain ms
unfolding sanitized
keep_plain-sanitized [] = refl
keep_plain-sanitized (ai i c (t ∷ ts) rs ∷ ms) =
    let tools = leading_tools ms in
    let all = leading_tools-AllTools ms in
    keep_plain-block i c (t ∷ ts) tools _ (sanitized ms) all
      (tool_block-Leaves i c (t ∷ ts) rs tools all)
    ∙ keep_plain-sanitized ms
keep_plain-sanitized (ai i c [] rs ∷ ms) = ap (◌∷◌ (ai i c [] rs)) (keep_plain-sanitized ms)
keep_plain-sanitized (tool i c k n ∷ ms) = keep_plain-sanitized ms
keep_plain-sanitized (human i c ∷ ms) = ap (◌∷◌ (human i c)) (keep_plain-sanitized ms)
keep_plain-sanitized (system i c ∷ ms) = ap (◌∷◌ (system i c)) (keep_plain-sanitized ms)

-- The repair keeps every human, system and plain AI message, unchanged and in order.
pub keep_plain-sanitize : (ms : List Message) → keep_if is_plain (sanitize ms) ≡ keep_if is_plain ms
keep_plain-sanitize ms = rw (sanitize-eq-sanitized ms) (keep_plain-sanitized ms)

-- An AI message whose calls are all answered, and the whole run of tool messages behind it, come
-- through the repair unchanged, also those tool messages that answer none of its calls.
pub sanitize_keeps_run :
    (i : Option String) (c : Json) (t : ToolCall) (ts : List ToolCall) (rs : List RawCall)
    (ms : List Message)
    → AllAnswered (leading_tools ms) (t ∷ ts)
    → sanitize (ai i c (t ∷ ts) rs ∷ ms) ≡ ai i c (t ∷ ts) rs ∷ (leading_tools ms ++ sanitize ms)
unfolding sanitized
sanitize_keeps_run i c t ts rs ms h =
    rw (sanitize-eq-sanitized (ai i c (t ∷ ts) rs ∷ ms), sanitize-eq-sanitized ms)
      (ap (λ l. l ++ sanitized ms)
        (tool_block-answered i c t ts rs (leading_tools ms) (leading_tools-AllTools ms) h))

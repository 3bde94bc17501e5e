-- ===== src/Agent/Units/Paired.antt =====
-- The units of a repaired conversation without stray results are repaired conversations, and so
-- is any choice of them.
use wotbot.Base.{
  ℕ, zero, suc, ◌≤◌, ◌≡◌, refl, ap, sym, subst, Bool, true, false, List, [], ◌∷◌, ◌++◌, arith,
  length, All, append-nil,
}
use wotbot.Agent.Messages.{Message, human, system, ai, tool, ToolCall}
use wotbot.Agent.Sanitize.{leading_tools, after_tools}
use wotbot.Agent.Sanitize.Block.{
  AllTools, AllAnswered, leading_tools-AllTools, leading_tools-append,
}
use wotbot.Agent.Sanitize.Pairing.{
  IsPaired, CallsAnswered, NoOrphan, NoOrphan-Opens, CallsAnswered-tools, NoOrphan-tools,
  NoOrphan-open,
}
use wotbot.Agent.Sanitize.Strays.{answers, NoStray}
use wotbot.Agent.Units.{own_results, after_own, length-after_own, group_loop, group_units, join}

own_results-eq :
    (ts : List ToolCall) (ms : List Message)
    → All (λ m. answers ts m ≡ true) (leading_tools ms)
    → own_results ts ms ≡ leading_tools ms
unfolding own_results leading_tools
own_results-eq ts [] h = refl
own_results-eq ts (tool i c k n ∷ ms) h =
    rw (h.0) (ap (◌∷◌ (tool i c k n)) (own_results-eq ts ms h.1))
own_results-eq ts (ai i c us rs ∷ ms) h = refl
own_results-eq ts (human i c ∷ ms) h = refl
own_results-eq ts (system i c ∷ ms) h = refl

after_own-eq :
    (ts : List ToolCall) (ms : List Message)
    → All (λ m. answers ts m ≡ true) (leading_tools ms)
    → after_own ts ms ≡ after_tools ms
unfolding after_own after_tools leading_tools
after_own-eq ts [] h = refl
after_own-eq ts (tool i c k n ∷ ms) h = rw (h.0) (after_own-eq ts ms h.1)
after_own-eq ts (ai i c us rs ∷ ms) h = refl
after_own-eq ts (human i c ∷ ms) h = refl
after_own-eq ts (system i c ∷ ms) h = refl

-- What holds of a conversation that is ready to be grouped.
record IsReady (ms : List Message) : Type 0 where
  calls : CallsAnswered ms
  results : NoOrphan false ms
  own : NoStray ms

after_tools-IsReady :
    (ms : List Message)
    → CallsAnswered ms
    → NoOrphan true ms
    → NoStray ms
    → IsReady (after_tools ms)
unfolding after_tools
after_tools-IsReady [] p q r = record { calls = tt; results = tt; own = tt }
after_tools-IsReady (tool i c k n ∷ ms) p q r = after_tools-IsReady ms p q.1 r
after_tools-IsReady (ai i c [] rs ∷ ms) p q r = record { calls = p; results = q; own = r }
after_tools-IsReady (ai i c (t ∷ ts) rs ∷ ms) p q r = record { calls = p; results = q; own = r }
after_tools-IsReady (human i c ∷ ms) p q r = record { calls = p; results = q; own = r }
after_tools-IsReady (system i c ∷ ms) p q r = record { calls = p; results = q; own = r }

leading_tools-AllTools_self : (xs : List Message) → AllTools xs → leading_tools xs ≡ xs
unfolding leading_tools
leading_tools-AllTools_self xs h = rw append-nil at (leading_tools-append xs [] h refl)

block_IsPaired :
    (m : Message) (xs : List Message)
    → AllTools xs
    → (CallsAnswered xs → NoOrphan true xs → IsPaired (m ∷ xs))
    → IsPaired (m ∷ xs)
block_IsPaired m xs h build =
    build (rw append-nil at (CallsAnswered-tools xs [] h tt))
      (rw append-nil at (NoOrphan-tools xs [] h tt))

unit_IsPaired :
    (m : Message) (t : ToolCall) (ts : List ToolCall) (ms : List Message)
    → ((xs : List Message)
        → AllAnswered (leading_tools xs) (t ∷ ts)
        → CallsAnswered xs
        → NoOrphan true xs
        → IsPaired (m ∷ xs))
    → AllAnswered (leading_tools ms) (t ∷ ts)
    → IsPaired (m ∷ leading_tools ms)
unit_IsPaired m t ts ms build h =
    let all = leading_tools-AllTools ms in
    block_IsPaired m (leading_tools ms) all (
      build (leading_tools ms) (
        subst (λ l. AllAnswered l (t ∷ ts))
          (sym (leading_tools-AllTools_self (leading_tools ms) all)) h))

group_loop-IsPaired :
    (f : ℕ) (ms : List Message) → length ms ≤ f → IsReady ms → All IsPaired (group_loop f ms)
unfolding group_loop
group_loop-IsPaired zero ms h r = tt
group_loop-IsPaired (suc f) [] h r = tt
group_loop-IsPaired (suc f) (ai i c (t ∷ ts) rs ∷ ms) h r =
    let own = r.own in
    let calls = r.calls in
    (
      rw (own_results-eq (t ∷ ts) ms own.0) (
          unit_IsPaired (ai i c (t ∷ ts) rs) t ts ms
            (λ xs a p q. record { calls = (a, p); results = q }) calls.0),
      group_loop-IsPaired f (after_own (t ∷ ts) ms) (omega (arith, length-after_own (t ∷ ts) ms))
          (rw (after_own-eq (t ∷ ts) ms own.0) (after_tools-IsReady ms calls.1 r.results own.1)),
    )
group_loop-IsPaired (suc f) (ai i c [] rs ∷ ms) h r =
    let calls = r.calls in
    (
      record { calls = (tt, tt); results = tt },
      group_loop-IsPaired f ms (omega arith)
          (record { calls = calls.1; results = r.results; own = r.own }),
    )
group_loop-IsPaired (suc f) (tool i c k n ∷ ms) h r = let q = r.results in cc (q.0)
group_loop-IsPaired (suc f) (human i c ∷ ms) h r = (
  record { calls = tt; results = tt },
  group_loop-IsPaired f ms (omega arith)
      (record { calls = r.calls; results = r.results; own = r.own }),
)
group_loop-IsPaired (suc f) (system i c ∷ ms) h r = (
  record { calls = tt; results = tt },
  group_loop-IsPaired f ms (omega arith)
      (record { calls = r.calls; results = r.results; own = r.own }),
)

-- In a repaired conversation without stray results, each unit is complete by itself.
pub group_units-IsPaired :
    (ms : List Message) → IsPaired ms → NoStray ms → All IsPaired (group_units ms)
unfolding group_units
group_units-IsPaired ms p r =
    group_loop-IsPaired (length ms) ms (omega arith)
      (record { calls = p.calls; results = p.results; own = r })

leading_tools-append_Opens :
    (xs ys : List Message) → leading_tools ys ≡ [] → leading_tools (xs ++ ys) ≡ leading_tools xs
unfolding leading_tools
leading_tools-append_Opens [] ys o = o
leading_tools-append_Opens (tool i c k n ∷ xs) ys o =
    ap (◌∷◌ (tool i c k n)) (leading_tools-append_Opens xs ys o)
leading_tools-append_Opens (ai i c ts rs ∷ xs) ys o = refl
leading_tools-append_Opens (human i c ∷ xs) ys o = refl
leading_tools-append_Opens (system i c ∷ xs) ys o = refl

CallsAnswered-append :
    (xs ys : List Message)
    → leading_tools ys ≡ []
    → CallsAnswered xs
    → CallsAnswered ys
    → CallsAnswered (xs ++ ys)
CallsAnswered-append [] ys o p q = q
CallsAnswered-append (ai i c ts rs ∷ xs) ys o p q = (
  subst (λ l. AllAnswered l ts) (sym (leading_tools-append_Opens xs ys o)) p.0,
  CallsAnswered-append xs ys o p.1 q,
)
CallsAnswered-append (tool i c k n ∷ xs) ys o p q = CallsAnswered-append xs ys o p q
CallsAnswered-append (human i c ∷ xs) ys o p q = CallsAnswered-append xs ys o p q
CallsAnswered-append (system i c ∷ xs) ys o p q = CallsAnswered-append xs ys o p q

NoOrphan-weaken : (b : Bool) (ys : List Message) → NoOrphan false ys → NoOrphan b ys
NoOrphan-weaken true ys q = NoOrphan-open ys q
NoOrphan-weaken false ys q = q

NoOrphan-append :
    (b : Bool) (xs ys : List Message) → NoOrphan b xs → NoOrphan false ys → NoOrphan b (xs ++ ys)
NoOrphan-append b [] ys p q = NoOrphan-weaken b ys q
NoOrphan-append b (tool i c k n ∷ xs) ys p q = (p.0, NoOrphan-append b xs ys p.1 q)
NoOrphan-append b (ai i c [] rs ∷ xs) ys p q = NoOrphan-append false xs ys p q
NoOrphan-append b (ai i c (t ∷ ts) rs ∷ xs) ys p q = NoOrphan-append true xs ys p q
NoOrphan-append b (human i c ∷ xs) ys p q = NoOrphan-append false xs ys p q
NoOrphan-append b (system i c ∷ xs) ys p q = NoOrphan-append false xs ys p q

pub join-IsPaired : (us : List (List Message)) → All IsPaired us → IsPaired (join us)
join-IsPaired [] h = record { calls = tt; results = tt }
join-IsPaired (u ∷ us) h =
    let p = h.0 in
    let q = join-IsPaired us h.1 in
    record {
      calls = CallsAnswered-append u (join us) (NoOrphan-Opens (join us) q.results) p.calls q.calls;
      results = NoOrphan-append false u (join us) p.results q.results;
    }

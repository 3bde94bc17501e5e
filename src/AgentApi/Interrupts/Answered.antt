-- ===== src/AgentApi/Interrupts/Answered.antt =====
-- What an accepted reply to a paused task holds.
use wotbot.Base.{
  String, ◌≡◌, ◌↔◌, inl, inr, refl, sym, ap, ◌∙◌, subst, Bool, true, Option, none, some, List, [],
  ◌∷◌, ◌++◌, map, append-nil, append_assoc, arith, Bool-cases, Option-cases, eq_iff, ◌==◌,
}
use wotbot.Base.Dict.{
  Dict, IsDict, lookup, insert, has_key, keys, lookup-insert_cases, insert-IsDict,
}
use wotbot.Json.{Json, as_str, get}
use wotbot.AgentApi.Types.{ok, both_ok, ok_inj}
use wotbot.AgentApi.Interrupts.{
  Pending, by_id, body, is_reply_body, every, same_keys, answer, reply_to, collect, validate_reply,
}

insert-new :
    {V : Type 0} (k : String) (v : V) (d : Dict V)
    → lookup k d ≡ none
    → insert k v d ≡ d ++ (k, v) ∷ []
unfolding lookup insert
insert-new k v [] h = refl
insert-new k v ((j, w) ∷ d) h = elim (Bool-cases (j == k)) [
  | inl q ↦ absurd (ground (arith, h, q))
  | inr q ↦ rw q (ap (◌∷◌ (j, w)) (insert-new k v d (ground (arith, h, q))))
]

every-lookup :
    {V : Type 0} (test : String → Bool) (k : String) (v : V) (d : Dict V)
    → every test (keys d) ≡ true
    → lookup k d ≡ some v
    → test k ≡ true
unfolding lookup
every-lookup test k v [] h e = cc
every-lookup test k v ((j, w) ∷ d) h e = elim (Bool-cases (j == k)) [
  | inl q ↦ subst (λ a. test a ≡ true) ((eq_iff j k).0 q) (ground (arith, h))
  | inr q ↦ every-lookup test k v d (ground (arith, h)) (ground (arith, e, q))
]

has_key-none : {V : Type 0} (k : String) (d : Dict V) → has_key k d ≡ true → lookup k d ≡ none → ⊥
has_key-none k d h n = ground (arith, h, n)

-- With the same keys, what one dict lacks the other lacks.
every-none :
    {V W : Type 0} (k : String) (d : Dict V) (e : Dict W)
    → every (λ j. has_key j e) (keys d) ≡ true
    → lookup k e ≡ none
    → lookup k d ≡ none
every-none k d e h n = elim (Option-cases (lookup k d)) [
  | inl m ↦ m
  | inr (v, f) ↦ absurd (has_key-none k e (every-lookup (λ j. has_key j e) k v d h f) n)
]

abbrev pub or_empty : Option String → String
or_empty none = ""
or_empty (some s) = s

-- What a part answers.
abbrev pub answer_of : Json → String × Json
answer_of part = (or_empty (as_str (get "requestId" (body part))), get "response" (body part))

module _ (matches : Json → Json → Bool) (asked : Dict Pending) where
  -- Each answer is to a request of the task and matches its schema.
  abbrev pub Fits : Dict Json → Type 0
  Fits replies =
      (k : String) (v : Json)
      → lookup k replies ≡ some v
      → (p : Pending) × (lookup k asked ≡ some p) × (matches v p.response_schema ≡ true)

  answer-eq_ok :
      (replies r : Dict Json) (k : Option String) (v : Json)
      → answer matches asked replies k v ≡ ok r
      → (p : Pending) × (k ≡ some (or_empty k))
        × (lookup (or_empty k) asked ≡ some p)
        × (lookup (or_empty k) replies ≡ none)
        × (matches v p.response_schema ≡ true)
        × (r ≡ insert (or_empty k) v replies)
  answer-eq_ok replies r none v h = cc h
  answer-eq_ok replies r (some k) v h = elim (Option-cases (lookup k asked)) [
    | inl n ↦ absurd (ground (arith, h, n))
    | inr (p, f) ↦ elim (Option-cases (lookup k replies)) [
      | inr (w, g) ↦ absurd (ground (arith, h, f, g))
      | inl n ↦ elim (Bool-cases (matches v p.response_schema)) [
        | inl m ↦ (p, refl, f, n, m, ground (arith, h, f, n, m))
        | inr m ↦ absurd (ground (arith, h, f, n, m))
      ]
    ]
  ]

  reply_to-eq_ok :
      (replies r : Dict Json) (part : Json)
      → reply_to matches asked replies part ≡ ok r
      → IsDict replies
      → Fits replies
      → (r ≡ replies ++ answer_of part ∷ []) × IsDict r × Fits r
  unfolding reply_to
  reply_to-eq_ok replies r part h d fits = elim (Bool-cases (is_reply_body (body part))) [
    | inr q ↦ absurd (ground (arith, h, q))
    | inl q ↦
        let id = as_str (get "requestId" (body part)) in
        let v = get "response" (body part) in
        let (p, given, asks, new, m, e) = answer-eq_ok replies r id v (ground (arith, h, q)) in
        (
          e ∙ insert-new (or_empty id) v replies new,
          subst IsDict (sym e) (insert-IsDict (or_empty id) v replies d),
          λ k w found.
              elim (lookup-insert_cases (or_empty id) k v w replies
                (ap (lookup k) (sym e) ∙ found)) [
                  | inl (same, w') ↦ (
                    p,
                    subst (λ j. lookup j asked ≡ some p) same asks,
                    subst (λ u. matches u p.response_schema ≡ true) (sym w') m,
                  )
                  | inr (other, old) ↦ fits k w old
                ],
        )
  ]

  collect-eq_ok :
      (replies r : Dict Json) (parts : List Json)
      → collect matches asked replies parts ≡ ok r
      → IsDict replies
      → Fits replies
      → (r ≡ replies ++ map answer_of parts) × IsDict r × Fits r
  unfolding collect
  collect-eq_ok replies r [] h d fits =
      let e = ok_inj replies r h in
      (sym e ∙ sym (append-nil replies), subst IsDict e d, subst Fits e fits)
  collect-eq_ok replies r (part ∷ parts) h d fits =
      let (r₁, first, h₁) = both_ok (reply_to matches asked replies part) _ h in
      let (e₁, d₁, fits₁) = reply_to-eq_ok replies r₁ part first d fits in
      let (e₂, d₂, fits₂) = collect-eq_ok r₁ r parts h₁ d₁ fits₁ in
      (
        e₂
            ∙ ap (λ l. l ++ map answer_of parts) e₁
            ∙ append_assoc replies (answer_of part ∷ []) (map answer_of parts),
        d₂,
        fits₂,
      )

Fits-nil : (matches : Json → Json → Bool) (asked : Dict Pending) → Fits matches asked []
unfolding lookup
Fits-nil matches asked k v f = cc

-- The answers of the parts, no request twice, for exactly the open requests, and by their schemas.
abbrev pub IsReply : (Json → Json → Bool) → List Pending → List Json → Dict Json → Type 0
IsReply matches pending parts replies =
    (replies ≡ map answer_of parts)
    × IsDict replies
    × ((k : String) → (lookup k replies ≡ none) ↔ (lookup k (by_id [] pending) ≡ none))
    × Fits matches (by_id [] pending) replies

-- An accepted continuation of a paused task holds one answer for each open request and no other:
-- the answers are those of its parts in their order, no request is answered twice, and each answer
-- matches the schema of its request.
pub validate_reply-IsReply :
    (matches : Json → Json → Bool) (pending : List Pending) (parts : List Json)
    (replies : Dict Json)
    → validate_reply matches pending parts ≡ ok replies
    → IsReply matches pending parts replies
unfolding validate_reply
validate_reply-IsReply matches pending parts replies h =
    let asked = by_id [] pending in
    let (r, collected, h₁) = both_ok (collect matches asked [] parts) _ h in
    elim (Bool-cases (same_keys r asked)) [
      | inr q ↦ absurd (ground (arith, h₁, q))
      | inl q ↦
          let e : r ≡ replies = ground (arith, h₁, q) in
          let within : every (λ k. has_key k asked) (keys r) ≡ true = ground (arith, q) in
          let whole : every (λ k. has_key k r) (keys asked) ≡ true = ground (arith, q) in
          let (all, d, fits) =
            collect-eq_ok matches asked [] r parts collected tt (Fits-nil matches asked) in
          subst (IsReply matches pending parts) e (
            all,
            d,
            λ k. (λ n. every-none k asked r whole n, λ n. every-none k r asked within n),
            fits,
          )
    ]

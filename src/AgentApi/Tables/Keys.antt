-- ===== src/AgentApi/Tables/Keys.antt =====
-- The primary key of the messages of agent_api/models.py: owner, family and message id.
use wotbot.Base.{
  String, ◌≡◌, inl, inr, refl, ap, ◌∙◌, subst, Bool, true, false, none, some, List, [], ◌∷◌, ◌++◌,
  keep_if, arith, Bool-cases, eq_iff, ==_self,
}
use wotbot.AgentApi.Types.{Family}
use wotbot.AgentApi.Tables.{MessageRow, family_eq, is_message, find_message}

pub family_eq_sound : (a b : Family) → family_eq a b ≡ true → a ≡ b
family_eq_sound Family.assistant Family.assistant h = refl
family_eq_sound Family.assistant Family.raw h = cc
family_eq_sound Family.raw Family.assistant h = cc
family_eq_sound Family.raw Family.raw h = refl

pub family_eq_self : (a : Family) → family_eq a a ≡ true
family_eq_self Family.assistant = refl
family_eq_self Family.raw = refl

family_eq_comm : (a b : Family) → family_eq a b ≡ family_eq b a
family_eq_comm Family.assistant Family.assistant = refl
family_eq_comm Family.assistant Family.raw = refl
family_eq_comm Family.raw Family.assistant = refl
family_eq_comm Family.raw Family.raw = refl

abbrev pub has_key_of : MessageRow → MessageRow → Bool
has_key_of m n = is_message m.owner m.family m.message_id n

has_key_of_comm : (m n : MessageRow) → has_key_of m n ≡ true → has_key_of n m ≡ true
has_key_of_comm m n h = ground (
  arith,
  eq_iff m.owner n.owner,
  eq_iff n.owner m.owner,
  eq_iff m.message_id n.message_id,
  eq_iff n.message_id m.message_id,
  family_eq_comm m.family n.family,
)

pub has_key_of_self : (m : MessageRow) → has_key_of m m ≡ true
has_key_of_self m =
    rw (==_self m.owner) (rw (==_self m.message_id) (rw (family_eq_self m.family) refl))

-- No other message has the key.
abbrev pub IsNew : MessageRow → List MessageRow → Type 0
IsNew m ms = find_message m.owner m.family m.message_id ms ≡ none

-- The key names one message.
abbrev pub IsKeyed : List MessageRow → Type 0
IsKeyed [] = Unit
IsKeyed (m ∷ ms) = IsNew m ms × IsKeyed ms

module _ (owner : String) (f : Family) (mid : String) where
  pub find_message-append_none :
      (ms : List MessageRow) (m : MessageRow)
      → find_message owner f mid ms ≡ none
      → is_message owner f mid m ≡ false
      → find_message owner f mid (ms ++ m ∷ []) ≡ none
  unfolding find_message
  find_message-append_none [] m h q = rw q refl
  find_message-append_none (n ∷ ms) m h q = elim (Bool-cases (is_message owner f mid n)) [
    | inl p ↦ absurd (ground (arith, h, p))
    | inr p ↦ rw p (find_message-append_none ms m (ground (arith, h, p)) q)
  ]

  pub find_message-append :
      (ms ns : List MessageRow) (m : MessageRow)
      → find_message owner f mid ms ≡ some m
      → find_message owner f mid (ms ++ ns) ≡ some m
  unfolding find_message
  find_message-append [] ns m h = cc h
  find_message-append (n ∷ ms) ns m h = elim (Bool-cases (is_message owner f mid n)) [
    | inl q ↦ ground (arith, h, q)
    | inr q ↦ ground (arith, q, find_message-append ms ns m (ground (arith, h, q)))
  ]

  -- A message that goes behind others of other keys is found.
  pub find_message-append_new :
      (ms : List MessageRow) (m : MessageRow)
      → find_message owner f mid ms ≡ none
      → is_message owner f mid m ≡ true
      → find_message owner f mid (ms ++ m ∷ []) ≡ some m
  unfolding find_message
  find_message-append_new [] m h q = rw q refl
  find_message-append_new (n ∷ ms) m h q = elim (Bool-cases (is_message owner f mid n)) [
    | inl p ↦ absurd (ground (arith, h, p))
    | inr p ↦ rw p (find_message-append_new ms m (ground (arith, h, p)) q)
  ]

  module _ (test : MessageRow → Bool) where
    pub find_message-keep_if :
        (ms : List MessageRow) (m : MessageRow)
        → find_message owner f mid ms ≡ some m
        → test m ≡ true
        → find_message owner f mid (keep_if test ms) ≡ some m
    unfolding find_message
    find_message-keep_if [] m h t = cc h
    find_message-keep_if (n ∷ ms) m h t = elim (Bool-cases (is_message owner f mid n)) [
      | inl q ↦
          let same : n ≡ m = ground (arith, h, q) in
          let passes : test n ≡ true = ap test same ∙ t in ground (arith, passes, h, q)
      | inr q ↦
          let ih = find_message-keep_if ms m (ground (arith, h, q)) t in
          elim (Bool-cases (test n)) [ inl p ↦ rw p (rw q ih) | inr p ↦ rw p ih ]
    ]

    pub find_message-keep_if-none :
        (ms : List MessageRow)
        → find_message owner f mid ms ≡ none
        → find_message owner f mid (keep_if test ms) ≡ none
    unfolding find_message
    find_message-keep_if-none [] h = refl
    find_message-keep_if-none (n ∷ ms) h = elim (Bool-cases (is_message owner f mid n)) [
      | inl q ↦ absurd (ground (arith, h, q))
      | inr q ↦
          let ih = find_message-keep_if-none ms (ground (arith, h, q)) in
          elim (Bool-cases (test n)) [ inl p ↦ rw p (rw q ih) | inr p ↦ rw p ih ]
    ]

  -- The one message of a key.
  key_found :
      (n : MessageRow) (ms : List MessageRow)
      → is_message owner f mid n ≡ true
      → IsNew n ms
      → find_message owner f mid ms ≡ none
  key_found n ms h new =
      let o : n.owner ≡ owner = (eq_iff n.owner owner).0 (ground (arith, h)) in
      let g : n.family ≡ f = family_eq_sound n.family f (ground (arith, h)) in
      let i : n.message_id ≡ mid = (eq_iff n.message_id mid).0 (ground (arith, h)) in
      subst (λ a. find_message a f mid ms ≡ none) o
        (subst (λ a. find_message n.owner a mid ms ≡ none) g
          (subst (λ a. find_message n.owner n.family a ms ≡ none) i new))

  -- When the message of a key goes, no other is left.
  pub find_message-gone :
      (test : MessageRow → Bool) (ms : List MessageRow) (m : MessageRow)
      → IsKeyed ms
      → find_message owner f mid ms ≡ some m
      → test m ≡ false
      → find_message owner f mid (keep_if test ms) ≡ none
  unfolding find_message
  find_message-gone test [] m k h t = cc
  find_message-gone test (n ∷ ms) m k h t = elim (Bool-cases (is_message owner f mid n)) [
    | inl q ↦
        let same : n ≡ m = ground (arith, h, q) in
        let fails : test n ≡ false = ap test same ∙ t in
        rw fails (find_message-keep_if-none test ms (key_found n ms q k.0))
    | inr q ↦
        let ih = find_message-gone test ms m k.1 (ground (arith, h, q)) t in
        elim (Bool-cases (test n)) [ inl p ↦ rw p (rw q ih) | inr p ↦ rw p ih ]
  ]

pub keep_if-IsKeyed :
    (test : MessageRow → Bool) (ms : List MessageRow) → IsKeyed ms → IsKeyed (keep_if test ms)
keep_if-IsKeyed test [] k = tt
keep_if-IsKeyed test (m ∷ ms) k = elim (Bool-cases (test m)) [
  | inl q ↦ rw q (
    find_message-keep_if-none m.owner m.family m.message_id test ms k.0,
    keep_if-IsKeyed test ms k.1,
  )
  | inr q ↦ rw q (keep_if-IsKeyed test ms k.1)
]

pub append-IsKeyed :
    (ms : List MessageRow) (m : MessageRow) → IsKeyed ms → IsNew m ms → IsKeyed (ms ++ m ∷ [])
unfolding find_message
append-IsKeyed [] m k new = (refl, tt)
append-IsKeyed (n ∷ ms) m k new = elim (Bool-cases (has_key_of m n)) [
  | inl q ↦ absurd (ground (arith, new, q))
  | inr q ↦ elim (Bool-cases (has_key_of n m)) [
    | inl p ↦ let no = has_key_of_comm n m p in absurd (ground (arith, no, q))
    | inr p ↦ (
      find_message-append_none n.owner n.family n.message_id ms m k.0 p,
      append-IsKeyed ms m k.1 (ground (arith, new, q)),
    )
  ]
]

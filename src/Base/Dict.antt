-- ===== src/Base/Dict.antt =====
-- Python's `dict` with string keys, as an association list in insertion order; a table of the
-- database by primary key is one too.
use wotbot.Base.{
  String, ◌≡◌, ◌≢◌, ◌∙◌, ◌⊎◌, ◌↔◌, inl, inr, refl, sym, ap, subst, subst₂, Bool-cases, Option-cases,
  ==_self, Bool, true, false, Option, none, some, List, [], ◌∷◌, map, All, arith, ◌==◌, eq_iff,
  if◌then◌else◌,
}

abbrev pub Dict {ℓ} : Type ℓ → Type ℓ
Dict V = List (String × V)

module _ {ℓ} {V : Type ℓ} where
  -- `d.get(k)`
  unfoldable pub lookup : String → Dict V → Option V
  lookup k [] = none
  lookup k ((j, v) ∷ d) = if j == k then some v else lookup k d

  -- `k in d`
  abbrev pub has_key : String → Dict V → Bool
  has_key k d = elim (lookup k d) [ none ↦ false | some _ ↦ true ]

  -- `d[k] = v`: a key that is there keeps its place
  unfoldable pub insert : String → V → Dict V → Dict V
  insert k v [] = (k, v) ∷ []
  insert k v ((j, w) ∷ d) = if j == k then (j, v) ∷ d else (j, w) ∷ insert k v d

  -- `d.pop(k, None)`, `del d[k]`
  unfoldable pub erase : String → Dict V → Dict V
  erase k [] = []
  erase k ((j, v) ∷ d) = if j == k then erase k d else (j, v) ∷ erase k d

  -- `{**d, **e}`
  unfoldable pub merge : Dict V → Dict V → Dict V
  merge d [] = d
  merge d ((k, v) ∷ e) = merge (insert k v d) e

  abbrev pub keys : Dict V → List String
  keys = map (λ e. e.0)

  abbrev pub values : Dict V → List V
  values = map (λ e. e.1)

  -- `{k: v for k, v in d.items() if test(k, v)}`
  unfoldable pub keep_entries : (String → V → Bool) → Dict V → Dict V
  keep_entries test [] = []
  keep_entries test ((k, v) ∷ d) =
      if test k v then (k, v) ∷ keep_entries test d else keep_entries test d

  pub lookup-insert :
      (k j : String) (v : V) (d : Dict V)
      → lookup j (insert k v d) ≡ (if k == j then some v else lookup j d)
  unfolding lookup insert
  lookup-insert k j v [] = refl
  lookup-insert k j v ((i, w) ∷ d) =
      ground (arith, eq_iff k j, eq_iff i k, eq_iff i j, lookup-insert k j v d)

  pub lookup-erase :
      (k j : String) (d : Dict V) → lookup j (erase k d) ≡ (if k == j then none else lookup j d)
  unfolding lookup erase
  lookup-erase k j [] = ground arith
  lookup-erase k j ((i, w) ∷ d) =
      ground (arith, eq_iff k j, eq_iff i k, eq_iff i j, lookup-erase k j d)

module _ {ℓ} {V : Type ℓ} where
  pub lookup-insert_self : (k : String) (v : V) (d : Dict V) → lookup k (insert k v d) ≡ some v
  lookup-insert_self k v d = rw (lookup-insert k k v d, ==_self k)

  pub lookup-insert_ne :
      (k j : String) (v : V) (d : Dict V) → k ≢ j → lookup j (insert k v d) ≡ lookup j d
  lookup-insert_ne k j v d h = rw (lookup-insert k j v d) (ground (arith, eq_iff k j))

  -- What is found after a write is the value written, or was there before.
  pub lookup-insert_cases :
      (k j : String) (v w : V) (d : Dict V)
      → lookup j (insert k v d) ≡ some w
      → ((k ≡ j) × (w ≡ v)) ⊎ ((k ≢ j) × (lookup j d ≡ some w))
  lookup-insert_cases k j v w d h = elim (Bool-cases (k == j)) [
    | inl e ↦ inl ((eq_iff k j).0 e, ground (arith, lookup-insert k j v d))
    | inr e ↦ inr (λ p. cc (e, (eq_iff k j).1 p), ground (arith, lookup-insert k j v d))
  ]

-- No key stands twice, as in every dict.
abbrev pub IsDict {ℓ} : {V : Type ℓ} → Dict V → Type ℓ
IsDict [] = Unit
IsDict ((k, v) ∷ d) = (lookup k d ≡ none) × IsDict d

module _ {ℓ} {V : Type ℓ} where
  pub insert-IsDict : (k : String) (v : V) (d : Dict V) → IsDict d → IsDict (insert k v d)
  unfolding insert lookup
  insert-IsDict k v [] h = (refl, tt)
  insert-IsDict k v ((j, w) ∷ d) h = elim (Bool-cases (j == k)) [
    | inl e ↦ rw e h
    | inr e ↦ rw e (
      rw (lookup-insert k j v d) (ground (arith, eq_iff k j, eq_iff j k)),
      insert-IsDict k v d h.1,
    )
  ]

  pub erase-IsDict : (k : String) (d : Dict V) → IsDict d → IsDict (erase k d)
  unfolding erase
  erase-IsDict k [] h = tt
  erase-IsDict k ((j, w) ∷ d) h = elim (Bool-cases (j == k)) [
    | inl e ↦ rw e (erase-IsDict k d h.1)
    | inr e ↦ rw e (rw (lookup-erase k j d) (ground (arith, h.0)), erase-IsDict k d h.1)
  ]

  pub lookup-keep_entries-none :
      (test : String → V → Bool) (k : String) (d : Dict V)
      → lookup k d ≡ none
      → lookup k (keep_entries test d) ≡ none
  unfolding lookup keep_entries
  lookup-keep_entries-none test k [] h = refl
  lookup-keep_entries-none test k ((j, w) ∷ d) h = ground (arith, lookup-keep_entries-none test k d)

  pub keep_entries-IsDict :
      (test : String → V → Bool) (d : Dict V) → IsDict d → IsDict (keep_entries test d)
  unfolding keep_entries
  keep_entries-IsDict test [] h = tt
  keep_entries-IsDict test ((j, w) ∷ d) h = elim (Bool-cases (test j w)) [
    | inl e ↦ rw e (lookup-keep_entries-none test j d h.0, keep_entries-IsDict test d h.1)
    | inr e ↦ rw e (keep_entries-IsDict test d h.1)
  ]

  found_kept :
      (test : String → V → Bool) (k : String) (v : V) (d : Dict V)
      → IsDict d
      → lookup k (keep_entries test d) ≡ some v
      → (lookup k d ≡ some v) × (test k v ≡ true)
  unfolding lookup keep_entries
  found_kept test k v [] h e = cc
  found_kept test k v ((j, w) ∷ d) h e = elim (Bool-cases (j == k)) [
    | inr ne ↦ rw ne (found_kept test k v d h.1 (ground (arith, e, ne)))
    | inl q ↦ elim (Bool-cases (test j w)) [
      | inl t ↦
          let same : w ≡ v = ground (arith, e, q, t) in
          (ground (arith, same, q), subst₂ (λ a b. test a b ≡ true) ((eq_iff j k).0 q) same t)
      | inr t ↦
          let (there, _) = found_kept test k v d h.1 (ground (arith, e, t)) in
          let here : lookup k d ≡ none = subst (λ a. lookup a d ≡ none) ((eq_iff j k).0 q) (h.0) in
          cc (there, here)
    ]
  ]

  kept_found :
      (test : String → V → Bool) (k : String) (v : V) (d : Dict V)
      → lookup k d ≡ some v
      → test k v ≡ true
      → lookup k (keep_entries test d) ≡ some v
  unfolding lookup keep_entries
  kept_found test k v [] e t = e
  kept_found test k v ((j, w) ∷ d) e t = elim (Bool-cases (j == k)) [
    | inr ne ↦
        let rest = kept_found test k v d (ground (arith, e, ne)) t in ground (arith, rest, ne)
    | inl q ↦
        let same : w ≡ v = ground (arith, e, q) in
        let passes : test j w ≡ true =
          subst₂ (λ a b. test a b ≡ true) (sym ((eq_iff j k).0 q)) (sym same) t in
        rw passes (rw q (ap some same))
  ]

  -- What is found among the kept entries was there and passes the test.
  pub lookup-keep_entries :
      (test : String → V → Bool) (k : String) (v : V) (d : Dict V)
      → IsDict d
      → (lookup k (keep_entries test d) ≡ some v) ↔ ((lookup k d ≡ some v) × (test k v ≡ true))
  lookup-keep_entries test k v d h =
      (λ e. found_kept test k v d h e, λ e. kept_found test k v d e.0 e.1)

  -- The entries are found under their keys in `d`.
  abbrev pub FoundIn : Dict V → Dict V → Type ℓ
  FoundIn d = All λ e. lookup e.0 d ≡ some e.1

  FoundIn-cons :
      (k : String) (v : V) (d xs : Dict V)
      → lookup k d ≡ none
      → FoundIn d xs
      → FoundIn ((k, v) ∷ d) xs
  unfolding lookup
  FoundIn-cons k v d [] new h = tt
  FoundIn-cons k v d ((j, w) ∷ xs) new h =
      (ground (arith, eq_iff k j, h.0, new), FoundIn-cons k v d xs new h.1)

  pub IsDict-FoundIn : (d : Dict V) → IsDict d → FoundIn d d
  unfolding lookup
  IsDict-FoundIn [] h = tt
  IsDict-FoundIn ((k, v) ∷ d) h = (rw (==_self k), FoundIn-cons k v d d h.0 (IsDict-FoundIn d h.1))

abbrev pub or_else {ℓ} : {A : Type ℓ} → Option A → Option A → Option A
or_else none b = b
or_else (some a) b = some a

module _ {ℓ} {V : Type ℓ} where
  abbrev pub kept : (V → Bool) → Option V → Option V
  kept test none = none
  kept test (some v) = if test v then some v else none

  pub lookup-keep_entries_eq :
      (test : String → V → Bool) (k : String) (d : Dict V)
      → IsDict d
      → lookup k (keep_entries test d) ≡ kept (test k) (lookup k d)
  lookup-keep_entries_eq test k d h = go (lookup k d) refl
    where
      go : (o : Option V) → lookup k d ≡ o → lookup k (keep_entries test d) ≡ kept (test k) o
      go none e = lookup-keep_entries-none test k d e
      go (some v) e = elim (Bool-cases (test k v)) [
        | inl t ↦ rw t ((lookup-keep_entries test k v d h).1 (e, t))
        | inr t ↦ elim (Option-cases (lookup k (keep_entries test d))) [
          | inl n ↦ rw t n
          | inr (w, g) ↦
              let (there, passes) = (lookup-keep_entries test k w d h).0 g in
              let same : w ≡ v = ground (arith, there, e) in
              let bad : test k v ≡ true = ap (test k) (sym same) ∙ passes in cc (bad)
        ]
      ]

  -- The second dict wins.
  pub lookup-merge :
      (k : String) (d e : Dict V)
      → IsDict e
      → lookup k (merge d e) ≡ or_else (lookup k e) (lookup k d)
  unfolding lookup merge
  lookup-merge k d [] h = refl
  lookup-merge k d ((j, v) ∷ e) h = elim (Bool-cases (j == k)) [
    | inl q ↦
        let none_left : lookup k e ≡ none =
          subst (λ z. lookup z e ≡ none) ((eq_iff j k).0 q) (h.0) in
        lookup-merge k (insert j v d) e h.1
        ∙ rw none_left (rw q (lookup-insert j k v d ∙ rw q refl))
    | inr q ↦
        let passed : lookup k (insert j v d) ≡ lookup k d =
          ground (arith, q, lookup-insert j k v d) in
        lookup-merge k (insert j v d) e h.1 ∙ rw q (ap (or_else (lookup k e)) passed)
  ]

pub ruleset dict_laws = (lookup-insert, lookup-erase)

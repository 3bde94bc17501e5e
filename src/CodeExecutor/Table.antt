-- ===== src/CodeExecutor/Table.antt =====
-- The table of sessions: what every body under the pool's lock keeps true of it.
use wotbot.Base.{
  ℕ, ◌+◌, ◌≤◌, ◌<◌, String, ◌≡◌, ◌≢◌, inl, inr, sym, ◌∙◌, subst, true, false, some, [], ◌∷◌, length,
  arith, Bool-cases, Option-cases, nat_eq, leb, eq_iff,
}
use wotbot.Base.Dict.{
  Dict, lookup, insert, erase, lookup-erase, lookup-insert_cases, IsDict, insert-IsDict,
  erase-IsDict,
}
use wotbot.CodeExecutor.Pool.{Pool, created, remove, shutdown, name_of}

-- The table is a dict of open entries that have been made, an entry stands in it under one name, and
-- it has no more than `max_sessions` of them.
pub record IsTable (max_sessions : ℕ) (p : Pool) : Type 0 where
  pub dict : IsDict p.sessions
  pub made : (s : String) (e : ℕ) → lookup s p.sessions ≡ some e → e < p.fresh
  pub opened : (s : String) (e : ℕ) → lookup s p.sessions ≡ some e → p.is_open e ≡ true
  pub one :
      (s t : String) (e : ℕ) → lookup s p.sessions ≡ some e → lookup t p.sessions ≡ some e → s ≡ t
  pub fits : length p.sessions ≤ max_sessions

length-erase {ℓ} : {V : Type ℓ} (k : String) (d : Dict V) → length (erase k d) ≤ length d
unfolding erase
length-erase k [] = omega arith
length-erase k ((j, w) ∷ d) = ground (arith, length-erase k d)

length-insert {ℓ} :
    {V : Type ℓ} (k : String) (v : V) (d : Dict V) → length (insert k v d) ≤ length d + 1
unfolding insert
length-insert k v [] = omega arith
length-insert k v ((j, w) ∷ d) = ground (arith, length-insert k v d)

pub lookup-erase_found {ℓ} :
    {V : Type ℓ} (k j : String) (v : V) (d : Dict V)
    → lookup j (erase k d) ≡ some v
    → (k ≢ j) × (lookup j d ≡ some v)
lookup-erase_found k j v d h = ground (arith, lookup-erase k j d, eq_iff k j, h)

pub remove-IsTable :
    (max_sessions : ℕ) (p : Pool) (s : String) (e : ℕ)
    → IsTable max_sessions p
    → lookup s p.sessions ≡ some e
    → IsTable max_sessions (remove p s e)
remove-IsTable max_sessions p s e t there =
    let found = λ (j : String) (v : ℕ) (h : lookup j (erase s p.sessions) ≡ some v).
      lookup-erase_found s j v p.sessions h in
    record {
      dict = erase-IsDict s p.sessions t.dict;
      made = λ j v h. t.made j v (found j v h).1;
      opened = λ j v h.
          let (ne, h') = found j v h in
          let other : v ≢ e =
            λ q. ne (t.one s j e there (subst (λ a. lookup j p.sessions ≡ some a) q h')) in
          ground (arith, other, t.opened j v h');
      one = λ i j v h k. t.one i j v (found i v h).1 (found j v k).1;
      fits = omega (arith, t.fits, length-erase s p.sessions);
    }

pub created-IsTable :
    (max_sessions : ℕ) (p : Pool) (s : String) (pid now : ℕ)
    → IsTable max_sessions p
    → leb max_sessions (length p.sessions) ≡ false
    → IsTable max_sessions (created p s pid now)
created-IsTable max_sessions p s pid now t small =
    let cases = λ (j : String) (v : ℕ) (h : lookup j (insert s p.fresh p.sessions) ≡ some v).
      lookup-insert_cases s j p.fresh v p.sessions h in
    record {
      dict = insert-IsDict s p.fresh p.sessions t.dict;
      made = λ j v h. elim (cases j v h) [
        | inl (same, new) ↦ omega (arith, new)
        | inr (ne, old) ↦ omega (arith, t.made j v old)
      ];
      opened = λ j v h. elim (cases j v h) [
        | inl (same, new) ↦ ground (arith, new)
        | inr (ne, old) ↦ ground (arith, t.made j v old, t.opened j v old)
      ];
      one = λ i j v h k. elim (cases i v h) [
        | inl (si, new) ↦ elim (cases j v k) [
          | inl (sj, _) ↦ sym si ∙ sj
          | inr (ne, old) ↦ absurd (omega (arith, new, t.made j v old))
        ]
        | inr (ni, old_i) ↦ elim (cases j v k) [
          | inl (sj, new) ↦ absurd (omega (arith, new, t.made i v old_i))
          | inr (nj, old_j) ↦ t.one i j v old_i old_j
        ]
      ];
      fits = ground (arith, small, length-insert s p.fresh p.sessions);
    }

-- A body under the lock leaves the pool, or removes one session.
pub data Removes (p : Pool) : Pool → Type 0 where
  same : Removes p p
  gone : (s : String) (e : ℕ) → lookup s p.sessions ≡ some e → Removes p (remove p s e)

pub name_of-eq_some :
    (e : ℕ) (d : Dict ℕ) (s : String) → IsDict d → name_of e d ≡ some s → lookup s d ≡ some e
unfolding name_of lookup
name_of-eq_some e [] s h q = cc
name_of-eq_some e ((j, v) ∷ d) s h q = elim (Bool-cases (nat_eq v e)) [
  | inl eq ↦ ground (arith, q, eq, eq_iff j s)
  | inr ne ↦
      let rest = name_of-eq_some e d s h.1 (ground (arith, q, ne)) in
      ground (arith, rest, eq_iff j s, h.0)
]

pub shutdown-Removes : (p : Pool) (s : String) → Removes p (shutdown p s)
unfolding shutdown
shutdown-Removes p s = elim (Option-cases (lookup s p.sessions)) [
  | inl e ↦ rw e same
  | inr (v, e) ↦ rw e (gone s v e)
]

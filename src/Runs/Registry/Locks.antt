-- ===== src/Runs/Registry/Locks.antt =====
-- The locks of the threads under any interleaving of their users.
use wotbot.Base.{
  ℕ, ◌+◌, ◌-◌, ◌≤◌, ◌<◌, String, ◌≡◌, ◌≢◌, ◌⊎◌, inl, inr, refl, sym, ap, ◌∙◌, subst, true, false,
  none, some, List, [], All, ◌∷◌, ◌++◌, arith, Bool-cases, Option-cases, nat_eq, if◌then◌else◌,
  eq_iff, ◌==◌,
}
use wotbot.Base.Dict.{
  Dict, lookup, insert, erase, lookup-insert, lookup-erase, lookup-insert_self, lookup-insert_cases,
}
use wotbot.Runs.Registry.{Registry, set_users, entered, enter, leave}

-- The users inside of `thread_lock`: each with its thread and the entry that it got.
abbrev pub Holders : Type 0
Holders = List (String × ℕ)

abbrev pub holds : ℕ → Holders → ℕ
holds entry [] = 0
holds entry ((t, e) ∷ hs) = if nat_eq e entry then holds entry hs + 1 else holds entry hs

-- One user enters or leaves.
pub data LockStep : Registry → Holders → Registry → Holders → Type 0 where
  enters :
      {r : Registry} {hs : Holders} (thread_id : String)
      → LockStep r hs ((enter r thread_id).1) ((thread_id, (enter r thread_id).0) ∷ hs)
  leaves :
      {r : Registry} (hs hs' : Holders) (thread_id : String) (entry : ℕ)
      → LockStep r (hs ++ (thread_id, entry) ∷ hs') (leave r thread_id entry) (hs ++ hs')

-- Every holder has the entry of its thread; an entry counts its holders and has at least one, and
-- belongs to one thread.
pub record IsLocked (r : Registry) (hs : Holders) : Type 0 where
  pub held : All (λ (h : String × ℕ). lookup h.0 r.thread_locks ≡ some h.1) hs
  pub counts :
      (t : String) (e : ℕ)
      → lookup t r.thread_locks ≡ some e
      → (r.users e ≡ holds e hs) × (1 ≤ holds e hs) × (e < r.fresh)
  pub one :
      (s t : String) (e : ℕ)
      → lookup s r.thread_locks ≡ some e
      → lookup t r.thread_locks ≡ some e
      → s ≡ t

All-map {ℓ κ μ} :
    {A : Type ℓ} (P : A → Type κ) (Q : A → Type μ) (xs : List A)
    → ((x : A) → P x → Q x)
    → All P xs
    → All Q xs
All-map P Q [] f h = tt
All-map P Q (x ∷ xs) f h = (f x h.0, All-map P Q xs f h.1)

All-zip {ℓ κ μ} :
    {A : Type ℓ} (P : A → Type κ) (Q : A → Type μ) (xs : List A)
    → All P xs
    → All Q xs
    → All (λ x. P x × Q x) xs
All-zip P Q [] h k = tt
All-zip P Q (x ∷ xs) h k = ((h.0, k.0), All-zip P Q xs h.1 k.1)

All-remove {ℓ κ} :
    {A : Type ℓ} (P : A → Type κ) (xs : List A) (y : A) (ys : List A)
    → All P (xs ++ y ∷ ys)
    → P y × All P (xs ++ ys)
All-remove P [] y ys h = h
All-remove P (x ∷ xs) y ys h = let (a, b) = All-remove P xs y ys h.1 in (a, (h.0, b))

holds-remove :
    (x : ℕ) (hs hs' : Holders) (t : String) (e : ℕ)
    → holds x (hs ++ (t, e) ∷ hs')
      ≡ (if nat_eq e x then holds x (hs ++ hs') + 1 else holds x (hs ++ hs'))
holds-remove x [] hs' t e = refl
holds-remove x ((s, y) ∷ hs) hs' t e = ground (arith, holds-remove x hs hs' t e)

holds-none : (e : ℕ) (hs : Holders) → All (λ (h : String × ℕ). h.1 ≢ e) hs → holds e hs ≡ 0
holds-none e [] h = refl
holds-none e ((t, x) ∷ hs) h = ground (arith, holds-none e hs h.1, h.0)

none-holds : (e : ℕ) (hs : Holders) → holds e hs ≡ 0 → All (λ (h : String × ℕ). h.1 ≢ e) hs
none-holds e [] h = tt
none-holds e ((t, x) ∷ hs) h = (λ p. ground (arith, h, p), none-holds e hs (ground (arith, h)))

-- The entry is the thread's own in the table.
abbrev Held : Registry → String × ℕ → Type 0
Held r h = lookup h.0 r.thread_locks ≡ some h.1

module _ (r : Registry) (hs : Holders) (t : String) (before : IsLocked r hs) where
  abbrev Entered : ℕ × Registry → Type 0
  Entered x = IsLocked x.1 ((t, x.0) ∷ hs)

  old_below : (s : String) (x : ℕ) → lookup s r.thread_locks ≡ some x → r.fresh ≢ x
  old_below s x h p = let c = before.counts s x h in absurd (omega (arith, c.2, p))

  new-Held :
      lookup t r.thread_locks ≡ none
      → (h : String × ℕ) → Held r h
      → lookup h.0 (insert t r.fresh r.thread_locks) ≡ some h.1
  new-Held new (s, x) h = elim (Bool-cases (t == s)) [
    | inl e ↦ cc (subst (λ z. lookup z r.thread_locks ≡ none) ((eq_iff t s).0 e) new, h)
    | inr e ↦ lookup-insert t s r.fresh r.thread_locks ∙ ground (arith, e, h)
  ]

  none_fresh : holds r.fresh hs ≡ 0
  none_fresh =
      holds-none r.fresh hs (
        All-map (Held r) (λ h. h.1 ≢ r.fresh) hs (λ h e p. old_below h.0 h.1 e (sym p)) before.held)

  abbrev NewLock : String → ℕ → Type 0
  NewLock s x = ((t ≡ s) × (x ≡ r.fresh)) ⊎ ((t ≢ s) × (lookup s r.thread_locks ≡ some x))

  new_one : (s s' : String) (x : ℕ) → NewLock s x → NewLock s' x → s ≡ s'
  new_one s s' x (inl (p, e)) (inl (q, e')) = sym p ∙ q
  new_one s s' x (inl (p, e)) (inr (q, h)) = absurd (old_below s' x h (sym e))
  new_one s s' x (inr (p, h)) (inl (q, e)) = absurd (old_below s x h (sym e))
  new_one s s' x (inr (p, h)) (inr (q, h')) = before.one s s' x h h'

  new-Entered : lookup t r.thread_locks ≡ none → Entered (entered r t none)
  new-Entered new = record {
    held = (
      lookup-insert_self t r.fresh r.thread_locks,
      All-map (Held r) (λ h. lookup h.0 (insert t r.fresh r.thread_locks) ≡ some h.1) hs
          (new-Held new) before.held,
    );
    counts = λ s x h. elim (lookup-insert_cases t s r.fresh x r.thread_locks h) [
      | inl (_, e) ↦
          (ground (arith, e, none_fresh), ground (arith, e, none_fresh), omega (arith, e))
      | inr (_, o) ↦
          let c = before.counts s x o in
          let b = old_below s x o in
          (ground (arith, c.0, b), ground (arith, c.1, b), omega (arith, c.2))
    ];
    one = λ s s' x h h'.
        new_one s s' x (lookup-insert_cases t s r.fresh x r.thread_locks h)
          (lookup-insert_cases t s' r.fresh x r.thread_locks h');
  }

  found-Entered : (e : ℕ) → lookup t r.thread_locks ≡ some e → Entered (entered r t (some e))
  found-Entered e found = record {
    held = (found, before.held);
    counts =
        λ s x h. let c = before.counts s x h in (ground (arith, c.0), ground (arith, c.1), c.2);
    one = before.one;
  }

  enter-IsLocked : Entered (enter r t)
  unfolding enter
  enter-IsLocked = elim (Option-cases (lookup t r.thread_locks)) [
    | inl new ↦ subst (λ o. Entered (entered r t o)) (sym new) (new-Entered new)
    | inr (e, found) ↦ subst (λ o. Entered (entered r t o)) (sym found) (found-Entered e found)
  ]

module _ (r : Registry) (hs hs' : Holders) (t : String) (e : ℕ)
    (before : IsLocked r (hs ++ (t, e) ∷ hs')) where
  split : Held r (t, e) × All (Held r) (hs ++ hs')
  split = All-remove (Held r) hs (t, e) hs' before.held

  left : r.users e - 1 ≡ holds e (hs ++ hs')
  left = let c = before.counts t e (split.0) in ground (arith, c.0, holds-remove e hs hs' t e)

  other_count : (x : ℕ) → x ≢ e → holds x (hs ++ (t, e) ∷ hs') ≡ holds x (hs ++ hs')
  other_count x ne = ground (arith, holds-remove x hs hs' t e, ne)

  -- Another user of the entry remains.
  more_users :
      nat_eq (r.users e - 1) 0 ≡ false
      → IsLocked (record r { users = set_users e (r.users e - 1) r.users }) (hs ++ hs')
  more_users more = record {
    held = split.1;
    counts = λ s x h.
        let c = before.counts s x h in
        elim (Bool-cases (nat_eq x e)) [
          | inl q ↦
              let q' : x ≡ e = ground (arith, q) in
              (
                rw q (left ∙ ap (λ y. holds y (hs ++ hs')) (sym q')),
                subst (λ y. 1 ≤ holds y (hs ++ hs')) (sym q') (ground (arith, left, more)),
                c.2,
              )
          | inr q ↦
              let o = other_count x (λ p. ground (arith, q, p)) in
              (rw q (c.0 ∙ o), subst (λ n. 1 ≤ n) o c.1, c.2)
        ];
    one = before.one;
  }

  erased :
      (s : String) (x : ℕ)
      → lookup s (erase t r.thread_locks) ≡ some x
      → (t ≢ s) × (lookup s r.thread_locks ≡ some x)
  erased s x h = elim (Bool-cases (t == s)) [
    | inl q ↦ absurd (ground (arith, q, h, lookup-erase t s r.thread_locks))
    | inr q ↦ (λ p. cc (q, (eq_iff t s).1 p), ground (arith, q, h, lookup-erase t s r.thread_locks))
  ]

  still-Held :
      (h : String × ℕ) → (h.1 ≢ e) × Held r h → lookup h.0 (erase t r.thread_locks) ≡ some h.1
  still-Held (s, x) (ne, h) = elim (Bool-cases (t == s)) [
    | inl q ↦
        let h' : lookup t r.thread_locks ≡ some x =
          subst (λ z. lookup z r.thread_locks ≡ some x) (sym ((eq_iff t s).0 q)) h in
        absurd (ne (ground (arith, h', split.0)))
    | inr q ↦ lookup-erase t s r.thread_locks ∙ ground (arith, q, h)
  ]

  -- The last user takes the entry away.
  last_user :
      nat_eq (r.users e - 1) 0 ≡ true
      → IsLocked
          (record r {
            thread_locks = erase t r.thread_locks;
            users = set_users e (r.users e - 1) r.users;
          })
          (hs ++ hs')
  last_user last = record {
    held =
        All-map (λ h. (h.1 ≢ e) × Held r h) (λ h. lookup h.0 (erase t r.thread_locks) ≡ some h.1)
          (hs ++ hs') still-Held
          (All-zip (λ h. h.1 ≢ e) (Held r) (hs ++ hs')
            (none-holds e (hs ++ hs') (ground (arith, left, last))) (split.1));
    counts = λ s x h.
        let (apart, h') = erased s x h in
        let c = before.counts s x h' in
        let ne : x ≢ e = λ p. apart (before.one t s x (split.0 ∙ ap some (sym p)) h') in
        let o = other_count x ne in (ground (arith, c.0, o, ne), subst (λ n. 1 ≤ n) o c.1, c.2);
    one = λ s s' x h h'. before.one s s' x ((erased s x h).1) ((erased s' x h').1);
  }

  leave-IsLocked : IsLocked (leave r t e) (hs ++ hs')
  unfolding leave
  leave-IsLocked = rw (split.0) (
      rw (nat_eq_self e) (elim (Bool-cases (nat_eq (r.users e - 1) 0)) [
        | inl z ↦ rw z (last_user z)
        | inr z ↦ rw z (more_users z)
      ]))
    where
      nat_eq_self : (n : ℕ) → nat_eq n n ≡ true
      nat_eq_self n = ground arith

-- What users of `thread_lock` make of a registry without locks.
pub data Running : Registry → Holders → Type 0 where
  idle :
      (tasks : Dict ℕ) (users : ℕ → ℕ) (fresh : ℕ)
      → Running (record { tasks = tasks; thread_locks = []; users = users; fresh = fresh }) []
  moves :
      {r r' : Registry} {hs hs' : Holders} → Running r hs → LockStep r hs r' hs' → Running r' hs'

-- However the users of `thread_lock` enter and leave, all users of one thread hold on to the same
-- entry, so its lock makes their runs follow one another; an entry counts its users, belongs to
-- one thread, and is in the table only as long as it has a user.
pub Running-IsLocked : {r : Registry} {hs : Holders} → Running r hs → IsLocked r hs
unfolding lookup
Running-IsLocked (idle tasks users fresh) = record {
  held = tt;
  counts = λ t e h. cc;
  one = λ s t e h h'. cc;
}
Running-IsLocked (moves h (enters t)) = enter-IsLocked _ _ t (Running-IsLocked h)
Running-IsLocked (moves h (leaves hs hs' t e)) = leave-IsLocked _ hs hs' t e (Running-IsLocked h)

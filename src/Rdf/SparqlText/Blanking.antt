-- ===== src/Rdf/SparqlText/Blanking.antt =====
-- Masking keeps every character in its place, or writes a space for it.
use Prim.Native.Char.{Char, code}
use wotbot.Base.{
  ℕ, zero, suc, ◌≤◌, ◌≡◌, ◌⊎◌, inl, inr, refl, sym, subst, ap, Bool, true, false, not, ◌&&◌, ◌||◌,
  List, [], ◌∷◌, ◌++◌, arith, Bool-cases, length, length-append, nat_eq, if◌then◌else◌,
}
use wotbot.Rdf.SparqlText.{
  space, is, opens_iri, closes_iri, is_hash, is_backslash, is_quote, is_newline, starts_triple,
  Mode, unquoted, quoted, Round, one, three, comment_out, comment_rest, comment, consume_unquoted,
  masked, consume_quoted, consume, mask_loop, mask_comments_and_literals,
}

-- The character stays, or a space takes the place of a character that ends no line.
abbrev pub KeptOrBlank : Char → Char → Type 0
KeptOrBlank c d = (d ≡ c) ⊎ ((d ≡ space) × (is_newline c ≡ false))

abbrev pub Blanked : List Char → List Char → Type 0
Blanked [] [] = Unit
Blanked (c ∷ cs) (d ∷ ds) = KeptOrBlank c d × Blanked cs ds
Blanked _ _ = ⊥

Blanked-append :
    (xs xs' ys ys' : List Char) → Blanked xs xs' → Blanked ys ys' → Blanked (xs ++ ys) (xs' ++ ys')
Blanked-append [] [] ys ys' h k = k
Blanked-append [] (x' ∷ xs') ys ys' h k = absurd h
Blanked-append (x ∷ xs) [] ys ys' h k = absurd h
Blanked-append (x ∷ xs) (x' ∷ xs') ys ys' h k = (h.0, Blanked-append xs xs' ys ys' h.1 k)

-- A quote is no line end.
abbrev IsMode : Mode → Type 0
IsMode (unquoted in_iri) = Unit
IsMode (quoted quote triple escaped) = nat_eq quote 10 || nat_eq quote 13 ≡ false

-- A round blanks the characters that it consumes, at least one.
abbrev IsRound : List Char → Round → Type 0
IsRound cs r =
    (c : Char) × (taken : List Char) × (cs ≡ (c ∷ taken) ++ r.rest)
    × Blanked (c ∷ taken) r.out
    × IsMode r.mode

one-IsRound :
    (c d : Char) (cs : List Char) (mode : Mode)
    → KeptOrBlank c d
    → IsMode mode
    → IsRound (c ∷ cs) (one d cs mode)
one-IsRound c d cs mode h m = (c, [], refl, (h, tt), m)

blank_if-KeptOrBlank :
    (b : Bool) (c : Char) → is_newline c ≡ false → KeptOrBlank c (if b then space else c)
blank_if-KeptOrBlank true c h = inr (refl, h)
blank_if-KeptOrBlank false c h = inl refl

masked-KeptOrBlank : (b : Bool) (c : Char) → KeptOrBlank c (masked b c)
masked-KeptOrBlank false c = inl refl
masked-KeptOrBlank true c = go (is_newline c) refl
  where
    go : (x : Bool) → is_newline c ≡ x → KeptOrBlank c (if not x then space else c)
    go true e = inl refl
    go false e = inr (refl, e)

three-IsRound :
    (b : Bool) (n : ℕ) (c : Char) (cs : List Char) (mode : Mode)
    → starts_triple n (c ∷ cs) ≡ true
    → nat_eq n 10 || nat_eq n 13 ≡ false
    → IsMode mode
    → IsRound (c ∷ cs) (three b c cs mode)
unfolding starts_triple three
three-IsRound b n c [] mode h q m = cc
three-IsRound b n c (x ∷ []) mode h q m = cc
three-IsRound false n c (x ∷ y ∷ cs) mode h q m =
    (c, x ∷ y ∷ [], refl, (inl refl, (inl refl, (inl refl, tt))), m)
three-IsRound true n c (x ∷ y ∷ cs) mode h q m = (
  c,
  x ∷ y ∷ [],
  refl,
  (
    inr (refl, ground (arith, h, q)),
    (inr (refl, ground (arith, h, q)), (inr (refl, ground (arith, h, q)), tt)),
  ),
  m,
)

-- The comment is blanked up to its line end.
abbrev BlankedUpTo : List Char → List Char → List Char → Type 0
BlankedUpTo cs out rest = (taken : List Char) × (cs ≡ taken ++ rest) × Blanked taken out

comment-Blanked : (cs : List Char) → BlankedUpTo cs (comment_out cs) (comment_rest cs)
unfolding comment_out comment_rest
comment-Blanked [] = ([], refl, tt)
comment-Blanked (c ∷ cs) = go (is_newline c) refl (comment-Blanked cs)
  where
    go :
        (x : Bool)
        → is_newline c ≡ x
        → BlankedUpTo cs (comment_out cs) (comment_rest cs)
        → BlankedUpTo
            (c ∷ cs)
            (if x then [] else space ∷ comment_out cs)
            (if x then c ∷ cs else comment_rest cs)
    go true e h = ([], refl, tt)
    go false e (taken, same, blank) = (c ∷ taken, ap (◌∷◌ c) same, (inr (refl, e), blank))

comment-IsRound :
    (c : Char) (cs : List Char) → is_newline c ≡ false → IsRound (c ∷ cs) (comment (c ∷ cs))
unfolding comment_out comment_rest
comment-IsRound c cs e =
    let (taken, same, blank) = comment-Blanked cs in
    rw e (c, taken, ap (◌∷◌ c) same, (inr (refl, e), blank), tt)

starts_triple-is :
    (n : ℕ) (c : Char) (cs : List Char) → starts_triple n (c ∷ cs) ≡ true → is n c ≡ true
unfolding starts_triple
starts_triple-is n c [] h = cc
starts_triple-is n c (x ∷ []) h = cc
starts_triple-is n c (x ∷ y ∷ cs) h = ground arith

triple-IsRound :
    (b : Bool) (c : Char) (cs : List Char)
    → starts_triple 34 (c ∷ cs) || starts_triple 39 (c ∷ cs) ≡ true
    → IsRound (c ∷ cs) (three b c cs (quoted (code c) true false))
triple-IsRound b c cs h = elim (Bool-cases (starts_triple 34 (c ∷ cs))) [
  | inl t ↦
      three-IsRound b 34 c cs (quoted (code c) true false) t refl
        (ground (arith, starts_triple-is 34 c cs t))
  | inr t ↦
      let t' : starts_triple 39 (c ∷ cs) ≡ true = ground (arith, t, h) in
      three-IsRound b 39 c cs (quoted (code c) true false) t' refl
        (ground (arith, starts_triple-is 39 c cs t'))
]

consume_unquoted-IsRound :
    (b in_iri : Bool) (c : Char) (cs : List Char)
    → IsRound (c ∷ cs) (consume_unquoted b in_iri c cs)
unfolding consume_unquoted
consume_unquoted-IsRound b true c cs =
    one-IsRound c c cs (unquoted (not (closes_iri c))) (inl refl) tt
consume_unquoted-IsRound b false c cs = elim (Bool-cases (opens_iri c)) [
  | inl o ↦ rw o (one-IsRound c c cs (unquoted true) (inl refl) tt)
  | inr o ↦ rw o (elim (Bool-cases (starts_triple 34 (c ∷ cs) || starts_triple 39 (c ∷ cs))) [
    | inl t ↦ rw t (triple-IsRound b c cs t)
    | inr t ↦ rw t (elim (Bool-cases (is_quote c)) [
      | inl q ↦ rw q (
          one-IsRound c (if b then space else c) cs (quoted (code c) false false)
            (blank_if-KeptOrBlank b c (ground (arith, q))) (ground (arith, q)))
      | inr q ↦ rw q (elim (Bool-cases (is_hash c)) [
        | inl h ↦ rw h (comment-IsRound c cs (ground (arith, h)))
        | inr h ↦ rw h (one-IsRound c c cs (unquoted false) (inl refl) tt)
      ])
    ])
  ])
]

consume_quoted-IsRound :
    (b : Bool) (quote : ℕ) (triple escaped : Bool) (c : Char) (cs : List Char)
    → nat_eq quote 10 || nat_eq quote 13 ≡ false
    → IsRound (c ∷ cs) (consume_quoted b quote triple escaped c cs)
unfolding consume_quoted
consume_quoted-IsRound b quote triple true c cs ok =
    one-IsRound c (masked b c) cs (quoted quote triple false) (masked-KeptOrBlank b c) ok
consume_quoted-IsRound b quote triple false c cs ok =
    let here = masked-KeptOrBlank b c in
    elim (Bool-cases (is_backslash c)) [
      | inl s ↦ rw s (one-IsRound c (masked b c) cs (quoted quote triple true) here ok)
      | inr s ↦ rw s (elim (Bool-cases (triple && starts_triple quote (c ∷ cs))) [
        | inl t ↦ rw t (three-IsRound b quote c cs (unquoted false) (ground (arith, t)) ok tt)
        | inr t ↦ rw t (elim (Bool-cases (not triple && is quote c)) [
          | inl e ↦ rw e (one-IsRound c (masked b c) cs (unquoted false) here tt)
          | inr e ↦ rw e (one-IsRound c (masked b c) cs (quoted quote triple false) here ok)
        ])
      ])
    ]

consume-IsRound :
    (b : Bool) (mode : Mode) (c : Char) (cs : List Char)
    → IsMode mode
    → IsRound (c ∷ cs) (consume b mode c cs)
consume-IsRound b (unquoted in_iri) c cs m = consume_unquoted-IsRound b in_iri c cs
consume-IsRound b (quoted quote triple escaped) c cs m =
    consume_quoted-IsRound b quote triple escaped c cs m

mask_loop-Blanked :
    (f : ℕ) (b : Bool) (mode : Mode) (cs : List Char)
    → IsMode mode
    → length cs ≤ f
    → Blanked cs (mask_loop f b mode cs)
unfolding mask_loop
mask_loop-Blanked zero b mode [] m h = tt
mask_loop-Blanked zero b mode (c ∷ cs) m h = absurd (omega arith)
mask_loop-Blanked (suc f) b mode [] m h = tt
mask_loop-Blanked (suc f) b mode (c ∷ cs) m h =
    let (d, taken, same, blank, m') = consume-IsRound b mode c cs m in
    let r = consume b mode c cs in
    let shorter : length r.rest ≤ f =
      let e : length (c ∷ cs) ≡ length ((d ∷ taken) ++ r.rest) = ap (λ xs. length xs) same in
      omega (arith, h, e, length-append taken r.rest) in
    subst (λ xs. Blanked xs (r.out ++ mask_loop f b r.mode r.rest)) (sym same)
      (Blanked-append (d ∷ taken) r.out r.rest (mask_loop f b r.mode r.rest) blank
        (mask_loop-Blanked f b r.mode r.rest m' shorter))

-- Masking writes as many characters as the query has, each the character that stands there or a
-- space; line ends stay. So positions and line numbers in the masked query are those of the query.
pub mask_comments_and_literals-Blanked :
    (mask_literals : Bool) (query : List Char)
    → Blanked query (mask_comments_and_literals mask_literals query)
unfolding mask_comments_and_literals
mask_comments_and_literals-Blanked mask_literals query =
    mask_loop-Blanked (length query) mask_literals (unquoted false) query tt (omega arith)

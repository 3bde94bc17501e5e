-- ===== src/Base/Text.antt =====
-- What the code does to strings: `strip`, slices by characters and concatenation.
use Prim.Native.Char.{Char, code}
use Prim.Native.String.{◌++◌ as text_append}
use wotbot.Base.{
  ℕ, String, ◌≡◌, refl, ap, Bool, ◌&&◌, ◌||◌, List, [], ◌∷◌, reverse, leb, nat_eq, length, take,
  if◌then◌else◌,
}

abbrev pub chars : String → List Char
chars String.[] = []
chars (String.◌∷◌ c s) = c ∷ chars s

abbrev pub of_chars : List Char → String
of_chars [] = String.[]
of_chars (c ∷ cs) = String.◌∷◌ c (of_chars cs)

pub of_chars-chars : (s : String) → of_chars (chars s) ≡ s
of_chars-chars String.[] = refl
of_chars-chars (String.◌∷◌ c s) = ap (String.◌∷◌ c) (of_chars-chars s)

pub chars-of_chars : (cs : List Char) → chars (of_chars cs) ≡ cs
chars-of_chars [] = refl
chars-of_chars (c ∷ cs) = ap (◌∷◌ c) (chars-of_chars cs)

-- `c.isspace()`
unfoldable pub is_space : ℕ → Bool
is_space n =
    (leb 9 n && leb n 13)
    || (leb 28 n && leb n 32)
    || nat_eq n 133
    || nat_eq n 160
    || nat_eq n 5760
    || (leb 8192 n && leb n 8202)
    || nat_eq n 8232
    || nat_eq n 8233
    || nat_eq n 8239
    || nat_eq n 8287
    || nat_eq n 12288

unfoldable pub drop_spaces : List Char → List Char
unfolding is_space
drop_spaces [] = []
drop_spaces (c ∷ cs) = if is_space (code c) then drop_spaces cs else c ∷ cs

-- `s.strip()`
unfoldable pub strip : String → String
unfolding drop_spaces
strip s = of_chars (reverse (drop_spaces (reverse (drop_spaces (chars s)))))

-- `s[:n]`
abbrev pub first_chars : ℕ → String → String
first_chars n s = of_chars (take n (chars s))

-- `len(s)`
abbrev pub count_chars : String → ℕ
count_chars s = length (chars s)

-- `s + t`
infixr 65 ◌<>◌
abbrev pub ◌<>◌ : String → String → String
s <> t = text_append s t

strip-padded : strip "  New chat " ≡ "New chat"
unfolding strip
strip-padded = refl

-- ===== src/Rdf/SparqlText.antt =====
-- rdf/sparql_text.py: the small lexer that blanks comments and literals of a SPARQL query, and the
-- search for a SERVICE clause. A character class is a set of code points.
pub mod Blanking
pub mod Pieces
use Prim.Native.Char.{Char, code}
use wotbot.Base.{
  ℕ, zero, suc, String, Bool, true, false, not, ◌&&◌, ◌||◌, List, [], ◌∷◌, ◌++◌, nat_eq, length,
  if◌then◌else◌,
}
use wotbot.Base.Text.{chars, of_chars}

abbrev pub space : Char
space = " "

-- The characters `<`, `>`, `#` and `\`, and the two quotes.
abbrev pub is : ℕ → Char → Bool
is n c = nat_eq (code c) n

abbrev pub opens_iri : Char → Bool
opens_iri = is 60

abbrev pub closes_iri : Char → Bool
closes_iri = is 62

abbrev pub is_hash : Char → Bool
is_hash = is 35

abbrev pub is_backslash : Char → Bool
is_backslash = is 92

abbrev pub is_quote : Char → Bool
is_quote c = is 34 c || is 39 c

-- `char in {"\n", "\r"}`
abbrev pub is_newline : Char → Bool
is_newline c = is 10 c || is 13 c

-- `query.startswith(triple, i)`, for three times the character `n`.
unfoldable pub starts_triple : ℕ → List Char → Bool
starts_triple n (a ∷ b ∷ c ∷ cs) = is n a && is n b && is n c
starts_triple n _ = false

-- The variables of the loop: `in_iri` outside of a literal; in a literal its quote, whether it is
-- a triple one, and `escaped`.
pub data Mode : Type 0 where
  unquoted : (in_iri : Bool) → Mode
  quoted : (quote : ℕ) (triple escaped : Bool) → Mode

-- What one round writes, the characters that it leaves, and the variables after it.
pub record Round : Type 0 where
  pub out : List Char
  pub rest : List Char
  pub mode : Mode

abbrev pub one : Char → List Char → Mode → Round
one c cs mode = record { out = c ∷ []; rest = cs; mode = mode }

-- `_mask_chars(chars, i, 3)` under `mask_literals`; called on three characters or more.
unfoldable pub three : Bool → Char → List Char → Mode → Round
three mask_literals a (b ∷ c ∷ cs) mode = record {
  out = if mask_literals then space ∷ space ∷ space ∷ [] else a ∷ b ∷ c ∷ [];
  rest = cs;
  mode = mode;
}
three mask_literals a cs mode = one a cs mode

-- `_consume_comment`: what it writes and what it leaves.
unfoldable pub comment_out : List Char → List Char
comment_out [] = []
comment_out (c ∷ cs) = if is_newline c then [] else space ∷ comment_out cs

unfoldable pub comment_rest : List Char → List Char
comment_rest [] = []
comment_rest (c ∷ cs) = if is_newline c then c ∷ cs else comment_rest cs

abbrev pub comment : List Char → Round
comment cs = record { out = comment_out cs; rest = comment_rest cs; mode = unquoted false }

-- `_consume_unquoted`
unfoldable pub consume_unquoted : Bool → Bool → Char → List Char → Round
unfolding starts_triple three comment_out comment_rest
consume_unquoted mask_literals in_iri c cs =
    if in_iri
    then one c cs (unquoted (not (closes_iri c)))
    else if opens_iri c
    then one c cs (unquoted true)
    else if starts_triple 34 (c ∷ cs) || starts_triple 39 (c ∷ cs)
    then three mask_literals c cs (quoted (code c) true false)
    else if is_quote c
    then one (if mask_literals then space else c) cs (quoted (code c) false false)
    else if is_hash c
    then comment (c ∷ cs)
    else one c cs (unquoted false)

abbrev pub masked : Bool → Char → Char
masked mask_literals c = if mask_literals && not (is_newline c) then space else c

-- `_consume_quoted_literal`
unfoldable pub consume_quoted : Bool → ℕ → Bool → Bool → Char → List Char → Round
unfolding starts_triple three
consume_quoted mask_literals quote triple escaped c cs =
    let here = masked mask_literals c in
    if escaped
    then one here cs (quoted quote triple false)
    else if is_backslash c
    then one here cs (quoted quote triple true)
    else if triple && starts_triple quote (c ∷ cs)
    then three mask_literals c cs (unquoted false)
    else if not triple && is quote c
    then one here cs (unquoted false)
    else one here cs (quoted quote triple false)

abbrev pub consume : Bool → Mode → Char → List Char → Round
consume mask_literals (unquoted in_iri) c cs = consume_unquoted mask_literals in_iri c cs
consume mask_literals (quoted quote triple escaped) c cs =
    consume_quoted mask_literals quote triple escaped c cs

-- The loop, on fuel.
unfoldable pub mask_loop : ℕ → Bool → Mode → List Char → List Char
unfolding consume_unquoted consume_quoted
mask_loop zero mask_literals mode cs = []
mask_loop (suc f) mask_literals mode [] = []
mask_loop (suc f) mask_literals mode (c ∷ cs) =
    let r = consume mask_literals mode c cs in r.out ++ mask_loop f mask_literals r.mode r.rest

-- `_mask_comments_and_literals`
unfoldable pub mask_comments_and_literals : Bool → List Char → List Char
unfolding mask_loop
mask_comments_and_literals mask_literals query =
    mask_loop (length query) mask_literals (unquoted false) query

unfoldable pub strip_sparql_comments : String → String
unfolding mask_comments_and_literals
strip_sparql_comments query = of_chars (mask_comments_and_literals false (chars query))

-- The pattern `SERVICE` without regard to case: Python lets `ſ` stand for an S and the dotted and
-- dotless letters for an I.
unfoldable pub is_service : List Char → Bool
is_service (s ∷ e ∷ r ∷ v ∷ i ∷ c ∷ e' ∷ cs) =
    (is 83 s || is 115 s || is 383 s)
    && (is 69 e || is 101 e)
    && (is 82 r || is 114 r)
    && (is 86 v || is 118 v)
    && (is 73 i || is 105 i || is 304 i || is 305 i)
    && (is 67 c || is 99 c)
    && (is 69 e' || is 101 e')
is_service _ = false

-- Whether a word goes on after the seven characters of the keyword.
unfoldable pub goes_on : (Char → Bool) → List Char → Bool
goes_on is_word (a ∷ b ∷ c ∷ d ∷ e ∷ f ∷ g ∷ h ∷ cs) = is_word h
goes_on is_word _ = false

-- `_SERVICE_KEYWORD_RE.search`; `is_word` is the class `\w`, and the flag tells whether the
-- character before is in it.
unfoldable pub search_service : (Char → Bool) → Bool → List Char → Bool
unfolding is_service goes_on
search_service is_word after_word [] = false
search_service is_word after_word (c ∷ cs) =
    (not after_word && is_service (c ∷ cs) && not (goes_on is_word (c ∷ cs)))
    || search_service is_word (is_word c) cs

unfoldable pub contains_service_clause : (Char → Bool) → String → Bool
unfolding mask_comments_and_literals search_service
contains_service_clause is_word query =
    search_service is_word false (mask_comments_and_literals true (chars query))

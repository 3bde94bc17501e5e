-- ===== src/Rdf/Tests.antt =====
-- Queries on which the lexer runs, and the theorems at them.
use Prim.Native.Char.{Char, code}
use wotbot.Base.{◌≡◌, refl, Bool, true, false, ◌&&◌, ◌||◌, List, [], ◌∷◌, ◌++◌, leb, nat_eq}
use wotbot.Base.Text.{chars}
use wotbot.Rdf.SparqlText.{
  mask_comments_and_literals, strip_sparql_comments, contains_service_clause,
}
use wotbot.Rdf.SparqlText.Blanking.{Blanked, mask_comments_and_literals-Blanked}
use wotbot.Rdf.SparqlText.Pieces.{letter, escape, Piece, plain, iri, remark, literal}

abbrev is_word : Char → Bool
is_word c =
    let n = code c in
    (leb 48 n && leb n 57) || (leb 65 n && leb n 90) || (leb 97 n && leb n 122) || nat_eq n 95

stripped : strip_sparql_comments "ASK {} # why" ≡ "ASK {}      "
unfolding strip_sparql_comments
stripped = refl

service_found : contains_service_clause is_word "SELECT * { service <http://h/> {} }" ≡ true
unfolding contains_service_clause
service_found = refl

service_in_literal : contains_service_clause is_word "SELECT ('SERVICE' AS ?x) {}" ≡ false
unfolding contains_service_clause
service_in_literal = refl

-- A comparison opens an IRI for the lexer, which ends at the `>` of a literal. The quotes after it
-- change sides, and the clause is read as part of a literal.
service_missed :
    contains_service_clause is_word
      "SELECT * { FILTER(1 < 2 && 'a>' != 'b') SERVICE <http://h/> {} }"
    ≡ false
unfolding contains_service_clause
service_missed = refl

abbrev prefix : List Char
prefix = chars "ASK "

abbrev pattern_text : List Char
pattern_text = chars "{ ?s ?p 'x' } # end"

mask_comments_and_literals-Blanked_example :
    Blanked (prefix ++ pattern_text) (mask_comments_and_literals true (prefix ++ pattern_text))
mask_comments_and_literals-Blanked_example =
    mask_comments_and_literals-Blanked true (prefix ++ pattern_text)

-- `a <b> 'c\\n' # d`, with its line end.
abbrev pieces : List Piece
pieces =
    plain "a"
    ∷ plain " "
    ∷ iri "<" ("b" ∷ []) ">"
    ∷ literal "'" (letter "c") (escape "\\" "n" ∷ [])
    ∷ remark "#" (" " ∷ "d" ∷ []) "\n"
    ∷ []

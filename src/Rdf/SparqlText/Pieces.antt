-- ===== src/Rdf/SparqlText/Pieces.antt =====
-- Queries written as pieces of code, IRIs, literals in single quotes or double quotes, and comments
-- with their line ends, and what the lexer makes of them.
use Prim.Native.Char.{Char, code}
use wotbot.Base.{ℕ, ◌≤◌, ◌≡◌, Bool, true, false, ◌||◌, List, [], ◌∷◌, ◌++◌, map, length, All}
use wotbot.Rdf.SparqlText.{
  space, is, opens_iri, closes_iri, is_hash, is_backslash, is_quote, is_newline, Mode, masked,
  mask_loop,
}

-- A part of a literal: a character, or a backslash with the character that it escapes.
pub data Part : Type 0 where
  letter : Char → Part
  escape : (backslash c : Char) → Part

pub data Piece : Type 0 where
  plain : Char → Piece
  iri : (before : Char) (text : List Char) (after : Char) → Piece
  remark : (hash : Char) (text : List Char) (line_end : Char) → Piece
  literal : (quote : Char) (first : Part) (parts : List Part) → Piece

abbrev pub part_text : Part → List Char
part_text (letter c) = c ∷ []
part_text (escape s c) = s ∷ c ∷ []

abbrev pub parts_text : List Part → List Char
parts_text [] = []
parts_text (p ∷ ps) = part_text p ++ parts_text ps

abbrev pub piece_text : Piece → List Char
piece_text (plain c) = c ∷ []
piece_text (iri o text c) = o ∷ (text ++ c ∷ [])
piece_text (remark h text n) = h ∷ (text ++ n ∷ [])
piece_text (literal q p ps) = q ∷ (parts_text (p ∷ ps) ++ q ∷ [])

-- The query.
abbrev pub written : List Piece → List Char
written [] = []
written (p ∷ ps) = piece_text p ++ written ps

-- The piece as it is masked: a remark is blank up to its line end, and a literal is blank but for
-- its line ends, if literals are masked.
abbrev pub piece_shown : Bool → Piece → List Char
piece_shown b (remark h text n) = space ∷ (map (λ c. space) text ++ n ∷ [])
piece_shown b (literal q p ps) = map (masked b) (piece_text (literal q p ps))
piece_shown b p = piece_text p

abbrev pub shown : Bool → List Piece → List Char
shown b [] = []
shown b (p ∷ ps) = piece_shown b p ++ shown b ps

-- Which characters the pieces are made of.
abbrev pub IsPart : Char → Part → Type 0
IsPart q (letter c) = (is_backslash c ≡ false) × (is (code q) c ≡ false)
IsPart q (escape s c) = is_backslash s ≡ true

abbrev pub IsPiece : Piece → Type 0
IsPiece (plain c) = (opens_iri c || is_quote c || is_hash c) ≡ false
IsPiece (iri o text c) =
    (opens_iri o ≡ true) × All (λ x. closes_iri x ≡ false) text × (closes_iri c ≡ true)
IsPiece (remark h text n) =
    (is_hash h ≡ true) × All (λ x. is_newline x ≡ false) text × (is_newline n ≡ true)
IsPiece (literal q p ps) = (is_quote q ≡ true) × IsPart q p × All (IsPart q) ps

module _ (b : Bool) where
  -- From `mode` on, the text `cs` is masked as `out`, with fuel enough.
  abbrev Masks : Mode → List Char → List Char → Type 0
  Masks mode cs out = (f : ℕ) → length cs ≤ f → mask_loop f b mode cs ≡ out

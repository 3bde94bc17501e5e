-- ===== src/Runs/Partial.antt =====
-- `_message_text` and `_PartialAssistantText` of core/agent_runs.py: the text of the assistant
-- message that is streaming.
use wotbot.Base.{
  String, ◌≡◌, ◌≢◌, inl, inr, refl, sym, ap, ◌∙◌, Bool, true, false, not, ◌&&◌, ◌||◌, Option, none,
  some, List, [], ◌∷◌, ◌++◌, map, keep_if, All, Bool-cases, truthy, opt_eq, append_assoc,
  append-nil, if◌then◌else◌, ◌==◌, ==_self, eq_iff,
}
use wotbot.Base.Text.{◌<>◌, strip}
use wotbot.Json.{Json, str, arr, obj, to_list, to_dict, get}

-- `"".join(parts)`
abbrev pub join : List String → String
join [] = ""
join (s ∷ ss) = s <> join ss

abbrev pub is_text_type : Json → Bool
is_text_type (str s) = s == "text" || s == "output_text"
is_text_type _ = false

-- What a block of the content adds to `parts`.
abbrev pub block_text : Json → List String
unfolding get
block_text (str s) = s ∷ []
block_text (obj fs) =
    if is_text_type (get "type" (to_dict fs))
    then elim (get "text" (to_dict fs)) [ str s ↦ s ∷ [] | _ ↦ [] ]
    else []
block_text _ = []

abbrev pub all_texts : List Json → List String
all_texts [] = []
all_texts (b ∷ bs) = block_text b ++ all_texts bs

unfoldable pub message_text : Json → String
unfolding get
message_text (str s) = s
message_text (arr xs) = join (all_texts (to_list xs))
message_text _ = ""

-- An `AIMessageChunk`; `is_last` tells whether its `chunk_position` is "last".
pub record Chunk : Type 0 where
  pub id : Option String
  pub content : Json
  pub is_last : Bool

-- The first item of a payload.
pub data Item : Type 0 where
  ai_chunk : Chunk → Item
  other_item : Item

pub record Partial : Type 0 where
  pub message_id : Option String
  pub parts : List String

abbrev pub empty : Partial
empty = record { message_id = none; parts = [] }

abbrev pub non_empty : String → Bool
non_empty s = not (s == "")

abbrev pub is_current : Option String → Option String → Bool
is_current none id = false
is_current (some s) id = opt_eq id s

-- A message id that is not the current one starts afresh.
abbrev pub switched : Partial → Option String → Partial
switched p id =
    if truthy id && not (is_current p.message_id id)
    then record { message_id = id; parts = [] }
    else p

abbrev pub with_part : Partial → String → Partial
with_part p text = if non_empty text then record p { parts = p.parts ++ text ∷ [] } else p

unfoldable pub observe_chunk : Partial → Chunk → Partial
unfolding message_text
observe_chunk p c =
    if c.is_last then empty else with_part (switched p c.id) (message_text c.content)

-- `observe`, of a payload that is a list.
unfoldable pub observe : Partial → String → List Item → Partial
unfolding observe_chunk
observe p mode [] = p
observe p mode (ai_chunk c ∷ items) = if mode == "messages" then observe_chunk p c else p
observe p mode (other_item ∷ items) = p

unfoldable pub text : Partial → String
unfolding strip
text p = strip (join p.parts)

unfoldable pub observe_all : Partial → List Chunk → Partial
unfolding observe_chunk
observe_all p [] = p
observe_all p (c ∷ cs) = observe_all (observe_chunk p c) cs

-- The chunks belong to the message `m` and go on.
abbrev pub Continue : String → List Chunk → Type 0
Continue m = All λ (c : Chunk). (c.id ≡ some m) × (c.is_last ≡ false)

abbrev pub texts : List Chunk → List String
texts cs = keep_if non_empty (map (λ (c : Chunk). message_text c.content) cs)

abbrev at_message : String → List String → Partial
at_message m parts = record { message_id = some m; parts = parts }

with_part-texts :
    (m : String) (parts : List String) (t : String)
    → with_part (at_message m parts) t
      ≡ at_message m (parts ++ (if non_empty t then t ∷ [] else []))
with_part-texts m parts t = elim (Bool-cases (non_empty t)) [
  | inl e ↦ rw e refl
  | inr e ↦ rw e (ap (at_message m) (sym (append-nil parts)))
]

switched-same :
    (m : String) (parts : List String) → switched (at_message m parts) (some m) ≡ at_message m parts
switched-same m parts =
    rw (==_self m) (elim (Bool-cases (m == "")) [ inl e ↦ rw e refl | inr e ↦ rw e refl ])

observe_chunk-current :
    (m : String) (parts : List String) (c : Chunk)
    → c.id ≡ some m
    → c.is_last ≡ false
    → observe_chunk (at_message m parts) c ≡ at_message m (parts ++ texts (c ∷ []))
unfolding observe_chunk
observe_chunk-current m parts c i l = rw l (
    ap (λ z. with_part (switched (at_message m parts) z) (message_text c.content)) i
    ∙ ap (λ z. with_part z (message_text c.content)) (switched-same m parts)
    ∙ with_part-texts m parts (message_text c.content))

texts-cons : (c : Chunk) (cs : List Chunk) → texts (c ∷ []) ++ texts cs ≡ texts (c ∷ cs)
texts-cons c cs = elim (Bool-cases (non_empty (message_text c.content))) [
  | inl e ↦ rw e refl
  | inr e ↦ rw e refl
]

observe_all-current :
    (m : String) (parts : List String) (cs : List Chunk)
    → Continue m cs
    → observe_all (at_message m parts) cs ≡ at_message m (parts ++ texts cs)
unfolding observe_all
observe_all-current m parts [] h = ap (at_message m) (sym (append-nil parts))
observe_all-current m parts (c ∷ cs) h =
    ap (λ p. observe_all p cs) (observe_chunk-current m parts c ((h.0).0) ((h.0).1))
    ∙ observe_all-current m (parts ++ texts (c ∷ [])) cs h.1
    ∙ ap (at_message m)
        (append_assoc parts (texts (c ∷ [])) (texts cs) ∙ ap (λ z. parts ++ z) (texts-cons c cs))

is_current-other : (o : Option String) (m : String) → o ≢ some m → is_current o (some m) ≡ false
is_current-other none m h = refl
is_current-other (some s) m h = elim (Bool-cases (m == s)) [
  | inl e ↦ absurd (h (ap some (sym ((eq_iff m s).0 e))))
  | inr e ↦ e
]

switched-other :
    (p : Partial) (m : String)
    → truthy (some m) ≡ true
    → p.message_id ≢ some m
    → switched p (some m) ≡ at_message m []
switched-other p m named other = rw named (rw (is_current-other p.message_id m other) refl)

observe_chunk-last : (p : Partial) (d : Chunk) → d.is_last ≡ true → observe_chunk p d ≡ empty
unfolding observe_chunk
observe_chunk-last p d l = rw l refl

-- Whatever was observed before, the chunks of a message that is not the current one leave their
-- own texts, joined and stripped, and nothing of an earlier message; the chunk that ends a message
-- leaves no text. The message's id is not empty and it has a chunk.
pub text-observe_all :
    (p : Partial) (m : String) (c : Chunk) (cs : List Chunk)
    → truthy (some m) ≡ true
    → p.message_id ≢ some m
    → Continue m (c ∷ cs)
    → (text (observe_all p (c ∷ cs)) ≡ strip (join (texts (c ∷ cs))))
      × ((d : Chunk) → d.is_last ≡ true → text (observe_all (observe_all p (c ∷ cs)) (d ∷ [])) ≡ "")
unfolding text observe_all
text-observe_all p m c cs named other h = (
  ap (λ z. strip (join z.parts))
        (ap (λ z. observe_all z cs) first ∙ observe_all-current m (texts (c ∷ [])) cs h.1)
      ∙ ap (λ z. strip (join z)) (texts-cons c cs),
  λ d l. ap text (observe_chunk-last (observe_all p (c ∷ cs)) d l),
)
  where
    first : observe_chunk p c ≡ at_message m (texts (c ∷ []))
    first = rw ((h.0).1) (
        ap (λ z. with_part (switched p z) (message_text c.content)) ((h.0).0)
        ∙ ap (λ z. with_part z (message_text c.content)) (switched-other p m named other)
        ∙ with_part-texts m [] (message_text c.content))

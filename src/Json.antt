-- ===== src/Json.antt =====
-- JSON values as the code holds them after `json.loads` (and `core/json.py`, whose `json_safe` is
-- the identity on such values). Numbers are naturals: no modelled function computes with one.
use wotbot.Base.{
  ℕ, String, ◌≡◌, refl, Bool, true, false, ◌&&◌, Option, none, some, List, [], ◌∷◌, length, nat_eq,
  ◌==◌,
}
use wotbot.Base.Dict.{Dict, lookup}

mutual
  pub data Json : Type 0 where
    null : Json
    bool : Bool → Json
    num : ℕ → Json
    str : String → Json
    arr : Items → Json
    obj : Fields → Json

  pub data Items : Type 0 where
    nil : Items
    cons : Json → Items → Items

  pub data Fields : Type 0 where
    end : Fields
    field : String → Json → Fields → Fields

abbrev pub to_list : Items → List Json
to_list nil = []
to_list (cons x xs) = x ∷ to_list xs

abbrev pub of_list : List Json → Items
of_list [] = nil
of_list (x ∷ xs) = cons x (of_list xs)

abbrev pub to_dict : Fields → Dict Json
to_dict end = []
to_dict (field k v fs) = (k, v) ∷ to_dict fs

abbrev pub of_dict : Dict Json → Fields
of_dict [] = end
of_dict ((k, v) ∷ d) = field k v (of_dict d)

pub to_dict-of_dict : (d : Dict Json) → to_dict (of_dict d) ≡ d
to_dict-of_dict [] = refl
to_dict-of_dict ((k, v) ∷ d) = rw (to_dict-of_dict d)

pub to_list-of_list : (xs : List Json) → to_list (of_list xs) ≡ xs
to_list-of_list [] = refl
to_list-of_list (x ∷ xs) = rw (to_list-of_list xs)

-- `value if isinstance(value, dict) else {}`
abbrev pub as_dict : Json → Dict Json
as_dict (obj fs) = to_dict fs
as_dict _ = []

-- `value if isinstance(value, list) else []`
abbrev pub as_list : Json → List Json
as_list (arr xs) = to_list xs
as_list _ = []

-- `value if isinstance(value, str) else None`
abbrev pub as_str : Json → Option String
as_str (str s) = some s
as_str _ = none

abbrev pub is_dict : Json → Bool
is_dict (obj _) = true
is_dict _ = false

abbrev pub is_list : Json → Bool
is_list (arr _) = true
is_list _ = false

-- What `d.get(k)` returns: `None` for a missing key.
abbrev pub or_null : Option Json → Json
or_null none = null
or_null (some v) = v

unfoldable pub get : String → Dict Json → Json
unfolding lookup
get k d = or_null (lookup k d)

abbrev pub dict : Dict Json → Json
dict d = obj (of_dict d)

abbrev pub list : List Json → Json
list xs = arr (of_list xs)

-- `str | None` as a JSON value
abbrev pub opt_str : Option String → Json
opt_str none = null
opt_str (some s) = str s

abbrev pub bool_beq : Bool → Bool → Bool
bool_beq true b = b
bool_beq false true = false
bool_beq false false = true

-- Python's `==` on JSON values: lists item by item, objects by size and by key in any order.
-- `True == 1` and `False == 0`.
unfoldable mutual
  unfolding lookup

  pub json_eq : Json → Json → Bool
  json_eq null null = true
  json_eq (bool a) (bool b) = bool_beq a b
  json_eq (bool true) (num n) = nat_eq n 1
  json_eq (bool false) (num n) = nat_eq n 0
  json_eq (num n) (bool true) = nat_eq n 1
  json_eq (num n) (bool false) = nat_eq n 0
  json_eq (num m) (num n) = nat_eq m n
  json_eq (str s) (str t) = s == t
  json_eq (arr xs) (arr ys) = items_eq xs ys
  json_eq (obj fs) (obj gs) =
      nat_eq (length (to_dict fs)) (length (to_dict gs)) && fields_within fs gs
  json_eq _ _ = false

  pub items_eq : Items → Items → Bool
  items_eq nil nil = true
  items_eq (cons x xs) (cons y ys) = json_eq x y && items_eq xs ys
  items_eq _ _ = false

  pub fields_within : Fields → Fields → Bool
  fields_within end gs = true
  fields_within (field k v fs) gs =
      elim (lookup k (to_dict gs)) [ none ↦ false | some w ↦ json_eq v w ] && fields_within fs gs

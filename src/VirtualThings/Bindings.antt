-- ===== src/VirtualThings/Bindings.antt =====
-- The bindings that a definition writes are those that an interaction finds.
use wotbot.Base.{
  ℕ, ◌+◌, ◌≤◌, ◌<◌, String, ◌≡◌, inl, inr, refl, sym, ap, ◌∙◌, true, not, ◌&&◌, Option, none, some,
  List, [], ◌∷◌, ◌++◌, length, arith, Bool-cases, Option-cases, if◌then◌else◌, ◌==◌, eq_iff,
  ==_self,
}
use wotbot.Base.Dict.{
  Dict, lookup, insert, keep_entries, lookup-insert_self, lookup-insert_ne,
  lookup-keep_entries-none,
}
use wotbot.VirtualThings.Tables.{
  VirtualThing, BindingSpec, VirtualThingBinding, Db, Result, ok, err, is_affordance, find_binding,
  both_ok, ok_inj,
}
use wotbot.VirtualThings.Store.{
  DefineRequest, RuntimeBinding, new_binding, add_bindings, is_of, is_distinct, replace_bindings,
  defined_thing, write_definition, define_thing, get_runtime_binding,
}

-- The request's own binding of an affordance.
abbrev pub requested : String → String → List BindingSpec → Option BindingSpec
requested affordance_type affordance_name [] = none
requested affordance_type affordance_name (b ∷ bs) =
    if b.affordance_type == affordance_type && b.affordance_name == affordance_name
    then some b
    else requested affordance_type affordance_name bs

-- The binding that a read gives, if there is one.
abbrev pub given : Result RuntimeBinding → Option BindingSpec
given (ok b) = some b.spec
given (err e) = none

abbrev spec_of : Option (String × VirtualThingBinding) → Option BindingSpec
spec_of none = none
spec_of (some (k, b)) = some b.spec

abbrev first_of {ℓ} : {A : Type ℓ} → Option A → Option A → Option A
first_of none o = o
first_of (some a) o = some a

first_of-none {ℓ} : {A : Type ℓ} (o : Option A) → first_of o none ≡ o
first_of-none none = refl
first_of-none (some a) = refl

insert-eq_append {ℓ} :
    {V : Type ℓ} (k : String) (v : V) (d : Dict V)
    → lookup k d ≡ none
    → insert k v d ≡ d ++ (k, v) ∷ []
unfolding insert lookup
insert-eq_append k v [] h = refl
insert-eq_append k v ((j, w) ∷ d) h = elim (Bool-cases (j == k)) [
  | inl e ↦ absurd (cc (rw e at h))
  | inr e ↦ rw e (ap (λ t. (j, w) ∷ t) (insert-eq_append k v d (rw e at h)))
]

module _ (thing_id affordance_type affordance_name : String) where
  abbrev found : Dict VirtualThingBinding → Option BindingSpec
  found bindings = spec_of (find_binding thing_id affordance_type affordance_name bindings)

  found-append :
      (d : Dict VirtualThingBinding) (k : String) (b : VirtualThingBinding)
      → found (d ++ (k, b) ∷ [])
        ≡ first_of
            (found d)
            (if is_affordance thing_id affordance_type affordance_name b then some b.spec else none)
  unfolding find_binding
  found-append [] k b =
      elim (Bool-cases (is_affordance thing_id affordance_type affordance_name b)) [
        | inl e ↦ rw e refl
        | inr e ↦ rw e refl
      ]
  found-append ((j, c) ∷ d) k b =
      elim (Bool-cases (is_affordance thing_id affordance_type affordance_name c)) [
        | inl e ↦ rw e refl
        | inr e ↦ rw e (found-append d k b)
      ]

  -- No binding of the Thing is left once they are removed.
  found_removed :
      (d : Dict VirtualThingBinding)
      → found (keep_entries (λ k b. not (is_of thing_id k b)) d) ≡ none
  unfolding find_binding keep_entries
  found_removed [] = refl
  found_removed ((k, b) ∷ d) = elim (Bool-cases (b.thing_id == thing_id)) [
    | inl e ↦ rw e (found_removed d)
    | inr e ↦ rw e (rw e (found_removed d))
  ]

  first_requested :
      (o : Option BindingSpec) (b : BindingSpec) (bs : List BindingSpec) (now : ℕ)
      → first_of
          (first_of o (
            if is_affordance thing_id affordance_type affordance_name (new_binding thing_id b now)
            then some b
            else none))
          (requested affordance_type affordance_name bs)
        ≡ first_of o (requested affordance_type affordance_name (b ∷ bs))
  first_requested (some a) b bs now = refl
  first_requested none b bs now =
      rw (==_self thing_id)
        (elim (Bool-cases
          (b.affordance_type == affordance_type && b.affordance_name == affordance_name)) [
            | inl e ↦ rw e refl
            | inr e ↦ rw e refl
          ])

  found-add_bindings :
      (fresh : ℕ → String) (n now : ℕ) (bs : List BindingSpec) (d : Dict VirtualThingBinding)
      → ((i j : ℕ) → i < n + length bs → j < n + length bs → fresh i ≡ fresh j → i ≡ j)
      → ((i : ℕ) → n ≤ i → i < n + length bs → lookup (fresh i) d ≡ none)
      → found (add_bindings fresh thing_id n bs now d)
        ≡ first_of (found d) (requested affordance_type affordance_name bs)
  unfolding add_bindings
  found-add_bindings fresh n now [] d once new = sym (first_of-none (found d))
  found-add_bindings fresh n now (b ∷ bs) d once new =
      let row = new_binding thing_id b now in
      found-add_bindings fresh (n + 1) now bs (insert (fresh n) row d)
        (λ i j a c same. once i j (omega (arith, a)) (omega (arith, c)) same)
        (λ i le less.
          lookup-insert_ne (fresh n) (fresh i) row d (λ same.
            let eq = once n i (omega arith) (omega (arith, less)) same in
            absurd (omega (arith, eq, le)))
          ∙ new i (omega (arith, le)) (omega (arith, less)))
      ∙ ap (λ t. first_of (found t) (requested affordance_type affordance_name bs))
          (insert-eq_append (fresh n) row d (new n (omega arith) (omega arith)))
      ∙ ap (λ o. first_of o (requested affordance_type affordance_name bs))
          (found-append d (fresh n) row)
      ∙ first_requested (found d) b bs now

  given-get_runtime_binding :
      (db : Db) (thing : VirtualThing)
      → lookup thing_id db.things ≡ some thing
      → thing.status ≡ "active"
      → given (get_runtime_binding db thing_id affordance_type affordance_name) ≡ found db.bindings
  unfolding get_runtime_binding
  given-get_runtime_binding db thing there active =
      let is_active : (thing.status == "active") ≡ true = (eq_iff thing.status "active").1 active in
      rw there (
        rw is_active
          (elim (Option-cases (find_binding thing_id affordance_type affordance_name db.bindings)) [
            | inl e ↦ rw e refl
            | inr (row, e) ↦ rw e refl
          ]))

-- The first `n` ids that are drawn: no two are the same, and no row has one.
abbrev pub AreFresh : ℕ → (ℕ → String) → Dict VirtualThingBinding → Type 0
AreFresh n fresh bindings =
    ((i j : ℕ) → i < n → j < n → fresh i ≡ fresh j → i ≡ j)
    × ((i : ℕ) → i < n → lookup (fresh i) bindings ≡ none)

replaced :
    (fresh : ℕ → String) (thing_id affordance_type affordance_name : String)
    (specs : List BindingSpec) (now : ℕ) (bindings bindings' : Dict VirtualThingBinding)
    → AreFresh (length specs) fresh bindings
    → replace_bindings fresh thing_id specs now bindings ≡ ok bindings'
    → found thing_id affordance_type affordance_name bindings'
      ≡ requested affordance_type affordance_name specs
unfolding replace_bindings
replaced fresh thing_id affordance_type affordance_name specs now bindings bindings' (once, new) h =
    elim (Bool-cases (is_distinct specs)) [
      | inr e ↦ absurd (cc (rw e at h))
      | inl e ↦
          let rest = keep_entries (λ k b. not (is_of thing_id k b)) bindings in
          ap (found thing_id affordance_type affordance_name) (sym (ok_inj _ bindings' (rw e at h)))
          ∙ found-add_bindings thing_id affordance_type affordance_name fresh 0 now specs rest
              (λ i j a c same. once i j (omega (arith, a)) (omega (arith, c)) same)
              (λ i _ less.
                lookup-keep_entries-none (λ k b. not (is_of thing_id k b)) (fresh i) bindings
                  (new i (omega (arith, less))))
          ∙ ap (λ o. first_of o (requested affordance_type affordance_name specs))
              (found_removed thing_id affordance_type affordance_name bindings)
    ]

defined-status :
    (r : DefineRequest) (now : ℕ) (read thing : Option VirtualThing) (new : VirtualThing)
    → defined_thing r now read thing ≡ ok new
    → new.status ≡ r.status
defined-status r now none none new h = ap (λ (t : VirtualThing). t.status) (sym (ok_inj _ new h))
defined-status r now (some a) (some b) new h =
    ap (λ (t : VirtualThing). t.status) (sym (ok_inj _ new h))
defined-status r now none (some b) new h = cc h
defined-status r now (some a) none new h = cc h

-- What is defined is what is dispatched: after `define_thing` on an active Thing, a read of the
-- binding of any affordance gives the one that the request has for it, and fails if the request has
-- none, whatever bindings the Thing had before. The ids drawn for the rows are new.
pub get_runtime_binding-define_thing :
    (iso show fresh : ℕ → String) (db : Db) (r : DefineRequest) (now : ℕ) (a : VirtualThing × Db)
    (affordance_type affordance_name : String)
    → AreFresh (length r.bindings) fresh db.bindings
    → r.status ≡ "active"
    → define_thing iso show fresh db r now ≡ ok a
    → given (get_runtime_binding a.1 r.id affordance_type affordance_name)
      ≡ requested affordance_type affordance_name r.bindings
unfolding define_thing write_definition
get_runtime_binding-define_thing iso show fresh db r now a affordance_type affordance_name new
      active h =
    let read = lookup r.id db.things in
    let (thing, defined, h₁) = both_ok (defined_thing r now read read) _ h in
    let (bindings, put, h₂) =
      both_ok (replace_bindings fresh r.id r.bindings now db.bindings) _ h₁ in
    let written = ok_inj _ a h₂ in
    let there : lookup r.id a.1.things ≡ some thing =
      ap (λ (x : VirtualThing × Db). lookup r.id x.1.things) (sym written)
      ∙ lookup-insert_self r.id thing db.things in
    given-get_runtime_binding r.id affordance_type affordance_name a.1 thing there
      (defined-status r now read read thing defined ∙ active)
    ∙ ap (λ (x : VirtualThing × Db). found r.id affordance_type affordance_name x.1.bindings)
        (sym written)
    ∙ replaced fresh r.id affordance_type affordance_name r.bindings now db.bindings bindings new
        put

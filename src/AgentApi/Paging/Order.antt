-- ===== src/AgentApi/Paging/Order.antt =====
-- The descending order of the listed tasks, and the rows behind a place of it.
use wotbot.Base.{
  ℕ, String, ◌≡◌, ◌≢◌, inl, inr, refl, ap, ◌∙◌, true, false, List, [], ◌∷◌, ◌++◌, keep_if, All,
  All-map, arith, Bool-cases, if◌then◌else◌,
}
use wotbot.AgentApi.Tables.{TaskRow}
use wotbot.AgentApi.Paging.{is_behind, place, ordered}

module _ (rank : String → ℕ) where
  -- `s` stands behind `r`.
  abbrev pub Behind : TaskRow → TaskRow → Type 0
  Behind r s = is_behind rank r.updated_at r.id s ≡ true

  -- The order, strictly descending.
  abbrev pub IsOrdered : List TaskRow → Type 0
  IsOrdered [] = Unit
  IsOrdered (r ∷ rows) = All (Behind r) rows × IsOrdered rows

  -- The order of the database tells the ids of the rows apart.
  abbrev pub IsRanked : List TaskRow → Type 0
  IsRanked [] = Unit
  IsRanked (r ∷ rows) = All (λ (s : TaskRow). rank r.id ≢ rank s.id) rows × IsRanked rows

  pub Behind-trans :
      (u : ℕ) (i : String) (r s : TaskRow)
      → is_behind rank u i r ≡ true
      → Behind r s
      → is_behind rank u i s ≡ true
  Behind-trans u i r s h k = ground arith

  Behind-asymm : (r s : TaskRow) → Behind r s → is_behind rank s.updated_at s.id r ≡ false
  Behind-asymm r s h = ground arith

  Behind-irrefl : (r : TaskRow) → is_behind rank r.updated_at r.id r ≡ false
  Behind-irrefl r = ground arith

  Behind-total :
      (r s : TaskRow)
      → rank r.id ≢ rank s.id
      → is_behind rank r.updated_at r.id s ≡ false
      → Behind s r
  Behind-total r s d h = ground arith

  place-All :
      (P : TaskRow → Type 0) (r : TaskRow) (rows : List TaskRow)
      → P r
      → All P rows
      → All P (place rank r rows)
  unfolding place
  place-All P r [] h k = (h, tt)
  place-All P r (s ∷ rows) h k = elim (Bool-cases (is_behind rank r.updated_at r.id s)) [
    | inl q ↦ rw q (h, k)
    | inr q ↦ rw q (k.0, place-All P r rows h k.1)
  ]

  place-IsOrdered :
      (r : TaskRow) (rows : List TaskRow)
      → All (λ (s : TaskRow). rank r.id ≢ rank s.id) rows
      → IsOrdered rows
      → IsOrdered (place rank r rows)
  unfolding place
  place-IsOrdered r [] d h = (tt, tt)
  place-IsOrdered r (s ∷ rows) d h = elim (Bool-cases (is_behind rank r.updated_at r.id s)) [
    | inl q ↦
        rw q (
          (q, All-map (Behind s) (Behind r) rows (λ t. Behind-trans r.updated_at r.id s t q) h.0),
          h,
        )
    | inr q ↦
        rw q
          (place-All (Behind s) r rows (Behind-total r s d.0 q) h.0, place-IsOrdered r rows d.1 h.1)
  ]

  ordered-All :
      (P : TaskRow → Type 0) (rows : List TaskRow) → All P rows → All P (ordered rank rows)
  unfolding ordered
  ordered-All P [] h = tt
  ordered-All P (r ∷ rows) h = place-All P r (ordered rank rows) h.0 (ordered-All P rows h.1)

  pub ordered-IsOrdered : (rows : List TaskRow) → IsRanked rows → IsOrdered (ordered rank rows)
  unfolding ordered
  ordered-IsOrdered [] d = tt
  ordered-IsOrdered (r ∷ rows) d =
      place-IsOrdered r (ordered rank rows) (ordered-All _ rows d.0) (ordered-IsOrdered rows d.1)

  module _ (u : ℕ) (i : String) where
    keep_if-place :
        (r : TaskRow) (rows : List TaskRow)
        → keep_if (is_behind rank u i) (place rank r rows) ≡ (
            if is_behind rank u i r
            then place rank r (keep_if (is_behind rank u i) rows)
            else keep_if (is_behind rank u i) rows)
    unfolding place
    keep_if-place r [] = refl
    keep_if-place r (s ∷ rows) = elim (Bool-cases (is_behind rank r.updated_at r.id s)) [
      | inl q ↦ elim (Bool-cases (is_behind rank u i r)) [
        | inl p ↦ let t = Behind-trans u i r s p q in rw (q, p, t) (rw q refl)
        | inr p ↦ rw (q, p) refl
      ]
      | inr q ↦ elim (Bool-cases (is_behind rank u i s)) [
        | inl p ↦ ground (arith, q, p, keep_if-place r rows)
        | inr p ↦ ground (arith, q, p, keep_if-place r rows)
      ]
    ]

    -- The rows behind a place are ordered as all rows are.
    pub keep_if-ordered :
        (rows : List TaskRow)
        → keep_if (is_behind rank u i) (ordered rank rows)
          ≡ ordered rank (keep_if (is_behind rank u i) rows)
    unfolding ordered
    keep_if-ordered [] = refl
    keep_if-ordered (r ∷ rows) = elim (Bool-cases (is_behind rank u i r)) [
      | inl p ↦
          keep_if-place r (ordered rank rows) ∙ rw p (ap (place rank r) (keep_if-ordered rows))
      | inr p ↦ keep_if-place r (ordered rank rows) ∙ rw p (keep_if-ordered rows)
    ]

  keep_if-All :
      (r : TaskRow) (rows : List TaskRow)
      → All (Behind r) rows
      → keep_if (is_behind rank r.updated_at r.id) rows ≡ rows
  keep_if-All r [] h = refl
  keep_if-All r (s ∷ rows) h = rw (h.0) (ap (◌∷◌ s) (keep_if-All r rows h.1))

  All-middle :
      (P : TaskRow → Type 0) (before : List TaskRow) (r : TaskRow) (rows : List TaskRow)
      → All P (before ++ r ∷ rows)
      → P r
  All-middle P [] r rows h = h.0
  All-middle P (s ∷ before) r rows h = All-middle P before r rows h.1

  -- The rows behind a row of the order are those that follow it.
  pub keep_if-behind :
      (before : List TaskRow) (r : TaskRow) (rows : List TaskRow)
      → IsOrdered (before ++ r ∷ rows)
      → keep_if (is_behind rank r.updated_at r.id) (before ++ r ∷ rows) ≡ rows
  keep_if-behind [] r rows h = rw (Behind-irrefl r) (keep_if-All r rows h.0)
  keep_if-behind (s ∷ before) r rows h =
      let b = All-middle (Behind s) before r rows h.0 in
      rw (Behind-asymm s r b) (keep_if-behind before r rows h.1)

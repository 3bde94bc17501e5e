-- ===== src/AgentApi/Paging/Pages.antt =====
-- The pages that a caller gets by following the tokens are the whole list.
use wotbot.Base.{
  ℕ, zero, suc, ◌≤◌, ◌<◌, String, ◌≡◌, inl, inr, refl, sym, ap, ◌∙◌, subst, true, false, Option,
  none, some, List, [], ◌∷◌, ◌++◌, map, map-append, append_assoc, length, length-append, take,
  keep_if, arith, Bool-cases, ltb, ==_self,
}
use wotbot.Base.Dict.{values}
use wotbot.Json.{Json}
use wotbot.AgentApi.Types.{Task, ok, ◌>>=◌}
use wotbot.AgentApi.Tables.{TaskRow, Db}
use wotbot.AgentApi.Paging.{
  Cursor, PageToken, first, at, TaskQuery, is_listed, size_of, is_behind, ordered, behind_cursor,
  last, next_token, follow, filter_hash, cursor_of, list_tasks, all_pages,
}
use wotbot.AgentApi.Paging.Order.{
  IsOrdered, IsRanked, ordered-IsOrdered, keep_if-ordered, keep_if-behind,
}

abbrev drop {ℓ} : {A : Type ℓ} → ℕ → List A → List A
drop zero xs = xs
drop (suc n) [] = []
drop (suc n) (x ∷ xs) = drop n xs

-- A page that is not the last one: its last row, the rows before it and those behind it.
split_page :
    (n : ℕ) (rows : List TaskRow)
    → suc n < length rows
    → (front : List TaskRow) × (r : TaskRow) × (rest : List TaskRow) × (take (suc n) rows
        ≡ front ++ r ∷ [])
      × (rows ≡ front ++ r ∷ rest)
      × (last (take (suc n) rows) ≡ some r)
split_page n [] h = absurd (omega arith)
split_page zero (r ∷ rows) h = ([], r, rows, refl, refl, refl)
split_page (suc n) (r ∷ []) h = absurd (omega arith)
split_page (suc n) (r ∷ s ∷ rows) h =
    let (front, t, rest, page, all, end) = split_page n (s ∷ rows) (omega arith) in
    (r ∷ front, t, rest, ap (◌∷◌ r) page, ap (◌∷◌ r) all, end)

take_all : (n : ℕ) (rows : List TaskRow) → length rows ≤ n → take n rows ≡ rows
take_all zero [] h = refl
take_all zero (r ∷ rows) h = absurd (omega arith)
take_all (suc n) [] h = refl
take_all (suc n) (r ∷ rows) h = ap (◌∷◌ r) (take_all n rows (omega arith))

take-take-suc : (n : ℕ) (rows : List TaskRow) → take n (take (suc n) rows) ≡ take n rows
take-take-suc zero rows = refl
take-take-suc (suc n) [] = refl
take-take-suc (suc n) (r ∷ rows) = ap (◌∷◌ r) (take-take-suc n rows)

has_more : (n : ℕ) (rows : List TaskRow) → ltb n (length (take (suc n) rows)) ≡ ltb n (length rows)
has_more zero [] = refl
has_more zero (r ∷ rows) = ground arith
has_more (suc n) [] = refl
has_more (suc n) (r ∷ rows) = ground (arith, has_more n rows)

size_of-suc : (n : ℕ) → (m : ℕ) × (size_of n ≡ suc m)
size_of-suc zero = (49, refl)
size_of-suc (suc n) = (n, refl)

abbrev payloads : List TaskRow → List Task
payloads = map (λ (r : TaskRow). r.payload)

module _ (rank : String → ℕ) (digest : Json → String) (db : Db) (owner : String) (q : TaskQuery)
    (now : ℕ) where
  abbrev query : List TaskRow
  query = keep_if (is_listed owner q now) (values db.tasks)

  abbrev filters : String
  filters = filter_hash digest owner q

  abbrev with_token : PageToken → TaskQuery
  with_token t = record q { page_token = t }

  page_lem :
      (t : PageToken) (c : Option Cursor) (rest : List TaskRow)
      → q.page_size ≤ 100
      → cursor_of filters t ≡ ok c
      → ordered rank (behind_cursor rank c query) ≡ rest
      → list_tasks rank digest db owner (with_token t) now
        ≡ ok (
          payloads (take (size_of q.page_size) rest),
          length query,
          next_token filters (size_of q.page_size) (take (suc (size_of q.page_size)) rest),
        )
  unfolding list_tasks
  page_lem t c rest small read e =
      let fits : ltb 100 q.page_size ≡ false = ground arith in
      rw fits (rw read (rw e (rw (take-take-suc (size_of q.page_size) rest) refl)))

  page_lem-next :
      (t : PageToken) (c : Option Cursor) (rest : List TaskRow) (fuel : ℕ)
      → q.page_size ≤ 100
      → cursor_of filters t ≡ ok c
      → ordered rank (behind_cursor rank c query) ≡ rest
      → all_pages rank digest (suc fuel) db owner (with_token t) now
        ≡ follow
            (λ c'. all_pages rank digest fuel db owner (with_token (at c')) now)
            (
              payloads (take (size_of q.page_size) rest),
              length query,
              next_token filters (size_of q.page_size) (take (suc (size_of q.page_size)) rest),
            )
  unfolding all_pages
  page_lem-next t c rest fuel small read e =
      ap (λ r. r >>= follow (λ c'. all_pages rank digest fuel db owner (with_token (at c')) now))
        (page_lem t c rest small read e)

  -- The token behind a page that is not the last one, and the rows behind it.
  next_token-at :
      (size : ℕ) (rest : List TaskRow) (r : TaskRow)
      → ltb size (length rest) ≡ true
      → last (take size rest) ≡ some r
      → next_token filters size (take (suc size) rest)
        ≡ at (record { updated = r.updated_at; identifier = r.id; filters = filters })
  next_token-at size rest r more end =
      rw (has_more size rest) (rw more (rw (take-take-suc size rest) (rw end refl)))

  next_token-first :
      (size : ℕ) (rest : List TaskRow)
      → ltb size (length rest) ≡ false
      → next_token filters size (take (suc size) rest) ≡ first
  next_token-first size rest done = rw (has_more size rest) (rw done refl)

  behind_last :
      (before front rest : List TaskRow) (r : TaskRow)
      → IsOrdered rank (ordered rank query)
      → ordered rank query ≡ before ++ (front ++ r ∷ rest)
      → ordered rank (keep_if (is_behind rank r.updated_at r.id) query) ≡ rest
  behind_last before front rest r o all =
      let all' = all ∙ sym (append_assoc before front (r ∷ rest)) in
      sym (keep_if-ordered rank r.updated_at r.id query)
      ∙ ap (keep_if (is_behind rank r.updated_at r.id)) all'
      ∙ keep_if-behind rank (before ++ front) r rest (subst (IsOrdered rank) all' o)

  pages-from :
      (fuel : ℕ) (t : PageToken) (c : Option Cursor) (before rest : List TaskRow)
      → q.page_size ≤ 100
      → IsOrdered rank (ordered rank query)
      → cursor_of filters t ≡ ok c
      → ordered rank (behind_cursor rank c query) ≡ rest
      → ordered rank query ≡ before ++ rest
      → length rest < fuel
      → all_pages rank digest fuel db owner (with_token t) now ≡ ok (payloads rest)
  pages-from zero t c before rest small o read e all h = absurd (omega arith)
  pages-from (suc fuel) t c before rest small o read e all h =
      let (n, sized) = size_of-suc q.page_size in
      let size = size_of q.page_size in
      let go = λ (c' : Cursor). all_pages rank digest fuel db owner (with_token (at c')) now in
      let page = page_lem-next t c rest fuel small read e in
      elim (Bool-cases (ltb size (length rest))) [
        | inl more ↦
            let longer : suc n < length rest = subst (λ k. k < length rest) sized (ground arith) in
            let (front, r, rest', shown, parts, end) = split_page n rest longer in
            let c' : Cursor = record {
              updated = r.updated_at;
              identifier = r.id;
              filters = filters;
            } in
            let end' = ap (λ k. last (take k rest)) sized ∙ end in
            let shown' = ap (λ k. take k rest) sized ∙ shown in
            let later =
              pages-from fuel (at c') (some c') (before ++ front ++ r ∷ []) rest' small o
                (rw (==_self filters) refl)
                (behind_last before front rest' r o (all ∙ ap (◌++◌ before) parts))
                (all ∙ ap (◌++◌ before) parts ∙ simp (append_assoc))
                (omega (arith, ap length parts, length-append front (r ∷ rest'))) in
            page
            ∙ ap (λ k. follow go (payloads (take size rest), length query, k))
                (next_token-at size rest r more end')
            ∙ ap (λ r. r >>= λ more'. ok (payloads (take size rest) ++ more')) later
            ∙ ap (λ rows. ok (payloads rows ++ payloads rest')) shown'
            ∙ ap ok (sym (map-append (λ (r : TaskRow). r.payload) (front ++ r ∷ []) rest'))
            ∙ ap (λ rows. ok (payloads rows)) (append_assoc front (r ∷ []) rest' ∙ sym parts)
        | inr done ↦
            page
            ∙ ap (λ k. follow go (payloads (take size rest), length query, k))
                (next_token-first size rest done)
            ∙ ap (λ rows. ok (payloads rows)) (take_all size rest (ground arith))
      ]

  -- While the table of tasks does not change, the pages that a caller gets by following the tokens
  -- from the first one are, joined, the whole list of the matching tasks in descending order: none
  -- is left out, and none shown twice. The page size is at most 100, the fuel more than the number
  -- of tasks, and the order of the database tells the ids apart.
  pub all_pages-ordered :
      (fuel : ℕ)
      → q.page_size ≤ 100
      → IsRanked rank query
      → length (ordered rank query) < fuel
      → (all_pages rank digest fuel db owner (with_token first) now
          ≡ ok (payloads (ordered rank query)))
        × IsOrdered rank (ordered rank query)
  all_pages-ordered fuel small ranked h =
      let o = ordered-IsOrdered rank query ranked in
      (pages-from fuel first none [] (ordered rank query) small o refl refl refl h, o)

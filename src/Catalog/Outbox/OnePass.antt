-- ===== src/Catalog/Outbox/OnePass.antt =====
-- The loop of the outbox attempts each of the first pending events once, in order.
use wotbot.Base.{
  ℕ, zero, suc, ◌+◌, String, ◌≡◌, ◌≢◌, inl, inr, refl, sym, ap, ◌∙◌, Bool, true, false, not, ◌&&◌,
  Option, none, some, List, [], ◌∷◌, All, arith, Bool-cases, if◌then◌else◌,
}
use wotbot.Json.{Json}
use wotbot.Catalog.Outbox.{
  OutboxRow, is_pending, in_ids, published, attempted, Attempt, behind, publish_next_pending_event,
  counted, publish_rounds, publish_pending_thing_events,
}

-- Ids of a table are different.
abbrev pub Distinct : List OutboxRow → Type 0
Distinct [] = Unit
Distinct (row ∷ rows) = All (λ (x : OutboxRow). row.id ≢ x.id) rows × Distinct rows

abbrev pub with_row : OutboxRow → ℕ × List OutboxRow → ℕ × List OutboxRow
with_row row (n, rows) = (n, row ∷ rows)

in_ids-cons : (i j : ℕ) (ids : List ℕ) → in_ids i ids ≡ true → in_ids i (j ∷ ids) ≡ true
in_ids-cons i j ids h = ground (arith, h)

module _ (publish : ℕ → Json → Option String) (now : ℕ → ℕ) where
  -- One pass over the table: the first `limit` pending rows are attempted, in turn.
  pub attempt_first : ℕ → ℕ → List OutboxRow → ℕ × List OutboxRow
  attempt_first zero round rows = (0, rows)
  attempt_first (suc limit) round [] = (0, [])
  attempt_first (suc limit) round (row ∷ rows) =
      let attempted_rest = attempt_first limit (round + 1) rows in
      let rest = attempt_first (suc limit) round rows in
      if is_pending row
      then counted publish now (published publish now round row)
          (with_row (attempted publish now round row) attempted_rest)
      else with_row row rest

  -- The row is never claimed: it is published, or processed already.
  abbrev Passed : List ℕ → OutboxRow → Type 0
  Passed processed row = (is_pending row && not (in_ids row.id processed)) ≡ false

  Passed-cons :
      (i : ℕ) (processed : List ℕ) (row : OutboxRow)
      → Passed processed row
      → Passed (i ∷ processed) row
  Passed-cons i processed row h = ground (arith, h)

  -- What follows an attempt.
  abbrev resume :
      ℕ → ℕ → List ℕ → List OutboxRow → Option (Attempt publish now) → ℕ × List OutboxRow
  resume limit round processed rows none = (0, rows)
  resume limit round processed rows (some a) =
      counted publish now a.is_published
        (publish_rounds publish now limit (round + 1) (a.id ∷ processed) a.rows)

  publish_rounds-suc :
      (limit round : ℕ) (processed : List ℕ) (rows : List OutboxRow)
      → publish_rounds publish now (suc limit) round processed rows
        ≡ resume limit round processed rows
            (publish_next_pending_event publish now round processed rows)
  unfolding publish_rounds
  publish_rounds-suc limit round processed rows =
      go (publish_next_pending_event publish now round processed rows)
    where
      go :
          (o : Option (Attempt publish now))
          → (elim o [
            | none ↦ (0, rows)
            | some a ↦
                counted publish now a.is_published
                  (publish_rounds publish now limit (round + 1) (a.id ∷ processed) a.rows)
          ])
            ≡ resume limit round processed rows o
      go none = refl
      go (some a) = refl

  counted-with_row :
      (b : Bool) (row : OutboxRow) (x : ℕ × List OutboxRow)
      → counted publish now b (with_row row x) ≡ with_row row (counted publish now b x)
  counted-with_row b row (n, rows) = refl

  resume-behind :
      (limit round : ℕ) (processed : List ℕ) (row : OutboxRow) (rows : List OutboxRow)
      (o : Option (Attempt publish now))
      → ((i : ℕ) (rs : List OutboxRow)
          → publish_rounds publish now limit (round + 1) (i ∷ processed) (row ∷ rs)
            ≡ with_row row (publish_rounds publish now limit (round + 1) (i ∷ processed) rs))
      → resume limit round processed (row ∷ rows) (behind publish now row o)
        ≡ with_row row (resume limit round processed rows o)
  resume-behind limit round processed row rows none h = refl
  resume-behind limit round processed row rows (some a) h =
      ap (counted publish now a.is_published) (h a.id a.rows)
      ∙ counted-with_row a.is_published row
          (publish_rounds publish now limit (round + 1) (a.id ∷ processed) a.rows)

  publish_next-Passed :
      (round : ℕ) (processed : List ℕ) (row : OutboxRow) (rows : List OutboxRow)
      → Passed processed row
      → publish_next_pending_event publish now round processed (row ∷ rows)
        ≡ behind publish now row (publish_next_pending_event publish now round processed rows)
  unfolding publish_next_pending_event
  publish_next-Passed round processed row rows h = rw h refl

  -- Such a row stays as it is, and does not matter to the others.
  publish_rounds-Passed :
      (limit round : ℕ) (processed : List ℕ) (row : OutboxRow) (rows : List OutboxRow)
      → Passed processed row
      → publish_rounds publish now limit round processed (row ∷ rows)
        ≡ with_row row (publish_rounds publish now limit round processed rows)
  unfolding publish_rounds
  publish_rounds-Passed zero round processed row rows h = refl
  publish_rounds-Passed (suc limit) round processed row rows h =
      publish_rounds-suc limit round processed (row ∷ rows)
      ∙ ap (resume limit round processed (row ∷ rows))
          (publish_next-Passed round processed row rows h)
      ∙ resume-behind limit round processed row rows
          (publish_next_pending_event publish now round processed rows)
          (λ i rs.
            publish_rounds-Passed limit (round + 1) (i ∷ processed) row rs
              (Passed-cons i processed row h))
      ∙ ap (with_row row) (sym (publish_rounds-suc limit round processed rows))

  abbrev Unseen : List ℕ → List OutboxRow → Type 0
  Unseen processed = All λ (row : OutboxRow). in_ids row.id processed ≡ false

  Unseen-cons :
      (i : ℕ) (processed : List ℕ) (rows : List OutboxRow)
      → All (λ (x : OutboxRow). i ≢ x.id) rows
      → Unseen processed rows
      → Unseen (i ∷ processed) rows
  Unseen-cons i processed [] ne h = tt
  Unseen-cons i processed (row ∷ rows) ne h =
      (ground (arith, ne.0, h.0), Unseen-cons i processed rows ne.1 h.1)

  attempted-id : (round : ℕ) (row : OutboxRow) → (attempted publish now round row).id ≡ row.id
  attempted-id round row = go (publish round row.payload)
    where
      go :
          (o : Option String)
          → (elim o as (λ x. OutboxRow) [
            | some e ↦ record row { attempt_count = row.attempt_count + 1; last_error = e }
            | none ↦ record row {
              attempt_count = row.attempt_count + 1;
              last_error = "";
              published_at = some (now round);
            }
          ]).id
            ≡ row.id
      go none = refl
      go (some e) = refl

  attempted-Passed :
      (round : ℕ) (processed : List ℕ) (row : OutboxRow)
      → Passed (row.id ∷ processed) (attempted publish now round row)
  attempted-Passed round processed row = let same = attempted-id round row in ground (arith, same)

  publish_next-pending :
      (round : ℕ) (processed : List ℕ) (row : OutboxRow) (rows : List OutboxRow)
      → is_pending row ≡ true
      → in_ids row.id processed ≡ false
      → publish_next_pending_event publish now round processed (row ∷ rows)
        ≡ some (record {
          id = row.id;
          is_published = published publish now round row;
          rows = attempted publish now round row ∷ rows;
        })
  unfolding publish_next_pending_event
  publish_next-pending round processed row rows p u = rw p (rw u refl)

  attempt_first-pending :
      (limit round : ℕ) (row : OutboxRow) (rows : List OutboxRow)
      → is_pending row ≡ true
      → attempt_first (suc limit) round (row ∷ rows)
        ≡ counted publish now
            (published publish now round row)
            (with_row (attempted publish now round row) (attempt_first limit (round + 1) rows))
  unfolding attempt_first
  attempt_first-pending limit round row rows p = rw p refl

  attempt_first-done :
      (limit round : ℕ) (row : OutboxRow) (rows : List OutboxRow)
      → is_pending row ≡ false
      → attempt_first (suc limit) round (row ∷ rows)
        ≡ with_row row (attempt_first (suc limit) round rows)
  unfolding attempt_first
  attempt_first-done limit round row rows p = rw p refl

  publish_rounds-attempt_first :
      (limit round : ℕ) (processed : List ℕ) (rows : List OutboxRow)
      → Unseen processed rows
      → Distinct rows
      → publish_rounds publish now limit round processed rows ≡ attempt_first limit round rows
  unfolding publish_rounds publish_next_pending_event attempt_first
  publish_rounds-attempt_first zero round processed rows u d = refl
  publish_rounds-attempt_first (suc limit) round processed [] u d = refl
  publish_rounds-attempt_first (suc limit) round processed (row ∷ rows) u d =
      elim (Bool-cases (is_pending row)) [
        | inl p ↦
            let row' = attempted publish now round row in
            publish_rounds-suc limit round processed (row ∷ rows)
            ∙ ap (resume limit round processed (row ∷ rows))
                (publish_next-pending round processed row rows p (u.0))
            ∙ ap (counted publish now (published publish now round row)) (
                publish_rounds-Passed limit (round + 1) (row.id ∷ processed) row' rows
                  (attempted-Passed round processed row)
                ∙ ap (with_row row') (
                    publish_rounds-attempt_first limit (round + 1) (row.id ∷ processed) rows
                      (Unseen-cons row.id processed rows d.0 u.1) d.1))
            ∙ sym (attempt_first-pending limit round row rows p)
        | inr p ↦
            publish_rounds-Passed (suc limit) round processed row rows (ground (arith, p))
            ∙ ap (with_row row)
                (publish_rounds-attempt_first (suc limit) round processed rows u.1 d.1)
            ∙ sym (attempt_first-done limit round row rows p)
      ]

  none_seen : (rows : List OutboxRow) → Unseen [] rows
  none_seen [] = tt
  none_seen (row ∷ rows) = (refl, none_seen rows)

  -- Publishing a batch, a loop of claims that remembers the ids that it has tried, makes one pass
  -- over a table of distinct ids: the first `limit` pending events are attempted once each, in the
  -- order of the table, whether the publisher takes them or fails; the other rows stay as they are.
  pub publish_pending_thing_events-attempt_first :
      (limit : ℕ) (rows : List OutboxRow)
      → Distinct rows
      → publish_pending_thing_events publish now limit rows ≡ attempt_first limit 0 rows
  unfolding publish_pending_thing_events
  publish_pending_thing_events-attempt_first limit rows d =
      publish_rounds-attempt_first limit 0 [] rows (none_seen rows) d

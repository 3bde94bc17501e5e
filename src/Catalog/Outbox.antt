-- ===== src/Catalog/Outbox.antt =====
-- catalog/events/outbox.py: the events of Things wait in a table until a worker has published them.
-- The table is a list of rows by ascending id; one worker runs. `publish` is the publisher, which
-- returns an error or nothing, and `now` the clock, both at each round.
pub mod OnePass
use wotbot.Base.{
  ℕ, zero, suc, ◌+◌, String, Bool, true, false, not, ◌&&◌, Option, none, some, List, [], ◌∷◌, ◌++◌,
  take, keep_if, nat_eq, any, if◌then◌else◌,
}
use wotbot.Json.{Json}

pub record OutboxRow : Type 0 where
  pub id : ℕ
  pub event_type : String
  pub thing_id : String
  pub event_hash : String
  pub payload : Json
  pub published_at : Option ℕ
  pub attempt_count : ℕ
  pub last_error : String

-- `enqueue_thing_event`: the id comes from the table's counter.
abbrev pub enqueue_thing_event :
    ℕ → String → String → String → Json → List OutboxRow → List OutboxRow
enqueue_thing_event id event_type thing_id event_hash event rows =
    rows
    ++ record {
      id = id;
      event_type = event_type;
      thing_id = thing_id;
      event_hash = event_hash;
      payload = event;
      published_at = none;
      attempt_count = 0;
      last_error = "";
    }
      ∷ []

abbrev pub is_pending : OutboxRow → Bool
is_pending row = elim row.published_at [ none ↦ true | some t ↦ false ]

-- `list_pending_thing_events`
abbrev pub list_pending_thing_events : ℕ → List OutboxRow → List OutboxRow
list_pending_thing_events limit rows = take limit (keep_if is_pending rows)

-- `id in processed_ids`
abbrev pub in_ids : ℕ → List ℕ → Bool
in_ids id = any (nat_eq id)

module _ (publish : ℕ → Json → Option String) (now : ℕ → ℕ) where
  abbrev pub published : ℕ → OutboxRow → Bool
  published round row = elim (publish round row.payload) [ none ↦ true | some e ↦ false ]

  -- The row after the attempt of a round.
  abbrev pub attempted : ℕ → OutboxRow → OutboxRow
  attempted round row = elim (publish round row.payload) [
    | some e ↦ record row { attempt_count = row.attempt_count + 1; last_error = e }
    | none ↦ record row {
      attempt_count = row.attempt_count + 1;
      last_error = "";
      published_at = some (now round);
    }
  ]

  -- `found`, the id that goes into `processed_ids`, `published`, and the rows.
  pub record Attempt : Type 0 where
    pub id : ℕ
    pub is_published : Bool
    pub rows : List OutboxRow

  abbrev pub behind : OutboxRow → Option Attempt → Option Attempt
  behind row none = none
  behind row (some a) = some (record a { rows = row ∷ a.rows })

  -- `_publish_next_pending_event`, with the claim: the first row that is pending and not processed.
  unfoldable pub publish_next_pending_event : ℕ → List ℕ → List OutboxRow → Option Attempt
  publish_next_pending_event round processed [] = none
  publish_next_pending_event round processed (row ∷ rows) =
      let later = publish_next_pending_event round processed rows in
      if is_pending row && not (in_ids row.id processed)
      then some (record {
        id = row.id;
        is_published = published round row;
        rows = attempted round row ∷ rows;
      })
      else behind row later

  abbrev pub counted : Bool → ℕ × List OutboxRow → ℕ × List OutboxRow
  counted is_published (n, rows) = (if is_published then n + 1 else n, rows)

  -- The loop of `publish_pending_thing_events`, from a round on.
  unfoldable pub publish_rounds : ℕ → ℕ → List ℕ → List OutboxRow → ℕ × List OutboxRow
  unfolding publish_next_pending_event
  publish_rounds zero round processed rows = (0, rows)
  publish_rounds (suc limit) round processed rows =
      elim (publish_next_pending_event round processed rows) [
        | none ↦ (0, rows)
        | some a ↦
            counted a.is_published (publish_rounds limit (round + 1) (a.id ∷ processed) a.rows)
      ]

  unfoldable pub publish_pending_thing_events : ℕ → List OutboxRow → ℕ × List OutboxRow
  unfolding publish_rounds
  publish_pending_thing_events limit rows = publish_rounds limit 0 [] rows

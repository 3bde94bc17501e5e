-- ===== src/Catalog/Tests.antt =====
-- A batch of which one event is refused, and the theorem at it.
use wotbot.Base.{ℕ, String, ◌≡◌, refl, Option, none, some, List, [], ◌∷◌, arith}
use wotbot.Json.{Json, null, str}
use wotbot.Catalog.Outbox.{
  OutboxRow, enqueue_thing_event, list_pending_thing_events, publish_pending_thing_events,
  publish_rounds, publish_next_pending_event,
}
use wotbot.Catalog.Outbox.OnePass.{attempt_first, publish_pending_thing_events-attempt_first}

abbrev queued : List OutboxRow
queued = enqueue_thing_event 3 "thing.updated" "t1" "h3" null (
    enqueue_thing_event 2 "thing.created" "t2" "h2" (str "bad")
      (enqueue_thing_event 1 "thing.created" "t1" "h1" null []))

abbrev refuses_bad : ℕ → Json → Option String
refuses_bad round payload = elim payload [ str s ↦ some "rejected" | _ ↦ none ]

abbrev clock : ℕ → ℕ
clock round = round

pending_after :
    list_pending_thing_events 20 ((publish_pending_thing_events refuses_bad clock 2 queued).1)
    ≡ record {
      id = 2;
      event_type = "thing.created";
      thing_id = "t2";
      event_hash = "h2";
      payload = str "bad";
      published_at = none;
      attempt_count = 1;
      last_error = "rejected";
    }
      ∷ record {
        id = 3;
        event_type = "thing.updated";
        thing_id = "t1";
        event_hash = "h3";
        payload = null;
        published_at = none;
        attempt_count = 0;
        last_error = "";
      }
      ∷ []
unfolding publish_pending_thing_events publish_rounds publish_next_pending_event
pending_after = refl

publish_pending_thing_events-attempt_first_example :
    publish_pending_thing_events refuses_bad clock 2 queued
    ≡ attempt_first refuses_bad clock 2 0 queued
publish_pending_thing_events-attempt_first_example =
    publish_pending_thing_events-attempt_first refuses_bad clock 2 queued
      ((ground arith, (ground arith, tt)), ((ground arith, tt), (tt, tt)))

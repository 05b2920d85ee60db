-- ===== src/Tests/RelayTests.antt =====
-- The relay on a table in memory, with a broker that lists what it has acknowledged.
use trams_assignment.Base.{
  ℕ, ◌≡◌, refl, ◌⊎◌, none, some, List, [], ◌∷◌, String, ok, of_ok, negative,
}
use trams_assignment.Contracts.{UserCreatedEvent}
use trams_assignment.Database.Memory.{Memory, memory_table}
use trams_assignment.Messaging.Publisher.{Jetstream, publish, PublishRawOptions}
use trams_assignment.Outbox.{
  OutboxEvent, outbox_id, outbox_select, outbox_repository, ClaimedOutboxEvent, claim_batch,
  mark_published, delete_published_before,
}
use trams_assignment.Relay.{
  RelayState, RelaySettings, OutboxRelayCounters, publish_event, run_round, cleanup_round,
}
use trams_assignment.Relay.Publishing.{IsPublished, IsRescheduled, publish_event-Ensures}
use trams_assignment.Relay.Sweeping.{
  IsSwept, IsKept, cleanup_round-sweeps, one_run, one_cleanup_failure,
}
use trams_assignment.Tests.OutboxTests.{held, two, two-IsKeyed, memory}

-- A broker that takes everything.
abbrev pub open_broker : Jetstream (List String) UserCreatedEvent
open_broker = record { publish = λ subject event options log. (ok tt, options.msg_id ∷ log) }

abbrev pub plain : UserCreatedEvent → UserCreatedEvent
plain event = event

abbrev pub settings : RelaySettings
settings = record {
  poll_interval_ms = 1000;
  batch_size = 10;
  lock_timeout_ms = 30000;
  published_retention_ms = 20000;
  cleanup_interval_ms = 3600000;
  cleanup_batch_size = 500;
  cleanup_max_batches = 20;
  metrics_interval_ms = 60000;
}

abbrev pub zeros : OutboxRelayCounters
zeros = record {
  claimed = 0;
  published = 0;
  publish_failures = 0;
  cleanup_runs = 0;
  cleanup_deleted = 0;
  cleanup_failures = 0;
}

abbrev pub start : RelayState (Memory OutboxEvent) (List String)
start = record { db = memory two; broker = []; counters = zeros }

abbrev held_claim : ClaimedOutboxEvent
held_claim = outbox_select held

publish_event-Ensures_example :
    let after =
      (publish_event
        (outbox_repository (memory_table outbox_id))
        (λ m. m.clock)
        open_broker
        plain
        settings
        "a"
        held_claim
        start).1 in
    IsPublished (memory_table outbox_id) open_broker plain settings "a" held_claim start after
    ⊎ IsRescheduled (memory_table outbox_id) open_broker plain settings "a" held_claim start after
unfolding publish_event publish mark_published
publish_event-Ensures_example = of_ok (
    publish_event-Ensures (memory_table outbox_id) open_broker plain settings "a" held_claim start
      two-IsKeyed)

-- One round claims the pending event, publishes it, and goes on at once.
run_round_run :
    let r =
      run_round
        (outbox_repository (memory_table outbox_id))
        (λ m. m.clock)
        open_broker
        plain
        settings
        "b"
        start in
    (r.0 ≡ ok 0)
    × (r.1.broker ≡ "e1" ∷ [])
    × (r.1.counters ≡ record zeros { claimed = 1; published = 1 })
unfolding run_round claim_batch publish mark_published
run_round_run = (refl, refl, refl)

cleanup_round-sweeps_example :
    let after =
      (cleanup_round
        (outbox_repository (memory_table outbox_id))
        (λ m. m.clock)
        open_broker
        plain
        settings
        "a"
        start).1 in
    ((n : ℕ) × IsSwept 30000 500 20 two n after.db.rows × (after.counters ≡ one_run n zeros))
    ⊎ (IsKept 30000 two after.db.rows × (after.counters ≡ one_cleanup_failure zeros))
unfolding cleanup_round delete_published_before
cleanup_round-sweeps_example =
    of_ok (
      cleanup_round-sweeps (memory_table outbox_id) open_broker plain settings "a" start
        two-IsKeyed)

abbrev raw : PublishRawOptions String
raw = record {
  subject = "user.events.dlq";
  message_id = "dlq:USER_EVENTS:7";
  bytes = "{}";
  headers = none;
  timeout_ms = some (negative 0);
}

abbrev text_broker : Jetstream (List String) String
text_broker = record { publish = λ subject bytes options log. (ok tt, options.msg_id ∷ log) }

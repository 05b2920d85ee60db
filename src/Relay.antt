-- ===== src/Relay.antt =====
-- The outbox relay of the user service, apps/user-service/src/outbox/outbox.relay.ts. Its state is
-- the database, the broker and its counters; the log is left out. The three loops that it starts
-- share only the counters, and each is modelled on its own, one round at a time.
pub mod Retry
pub mod Publishing
pub mod Sweeping
pub mod Histories
pub mod Progress
pub mod Running
pub mod Turns
pub mod Stopping
use trams_assignment.Base.{
  ℕ, suc, zero, ◌+◌, ◌-◌, ◌*◌, ◌^◌, Bool, true, false, ◌||◌, not, Option, none, some, List, [], ◌∷◌,
  String, length, ltb, ◌==◌, if◌then◌else◌, min, M, Result, ok, err, ret, throw, ◌>>=◌, ◌>>◌,
  try_catch, or_default, append_text, Number, whole, negative, not_whole,
}
use trams_assignment.Contracts.{UserCreatedEvent}
use trams_assignment.Database.{Fault, error}
use trams_assignment.Messaging.Publisher.{Jetstream, publish, is_bad_timeout, to_natural}
use trams_assignment.Outbox.{OutboxStore, ClaimedOutboxEvent, OutboxOperationalSnapshot}

abbrev pub max_retry_delay_ms : ℕ
max_retry_delay_ms = 60000

-- Called with `attempt` at least 1.
unfoldable pub retry_delay : ℕ → ℕ
retry_delay attempt = min (1000 * 2 ^ min (attempt - 1) 10) max_retry_delay_ms

-- `positiveInteger(value, name)`
unfoldable pub positive_integer : {S : Type 0} → Number → String → M S Fault ℕ
positive_integer value name =
    if is_bad_timeout value
    then throw (error (append_text name " must be a positive integer"))
    else ret (to_natural value)

pub record OutboxRelayConfig : Type 0 where
  pub poll_interval_ms : Option Number
  pub batch_size : Option Number
  pub lock_timeout_ms : Option Number
  pub published_retention_ms : Option Number
  pub cleanup_interval_ms : Option Number
  pub cleanup_batch_size : Option Number
  pub cleanup_max_batches : Option Number
  pub metrics_interval_ms : Option Number

-- The fields of a relay that its constructor has accepted.
pub record RelaySettings : Type 0 where
  pub poll_interval_ms : ℕ
  pub batch_size : ℕ
  pub lock_timeout_ms : ℕ
  pub published_retention_ms : ℕ
  pub cleanup_interval_ms : ℕ
  pub cleanup_batch_size : ℕ
  pub cleanup_max_batches : ℕ
  pub metrics_interval_ms : ℕ

unfoldable pub create_relay : {S : Type 0} → OutboxRelayConfig → M S Fault RelaySettings
create_relay config = do
  poll ← positive_integer (or_default config.poll_interval_ms (whole 1000)) "pollIntervalMs"
  batch ← positive_integer (or_default config.batch_size (whole 10)) "batchSize"
  lock ← positive_integer (or_default config.lock_timeout_ms (whole 30000)) "lockTimeoutMs"
  retention ←
      positive_integer (or_default config.published_retention_ms (whole 604800000))
        "publishedRetentionMs"
  interval ←
      positive_integer (or_default config.cleanup_interval_ms (whole 3600000)) "cleanupIntervalMs"
  cleanup_batch ←
      positive_integer (or_default config.cleanup_batch_size (whole 500)) "cleanupBatchSize"
  max_batches ←
      positive_integer (or_default config.cleanup_max_batches (whole 20)) "cleanupMaxBatches"
  metrics ←
      positive_integer (or_default config.metrics_interval_ms (whole 60000)) "metricsIntervalMs"
  ret (record {
    poll_interval_ms = poll;
    batch_size = batch;
    lock_timeout_ms = lock;
    published_retention_ms = retention;
    cleanup_interval_ms = interval;
    cleanup_batch_size = cleanup_batch;
    cleanup_max_batches = max_batches;
    metrics_interval_ms = metrics;
  })

pub record OutboxRelayCounters : Type 0 where
  pub claimed : ℕ
  pub published : ℕ
  pub publish_failures : ℕ
  pub cleanup_runs : ℕ
  pub cleanup_deleted : ℕ
  pub cleanup_failures : ℕ

pub record RelayState (Db Broker : Type 0) : Type 0 where
  pub db : Db
  pub broker : Broker
  pub counters : OutboxRelayCounters

-- The gauges that `reportMetrics` logs.
pub record Gauges : Type 0 where
  pub pending : ℕ
  pub retrying : ℕ
  pub published_retained : ℕ
  pub oldest_pending_age_ms : ℕ

module _ {Db Broker : Type 0} where
  abbrev pub in_db {ℓ} : {A : Type ℓ} → M Db Fault A → M (RelayState Db Broker) Fault A
  in_db m s = ((m s.db).0, record s { db = (m s.db).1 })

  abbrev pub in_broker {ℓ} : {A : Type ℓ} → M Broker Fault A → M (RelayState Db Broker) Fault A
  in_broker m s = ((m s.broker).0, record s { broker = (m s.broker).1 })

  abbrev pub tally :
      (OutboxRelayCounters → OutboxRelayCounters) → M (RelayState Db Broker) Fault (Unit {0})
  tally f s = (ok tt, record s { counters = f s.counters })

module _ {Db Broker Bytes : Type 0} (store : OutboxStore Db) (clock : Db → ℕ)
    (js : Jetstream Broker Bytes) (encode : UserCreatedEvent → Bytes) (settings : RelaySettings)
    (worker_id : String) where
  unfoldable pub send : ClaimedOutboxEvent → M Broker Fault (Unit {0})
  send event = publish js encode (record {
    subject = event.subject;
    event_id = event.id;
    payload = event.payload;
    timeout_ms = none;
  })

  -- The `catch` of `publish`.
  reschedule : ClaimedOutboxEvent → Fault → M (RelayState Db Broker) Fault (Unit {0})
  reschedule event e s =
      (do
        tally (λ c. record c { publish_failures = c.publish_failures + 1 })
        in_db (
            store.mark_failed event.id worker_id (clock s.db + retry_delay (event.attempts + 1))
              e.message))
        s

  -- `publish(event)`
  unfoldable pub publish_event : ClaimedOutboxEvent → M (RelayState Db Broker) Fault (Unit {0})
  unfolding send reschedule
  publish_event event =
      try_catch
        (do
          in_broker (send event)
          in_db (store.mark_published event.id worker_id)
          tally (λ c. record c { published = c.published + 1 }))
        (reschedule event)

  publish_all : List ClaimedOutboxEvent → M (RelayState Db Broker) Fault (Unit {0})
  publish_all [] = ret tt
  publish_all (event ∷ events) = do publish_event event; publish_all events

  -- One round of the loop of `run`: the milliseconds that it waits, none if it goes on at once. Its
  -- `catch` leaves nothing to throw.
  unfoldable pub run_round : M (RelayState Db Broker) ⊥ ℕ
  unfolding publish_event publish_all
  run_round =
      try_catch
        (do
          events ← in_db (store.claim_batch worker_id settings.batch_size settings.lock_timeout_ms)
          tally (λ c. record c { claimed = c.claimed + length events })
          if length events == 0 then ret settings.poll_interval_ms else publish_all events >> ret 0)
        (λ e. ret settings.poll_interval_ms)

  -- The loop of `run`: the list holds the values of `signal.aborted` at its tests.
  unfoldable pub run : List Bool → RelayState Db Broker → RelayState Db Broker
  run [] s = s
  run (aborted ∷ later) s = elim aborted [ true ↦ s | false ↦ run later (run_round s).1 ]

  -- The inner loop of `runCleanup`, with the batches that it may still delete: the rows deleted.
  unfoldable pub cleanup_loop : ℕ → ℕ → ℕ → M Db Fault ℕ
  cleanup_loop cutoff zero deleted = ret deleted
  cleanup_loop cutoff (suc left) deleted = do
    batch_deleted ← store.delete_published_before cutoff settings.cleanup_batch_size
    let total = deleted + batch_deleted
    let next = cleanup_loop cutoff left total
    if ltb batch_deleted settings.cleanup_batch_size then ret total else next

  -- One round of `runCleanup`.
  unfoldable pub cleanup_round : M (RelayState Db Broker) ⊥ (Unit {0})
  unfolding cleanup_loop
  cleanup_round s =
      (try_catch
          (do
            deleted ← in_db (
                cleanup_loop (clock s.db - settings.published_retention_ms)
                  settings.cleanup_max_batches 0)
            tally (λ c. record c {
              cleanup_runs = c.cleanup_runs + 1;
              cleanup_deleted = c.cleanup_deleted + deleted;
            }))
          (λ e w. (
            ok tt,
            record w {
              counters = record (w.counters) { cleanup_failures = w.counters.cleanup_failures + 1 };
            },
          )))
        s

  -- One round of `reportMetrics`: the gauges that it logs, none if the snapshot fails.
  unfoldable pub metrics_round : M (RelayState Db Broker) ⊥ (Option Gauges)
  metrics_round =
      try_catch
        (do
          snapshot ← in_db (store.get_operational_snapshot)
          (λ s. (
            ok (
                some (record {
                  pending = snapshot.pending;
                  retrying = snapshot.retrying;
                  published_retained = snapshot.published_retained;
                  oldest_pending_age_ms = elim snapshot.oldest_pending_at [
                    | none ↦ 0
                    | some at ↦ clock s.db - at
                  ];
                })),
            s,
          )))
        (λ e. ret none)

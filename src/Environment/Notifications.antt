-- ===== src/Environment/Notifications.antt =====
-- apps/notification-service/src/config/env.ts: the environment of the notification service, and what
-- its main.ts builds from it.
pub mod Starting
use trams_assignment.Base.{
  ℕ, zero, suc, ◌<◌, ◌≤◌, ◌≡◌, refl, ap, ◌⊎◌, inl, inr, true, false, not, ◌||◌, ◌&&◌, Option, none,
  some, [], ◌∷◌, String, eq_iff, length, take, length-map, ◌∙◌, ltb, leb, ◌==◌, if◌then◌else◌,
  Bool-cases, Number, whole, is_safe_integer, max_safe_integer, append_text, count_text, M, Result,
  ok, err, Ensures, returns, throws, arith,
}
use text.Mathlib.TextLemmas.{length-nil}
use trams_assignment.Contracts.{UserCreatedEvent}
use trams_assignment.Database.{Fault, error}
use trams_assignment.Delivery.{lease_duration}
use trams_assignment.Delivery.Consuming.{UserCreatedConsumerConfig, start_created}
use trams_assignment.Messaging.Publisher.{is_empty, to_natural}
use trams_assignment.Messaging.Consumer.{
  ResolvedConsumerConfig, resolve_config, check_delays, positive_integer, default_retry_delays_ms,
}
use trams_assignment.Environment.{
  int, positive, at_least, at_most, choice, url, free_text, coerced_number, Schema, text_of,
  number_of, ProcessEnv, Parsed, Zod, loaded, loaded-fits, counted, ranged, bounded, levels,
  NatsEnv, nats_of, IsPort,
}

pub record ConsumerEnv : Type 0 where
  pub durable_name : String
  pub max_deliver : Number
  pub ack_wait_ms : Number
  pub max_ack_pending : Number

pub record NotificationServiceConfig : Type 0 where
  pub log_level : String
  pub health_port : Number
  pub database_url : String
  pub nats : NatsEnv
  pub consumer : ConsumerEnv
  pub delivery_lease_ms : Number

abbrev pub schema : Schema
schema =
    ("LOG_LEVEL", choice levels "info")
    ∷ ("NOTIFICATION_HEALTH_PORT", coerced_number (int ∷ at_least 1 ∷ at_most 65535 ∷ []) 3001)
    ∷ ("NOTIFICATION_DATABASE_URL", url)
    ∷ ("NATS_URL", free_text false 1 none)
    ∷ ("NATS_USER", free_text false 1 none)
    ∷ ("NATS_PASSWORD", free_text false 1 none)
    ∷ ("NATS_TLS_CA_FILE", free_text true 1 none)
    ∷ ("NOTIFICATION_DURABLE_NAME", free_text true 1 (some "notification-user-created"))
    ∷ ("NOTIFICATION_MAX_DELIVER", coerced_number (int ∷ at_least 1 ∷ at_most 5 ∷ []) 5)
    ∷ ("NOTIFICATION_ACK_WAIT_MS", coerced_number (int ∷ positive ∷ []) 30000)
    ∷ ("NOTIFICATION_MAX_ACK_PENDING", coerced_number (int ∷ positive ∷ []) 10)
    ∷ ("NOTIFICATION_DELIVERY_LEASE_MS", coerced_number (int ∷ at_least 1000 ∷ []) 60000)
    ∷ []

abbrev pub configure : Parsed → NotificationServiceConfig
configure env = record {
  log_level = text_of (env "LOG_LEVEL");
  health_port = number_of (env "NOTIFICATION_HEALTH_PORT");
  database_url = text_of (env "NOTIFICATION_DATABASE_URL");
  nats = nats_of env;
  consumer = record {
    durable_name = text_of (env "NOTIFICATION_DURABLE_NAME");
    max_deliver = number_of (env "NOTIFICATION_MAX_DELIVER");
    ack_wait_ms = number_of (env "NOTIFICATION_ACK_WAIT_MS");
    max_ack_pending = number_of (env "NOTIFICATION_MAX_ACK_PENDING");
  };
  delivery_lease_ms = number_of (env "NOTIFICATION_DELIVERY_LEASE_MS");
}

unfoldable pub load_env : Zod → ProcessEnv → Result Fault NotificationServiceConfig
load_env zod env = loaded configure (zod.safe_parse schema env)

-- `config.consumer` as the configuration of the consumer of user events.
abbrev pub consumer_config : ConsumerEnv → UserCreatedConsumerConfig
consumer_config consumer = record {
  durable_name = consumer.durable_name;
  max_deliver = some consumer.max_deliver;
  ack_wait_ms = some consumer.ack_wait_ms;
  max_ack_pending = some consumer.max_ack_pending;
  retry_delays_ms = none;
}

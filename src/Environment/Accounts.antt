-- ===== src/Environment/Accounts.antt =====
-- apps/user-service/src/config/env.ts: the environment of the user service, and what its main.ts
-- builds from it.
pub mod Building
use trams_assignment.Base.{
  ℕ, ◌<◌, ◌≤◌, ◌≡◌, refl, inl, inr, Bool, true, false, not, ◌||◌, none, some, [], ◌∷◌, String, ltb,
  leb, if◌then◌else◌, Number, whole, is_safe_integer, max_safe_integer, Bool-cases, Ensures,
  returns, throws, append_text, ◌&&◌, Result, ok, err, arith,
}
use trams_assignment.Database.{Fault, error}
use trams_assignment.Relay.{OutboxRelayConfig, RelaySettings, create_relay, positive_integer}
use trams_assignment.Users.Records.{UserDatabase, PasswordHasher}
use trams_assignment.Users.Passwords.{create_password_hasher}
use trams_assignment.Environment.{
  int, positive, at_least, at_most, FieldSchema, choice, url, free_text, coerced_number, Schema,
  text_of, number_of, ProcessEnv, Parsed, Zod, loaded, loaded-fits, counted, ranged, levels,
  node_envs, NatsEnv, nats_of,
}

pub record OutboxEnv : Type 0 where
  pub published_retention_ms : Number
  pub cleanup_interval_ms : Number
  pub cleanup_batch_size : Number
  pub cleanup_max_batches : Number
  pub metrics_interval_ms : Number

pub record UserServiceConfig : Type 0 where
  pub node_env : String
  pub log_level : String
  pub database_url : String
  pub password_salt_rounds : Number
  pub rpc_queue_group : String
  pub outbox : OutboxEnv
  pub nats : NatsEnv

abbrev count_of : ℕ → FieldSchema
count_of fallback = coerced_number (int ∷ positive ∷ []) fallback

abbrev pub schema : Schema
schema =
    ("NODE_ENV", choice node_envs "development")
    ∷ ("LOG_LEVEL", choice levels "info")
    ∷ ("DATABASE_URL", url)
    ∷ ("PASSWORD_SALT_ROUNDS", coerced_number (int ∷ at_least 10 ∷ at_most 15 ∷ []) 12)
    ∷ ("USER_SERVICE_QUEUE_GROUP", free_text true 1 (some "user-service"))
    ∷ ("OUTBOX_PUBLISHED_RETENTION_MS", count_of 604800000)
    ∷ ("OUTBOX_CLEANUP_INTERVAL_MS", count_of 3600000)
    ∷ ("OUTBOX_CLEANUP_BATCH_SIZE", count_of 500)
    ∷ ("OUTBOX_CLEANUP_MAX_BATCHES", count_of 20)
    ∷ ("OUTBOX_METRICS_INTERVAL_MS", count_of 60000)
    ∷ ("NATS_URL", free_text false 1 none)
    ∷ ("NATS_USER", free_text false 1 none)
    ∷ ("NATS_PASSWORD", free_text false 1 none)
    ∷ ("NATS_TLS_CA_FILE", free_text true 1 none)
    ∷ []

abbrev pub configure : Parsed → UserServiceConfig
configure env = record {
  node_env = text_of (env "NODE_ENV");
  log_level = text_of (env "LOG_LEVEL");
  database_url = text_of (env "DATABASE_URL");
  password_salt_rounds = number_of (env "PASSWORD_SALT_ROUNDS");
  rpc_queue_group = text_of (env "USER_SERVICE_QUEUE_GROUP");
  outbox = record {
    published_retention_ms = number_of (env "OUTBOX_PUBLISHED_RETENTION_MS");
    cleanup_interval_ms = number_of (env "OUTBOX_CLEANUP_INTERVAL_MS");
    cleanup_batch_size = number_of (env "OUTBOX_CLEANUP_BATCH_SIZE");
    cleanup_max_batches = number_of (env "OUTBOX_CLEANUP_MAX_BATCHES");
    metrics_interval_ms = number_of (env "OUTBOX_METRICS_INTERVAL_MS");
  };
  nats = nats_of env;
}

unfoldable pub load_env : Zod → ProcessEnv → Result Fault UserServiceConfig
load_env zod env = loaded configure (zod.safe_parse schema env)

-- `config.outbox` as the configuration of the relay.
abbrev pub relay_config : OutboxEnv → OutboxRelayConfig
relay_config outbox = record {
  poll_interval_ms = none;
  batch_size = none;
  lock_timeout_ms = none;
  published_retention_ms = some outbox.published_retention_ms;
  cleanup_interval_ms = some outbox.cleanup_interval_ms;
  cleanup_batch_size = some outbox.cleanup_batch_size;
  cleanup_max_batches = some outbox.cleanup_max_batches;
  metrics_interval_ms = some outbox.metrics_interval_ms;
}

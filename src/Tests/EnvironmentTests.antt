-- ===== src/Tests/EnvironmentTests.antt =====
-- The environments of the three services.
use trams_assignment.Base.{
  ℕ, ◌≤◌, ◌≡◌, refl, false, none, some, [], ◌∷◌, String, str_eq, if◌then◌else◌, whole, M, Result,
  ok, err, ret, Ensures, trim, split_text, is_safe_integer, ◌&&◌,
}
use trams_assignment.Contracts.{UserCreatedEvent}
use trams_assignment.Database.{Fault, error}
use trams_assignment.Delivery.{lease_duration}
use trams_assignment.Delivery.Consuming.{start_created}
use trams_assignment.Environment.{ProcessEnv, NatsEnv, IsPort}
use trams_assignment.Environment.Accounts
use trams_assignment.Environment.Accounts.{relay_config}
use trams_assignment.Environment.Accounts.Building.{load_env-builds, AreTaken, all_safe}
use trams_assignment.Environment.Notifications
use trams_assignment.Environment.Notifications.{consumer_config}
use trams_assignment.Environment.Notifications.Starting.{load_env-starts, IsConfigured, IsTaken}
use trams_assignment.Environment.Front
use trams_assignment.Environment.Front.{load_env-serves, IsOrigin, jwt_config, origins}
use trams_assignment.Relay.{create_relay}
use trams_assignment.Users.Passwords.{create_password_hasher}
use trams_assignment.Users.Records.{PasswordHasher}
use trams_assignment.Tests.UserTests.{store, open_hash}
use trams_assignment.Tests.ParsingTests.{zod, parse}

-- The variables that have no default, the number of batches, and the allowed origins.
abbrev env : ProcessEnv
env name =
    if str_eq name "DATABASE_URL"
    then some "postgresql://localhost/users"
    else if str_eq name "NOTIFICATION_DATABASE_URL"
    then some "postgresql://localhost/notifications"
    else if str_eq name "NATS_URL"
    then some "tls://localhost:4222"
    else if str_eq name "NATS_USER"
    then some "service"
    else if str_eq name "NATS_PASSWORD"
    then some "secret"
    else if str_eq name "NATS_TLS_CA_FILE"
    then some " ca.pem "
    else if str_eq name "JWT_SECRET"
    then some "0123456789abcdef0123456789abcdef"
    else if str_eq name "OUTBOX_CLEANUP_MAX_BATCHES"
    then some "20"
    else if str_eq name "CORS_ORIGINS"
    then some "https://a.example, ,https://b.example "
    else none

abbrev nats : NatsEnv
nats = record {
  url = "tls://localhost:4222";
  user = "service";
  password = "secret";
  ca_file = "ca.pem";
}

abbrev accounts : Accounts.UserServiceConfig
accounts = record {
  node_env = "development";
  log_level = "info";
  database_url = "postgresql://localhost/users";
  password_salt_rounds = whole 12;
  rpc_queue_group = "user-service";
  outbox = record {
    published_retention_ms = whole 604800000;
    cleanup_interval_ms = whole 3600000;
    cleanup_batch_size = whole 500;
    cleanup_max_batches = whole 20;
    metrics_interval_ms = whole 60000;
  };
  nats = nats;
}

accounts_loaded : Accounts.load_env zod env ≡ ok accounts
unfolding Accounts.load_env parse trim
accounts_loaded = refl

-- A fraction for a number of batches is refused.
fraction_refused :
    Accounts.load_env zod
      (λ name. if str_eq name "OUTBOX_CLEANUP_MAX_BATCHES" then some "2.5" else env name)
    ≡ err (error "Invalid environment configuration:\n  - : Invalid")
unfolding Accounts.load_env parse trim
fraction_refused = refl

abbrev untouched : ℕ
untouched = 0

abbrev bcrypt : ℕ → PasswordHasher store
bcrypt rounds = open_hash

load_env-builds_example :
    ((rounds : ℕ) × (10 ≤ rounds)
      × (rounds ≤ 15)
      × (create_password_hasher store bcrypt (some (whole 12)) untouched
          ≡ (ok (bcrypt rounds), untouched)))
    × Ensures
        (λ settings s'. (s' ≡ untouched) × AreTaken accounts.outbox settings)
        (λ e s'. (s' ≡ untouched) × (all_safe accounts.outbox ≡ false))
        (create_relay (relay_config accounts.outbox) untouched)
load_env-builds_example = load_env-builds store bcrypt zod env accounts untouched accounts_loaded

abbrev notifications : Notifications.NotificationServiceConfig
notifications = record {
  log_level = "info";
  health_port = whole 3001;
  database_url = "postgresql://localhost/notifications";
  nats = nats;
  consumer = record {
    durable_name = "notification-user-created";
    max_deliver = whole 5;
    ack_wait_ms = whole 30000;
    max_ack_pending = whole 10;
  };
  delivery_lease_ms = whole 60000;
}

notifications_loaded : Notifications.load_env zod env ≡ ok notifications
unfolding Notifications.load_env parse trim
notifications_loaded = refl

abbrev decode_json : String → Result Fault String
decode_json text = ok text

abbrev no_event : String → Result String UserCreatedEvent
no_event value = err "Required"

abbrev ignore : UserCreatedEvent → M ℕ Fault (Unit {0})
ignore event = ret tt

load_env-starts_example :
    IsPort (whole 3001)
    × Ensures
        (λ resolved s'. (s' ≡ untouched) × IsConfigured notifications.consumer resolved)
        (λ e s'.
          (s' ≡ untouched)
          × ((is_safe_integer notifications.consumer.ack_wait_ms
                && is_safe_integer notifications.consumer.max_ack_pending)
              ≡ false))
        (start_created decode_json no_event
          (consumer_config notifications.consumer)
          ignore
          untouched)
    × Ensures
        (λ n s'. (s' ≡ untouched) × IsTaken notifications.delivery_lease_ms n × (1000 ≤ n))
        (λ e s'. (s' ≡ untouched) × (is_safe_integer notifications.delivery_lease_ms ≡ false))
        (lease_duration (some notifications.delivery_lease_ms) untouched)
load_env-starts_example =
    load_env-starts decode_json no_event ignore zod env notifications untouched notifications_loaded

abbrev front : Front.Config
front = record {
  node_env = "development";
  log_level = "info";
  port = whole 3000;
  jwt = record { secret = "0123456789abcdef0123456789abcdef"; expires_in = "15m" };
  cors_origins = "https://a.example" ∷ "https://b.example" ∷ [];
  nats = nats;
}

front_loaded : Front.load_env zod env ≡ ok front
unfolding Front.load_env Front.origins parse trim split_text
front_loaded = refl

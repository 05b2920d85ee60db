-- ===== src/Processes.antt =====
-- The life of the processes: libs/messaging/src/connection.ts, and what the main.ts of
-- apps/user-service/src, apps/notification-service/src and apps/api-gateway/src share. The clients of the
-- database, NATS and HTTP are parameters, and their objects are the resources of the process.
pub mod Closing
pub mod Locals
pub mod Starting
pub mod Signals
pub mod Notifications
pub mod Probing
pub mod Accounts
pub mod Front
pub mod Stopping
pub mod Bootstrap
use trams_assignment.Base.{
  ℕ, suc, ◌≡◌, ◌⊎◌, Bool, true, false, Option, none, some, List, [], ◌∷◌, String, append_text,
  if◌then◌else◌, M, Result, ok, err, ret, throw, Ensures, or_default, ℤ, pos, negsuc, after_try,
  ◌>>◌, ◌>>=◌,
}
use trams_assignment.Database.{Fault, error}

pub data Resource : Type 0 where
  database : Resource
  messaging : Resource
  consumer : Resource
  relay : Resource
  subscriptions : Resource
  server : Resource

-- What a process has done with its resources: a release is noted when it is called, whether it
-- succeeds or fails.
pub data Action : Type 0 where
  opened : Resource → Action
  released : Resource → Action

pub record NatsConnectionConfig : Type 0 where
  pub servers : String
  pub name : String
  pub user : String
  pub password : String
  pub ca_file : String
  pub connect_timeout_ms : Option ℕ
  pub max_reconnect_attempts : Option ℤ
  pub reconnect_delay_ms : Option ℕ

-- The options of `connect` of the client.
pub record NatsOptions : Type 0 where
  pub servers : String
  pub name : String
  pub user : String
  pub pass : String
  pub ca_file : String
  pub reconnect : Bool
  pub max_reconnect_attempts : ℤ
  pub reconnect_time_wait : ℕ
  pub reconnect_jitter : ℕ
  pub timeout : ℕ

abbrev pub default_connect_timeout_ms : ℕ
default_connect_timeout_ms = 5000

abbrev pub default_reconnect_delay_ms : ℕ
default_reconnect_delay_ms = 1000

-- The argument of `connect` in `connectNats`.
abbrev pub nats_options : NatsConnectionConfig → NatsOptions
nats_options config = record {
  servers = config.servers;
  name = config.name;
  user = config.user;
  pass = config.password;
  ca_file = config.ca_file;
  reconnect = true;
  max_reconnect_attempts = or_default config.max_reconnect_attempts (negsuc 0);
  reconnect_time_wait = or_default config.reconnect_delay_ms default_reconnect_delay_ms;
  reconnect_jitter = 250;
  timeout = or_default config.connect_timeout_ms default_connect_timeout_ms;
}

module _ {World : Type 0} (log : World → List Action) where
  -- A call that opens a resource, or fails and opens nothing.
  abbrev pub Opens : Resource → M World Fault (Unit {0}) → Type 0
  Opens r m =
      (w : World) → Ensures (λ _ w'. log w' ≡ opened r ∷ log w) (λ e w'. log w' ≡ log w) (m w)

  abbrev pub Releases : Resource → M World Fault (Unit {0}) → Type 0
  Releases r m =
      (w : World)
      → Ensures (λ _ w'. log w' ≡ released r ∷ log w) (λ e w'. log w' ≡ released r ∷ log w) (m w)

-- The clients that a process uses. `expires` says whether a timer of that many milliseconds fires
-- before the call that it is set for ends.
pub record Host (World : Type 0) : Type 0 where
  pub log : World → List Action
  pub connect_database : M World Fault (Unit {0})
  pub disconnect_database : M World Fault (Unit {0})
  pub select_one : M World Fault (Unit {0})
  pub connect : NatsOptions → M World Fault (Unit {0})
  pub is_closed : World → Bool
  pub drain : M World Fault (Unit {0})
  pub flush : M World Fault (Unit {0})
  pub listen : ℕ → M World Fault (Unit {0})
  pub close_server : M World Fault (Unit {0})
  pub expires : World → ℕ → Bool
  pub connect_database_law : Opens log database connect_database
  pub disconnect_database_law : Releases log database disconnect_database
  pub connect_law : (options : NatsOptions) → Opens log messaging (connect options)
  pub drain_law : Releases log messaging drain
  pub listen_law : (port : ℕ) → Opens log server (listen port)
  pub close_server_law : Releases log server close_server

module _ {World : Type 0} (host : Host World) where
  -- `connectNats`, without the observers of the connection, which only log.
  abbrev pub connect_nats : NatsConnectionConfig → M World Fault (Unit {0})
  connect_nats config = host.connect (nats_options config)

  -- `Promise.race` of a call and a timer
  abbrev pub with_timeout : M World Fault (Unit {0}) → ℕ → String → M World Fault (Unit {0})
  with_timeout operation timeout_ms name w =
      if host.expires w timeout_ms
      then (err (error (append_text name " timed out")), (operation w).1)
      else operation w

  -- `MessagingClient.ping`
  abbrev pub ping : ℕ → M World Fault (Unit {0})
  ping timeout_ms w =
      if host.is_closed w
      then (err (error "NATS connection is closed"), w)
      else with_timeout host.flush timeout_ms "NATS ping" w

  -- `MessagingClient.drain`
  abbrev pub drain_client : M World Fault (Unit {0})
  drain_client w = if host.is_closed w then (ok tt, w) else host.drain w

  -- `Promise.all`: all the calls are made, and the first failure is the outcome.
  abbrev pub first_failure :
      Result Fault (Unit {0}) → Result Fault (Unit {0}) → Result Fault (Unit {0})
  first_failure (ok a) r = r
  first_failure (err e) r = err e

  abbrev pub promise_all : List (M World Fault (Unit {0})) → M World Fault (Unit {0})
  promise_all [] w = (ok tt, w)
  promise_all (m ∷ ms) w =
      (first_failure (m w).0 (promise_all ms (m w).1).0, (promise_all ms (m w).1).1)

  -- `Promise.allSettled`
  abbrev pub settle_all : List (M World Fault (Unit {0})) → World → World
  settle_all [] w = w
  settle_all (m ∷ ms) w = settle_all ms (m w).1

  -- The end of a shutdown: `try { first } finally { try { drain } finally { disconnect } }`
  unfoldable pub close_last : M World Fault (Unit {0}) → M World Fault (Unit {0})
  close_last first w =
      after_try (first w) (λ w₁. after_try (drain_client w₁) host.disconnect_database)

-- `shutdownPromise ??= shutdown()`: the outcome of the first call answers the later ones.
module _ {World : Type 0} (close : M World Fault (Unit {0})) where
  abbrev pub Stopping : Type 0
  Stopping = Option (Result Fault (Unit {0})) × World

  unfoldable pub shutdown : Stopping → Result Fault (Unit {0}) × Stopping
  shutdown (some outcome, w) = (outcome, (some outcome, w))
  shutdown (none, w) = ((close w).0, (some (close w).0, (close w).1))

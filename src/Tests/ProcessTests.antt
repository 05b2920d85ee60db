-- ===== src/Tests/ProcessTests.antt =====
-- The processes on a machine that lists their actions.
use trams_assignment.Base.{
  ◌≡◌, ◌⊎◌, refl, Bool, true, false, none, some, List, [], ◌∷◌, ok, err, M, Ensures, returns,
  throws,
}
use trams_assignment.Database.{Fault, error}
use trams_assignment.Processes.{
  Action, opened, released, database, messaging, consumer, relay, subscriptions, server, Host,
  NatsConnectionConfig,
}
use trams_assignment.Processes.Notifications.{
  ConsumerHost, respond, IsAborted, start_notification_service, start_notification_service-Ensures,
  handle_health_request,
}
use trams_assignment.Processes.Probing.{IsReady, handle_health_request-IsReady}
use trams_assignment.Processes.Accounts.{AccountsHost, start_user_service, drain_user_service}
use trams_assignment.Processes.Starting
use trams_assignment.Processes.Starting.{IsStarted, start_user_service-Ensures}
use trams_assignment.Processes.Signals.Ending.{IsEnded, run_main-IsEnded}
use trams_assignment.Processes.Signals.{
  sigint, sigterm, Happening, arrives, settles, pending, run_main, happen_all,
}

record Machine : Type 0 where
  log : List Action
  port_taken : Bool

abbrev note : Action → M Machine Fault (Unit {0})
note a m = (ok tt, record m { log = a ∷ m.log })

abbrev bind : Bool → M Machine Fault (Unit {0})
bind true m = (err (error "listen EADDRINUSE"), m)
bind false m = note (opened server) m

bind-Opens :
    (taken : Bool) (m : Machine)
    → Ensures
        (λ (_ : Unit {0}) m'. m'.log ≡ opened server ∷ m.log)
        (λ (e : Fault) m'. m'.log ≡ m.log)
        (bind taken m)
bind-Opens true m = throws refl
bind-Opens false m = returns refl

abbrev host : Host Machine
host = record {
  log = λ m. m.log;
  connect_database = note (opened database);
  disconnect_database = note (released database);
  select_one = λ m. (ok tt, m);
  connect = λ options. note (opened messaging);
  is_closed = λ m. false;
  drain = note (released messaging);
  flush = λ m. (ok tt, m);
  listen = λ port m. bind m.port_taken m;
  close_server = note (released server);
  expires = λ m timeout_ms. false;
  connect_database_law = λ m. returns refl;
  disconnect_database_law = λ m. returns refl;
  connect_law = λ options m. returns refl;
  drain_law = λ m. returns refl;
  listen_law = λ port m. bind-Opens m.port_taken m;
  close_server_law = λ m. returns refl;
}

abbrev events : ConsumerHost host
events = record {
  start_created = note (opened consumer);
  close_messages = note (released consumer);
  is_running = λ m. true;
  start_created_law = λ m. returns refl;
  close_messages_law = λ m. returns refl;
}

abbrev services : AccountsHost host
services = record {
  create_services = λ m. (ok tt, m);
  register_rpc_routes = λ m. (ok [], record m { log = opened subscriptions ∷ m.log });
  create_services_law = λ m. returns refl;
  register_rpc_routes_law = λ m. returns refl;
  start_relay = note (opened relay);
  stop_relay = note (released relay);
  start_relay_law = λ m. returns refl;
  stop_relay_law = λ m. returns refl;
}

abbrev nats : NatsConnectionConfig
nats = record {
  servers = "nats://localhost:4222";
  name = "notification-service";
  user = "notification";
  password = "secret";
  ca_file = "ca.pem";
  connect_timeout_ms = none;
  max_reconnect_attempts = none;
  reconnect_delay_ms = none;
}

abbrev machine : Bool → Machine
machine taken = record { log = []; port_taken = taken }

-- The port of the probe is taken: what was opened is released again.
abbrev aborted : Machine
aborted = record (machine true) {
  log =
      released database
      ∷ released messaging
      ∷ released consumer
      ∷ opened consumer
      ∷ opened messaging
      ∷ opened database
      ∷ [];
}

start_notification_service_run :
    start_notification_service host events nats 3001 (machine true)
    ≡ (err (error "listen EADDRINUSE"), aborted)
unfolding start_notification_service
start_notification_service_run = refl

start_notification_service-Ensures_example :
    Ensures
      (λ _ m'. m'.log ≡ opened server ∷ opened consumer ∷ opened messaging ∷ opened database ∷ [])
      (λ e m'. IsAborted host events nats 3001 (machine true) m')
      (start_notification_service host events nats 3001 (machine true))
start_notification_service-Ensures_example =
    start_notification_service-Ensures host events nats 3001 (machine true)

handle_health_request-IsReady_example :
    let x = handle_health_request host events nats 3001 (some "/health/ready") (machine false) in
    ((x.0 ≡ respond 200 "ok" (some "readiness"))
      × IsReady host events nats 3001 (machine false) x.1)
    ⊎ ((x.0 ≡ respond 503 "unavailable" (some "readiness"))
        × ((w₀ : Machine) → ¬ IsReady host events nats 3001 (machine false) w₀))
handle_health_request-IsReady_example =
    handle_health_request-IsReady host events nats 3001 (machine false)

start_user_service-Ensures_example :
    Ensures
      (λ _ m'. IsStarted host services nats (machine false) m')
      (λ e m'. Starting.IsAborted host services nats (machine false) m')
      (start_user_service host services nats (machine false))
start_user_service-Ensures_example = start_user_service-Ensures host services nats (machine false)

-- Signals of both kinds during the shutdown.
abbrev hs : List Happening
hs = arrives sigterm ∷ arrives sigint ∷ settles ∷ []

abbrev shut : M Machine Fault (Unit {0})
shut = drain_user_service host services nats []

run_main-IsEnded_example :
    IsEnded (ok shut, machine false) hs (run_main (λ m. (ok shut, m)) hs (machine false))
run_main-IsEnded_example = run_main-IsEnded (λ m. (ok shut, m)) hs (machine false)

-- A second signal of one kind ends the process in the middle of its shutdown.
killed_run :
    (run_main
      (λ m. (ok shut, m))
      (arrives sigint ∷ arrives sigint ∷ settles ∷ [])
      (machine false)).shutdown_promise
    ≡ pending
unfolding run_main happen_all
killed_run = refl

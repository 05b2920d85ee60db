-- ===== src/Processes/Signals.antt =====
-- `main` of the three main.ts, apps/user-service/src, apps/notification-service/src and
-- apps/api-gateway/src: the start of the process and the signals that stop it. A shutdown takes its
-- time: signals arrive before and while it goes on.
pub mod Stages
pub mod Killing
pub mod Ending
use trams_assignment.Base.{
  ℕ, Bool, true, false, Option, none, some, List, [], ◌∷◌, if◌then◌else◌, M, Result, ok, err, ret,
  ◌>>=◌, ◌>>◌,
}
use trams_assignment.Database.{Fault}
use trams_assignment.Processes.{Host, NatsConnectionConfig}
use trams_assignment.Processes.Accounts.{AccountsHost, start_user_service, drain_user_service}
use trams_assignment.Processes.Notifications.{
  ConsumerHost, start_notification_service, shutdown_notification_service,
}
use trams_assignment.Processes.Front.{GatewayNatsConfig, start_gateway, shutdown_gateway}

pub data Signal : Type 0 where
  sigint : Signal
  sigterm : Signal

-- `shutdownPromise` of a service.
pub data ShutdownPromise : Type 0 where
  absent : ShutdownPromise
  pending : ShutdownPromise
  settled : Result Fault (Unit {0}) → ShutdownPromise

-- What happens to a process that has started: a signal arrives, or its shutdown, if one is going on,
-- comes to its end.
pub data Happening : Type 0 where
  arrives : Signal → Happening
  settles : Happening

-- A process: the state outside, `shutdownPromise`, the listeners of `process.once` that are left,
-- `process.exitCode`, and whether a signal without a listener has ended it. While the shutdown is going
-- on, `world` is the state that it has begun with: how far it has come is not said.
pub record Running (World : Type 0) : Type 0 where
  pub world : World
  pub shutdown_promise : ShutdownPromise
  pub on_sigint : Bool
  pub on_sigterm : Bool
  pub exit_code : Option ℕ
  pub killed : Bool

abbrev pub failed : Result Fault (Unit {0}) → Option ℕ → Option ℕ
failed (ok done) code = code
failed (err e) code = some 1

module _ {World : Type 0} where
  -- `service.shutdown().catch(…)`: the first call begins the shutdown, and a later one adds a handler
  -- to its promise, which runs at once where that has failed.
  abbrev pub asked : ShutdownPromise → Running World → Running World
  asked absent p = record p { shutdown_promise = pending }
  asked pending p = record p { shutdown_promise = pending }
  asked (settled r) p = record p { shutdown_promise = settled r; exit_code = failed r p.exit_code }

  -- The listener of a signal.
  abbrev pub on_shutdown : Running World → Running World
  on_shutdown p = asked p.shutdown_promise p

  abbrev pub heard : Signal → Running World → Running World
  heard sigint p =
      if p.on_sigint
      then on_shutdown (record p { on_sigint = false })
      else record p { killed = true }
  heard sigterm p =
      if p.on_sigterm
      then on_shutdown (record p { on_sigterm = false })
      else record p { killed = true }

module _ {World : Type 0} (close : M World Fault (Unit {0})) where
  -- The end of the shutdown, with the handlers of its promise.
  abbrev pub finish : ShutdownPromise → Running World → Running World
  finish absent p = p
  finish pending p =
      let x = close p.world in
      record p { world = x.1; shutdown_promise = settled x.0; exit_code = failed x.0 p.exit_code }
  finish (settled r) p = p

  abbrev pub happened : Happening → Running World → Running World
  happened (arrives signal) p = heard signal p
  happened settles p = finish p.shutdown_promise p

  unfoldable pub happen : Happening → Running World → Running World
  happen h p = if p.killed then p else happened h p

  unfoldable pub happen_all : List Happening → Running World → Running World
  unfolding happen
  happen_all [] p = p
  happen_all (h ∷ hs) p = happen_all hs (happen h p)

module _ {World : Type 0} where
  -- A process that has set its listeners.
  abbrev pub just_started : World → Running World
  just_started w = record {
    world = w;
    shutdown_promise = absent;
    on_sigint = true;
    on_sigterm = true;
    exit_code = none;
    killed = false;
  }

  abbrev pub started :
      Result Fault (M World Fault (Unit {0})) × World → List Happening → Running World
  started (ok close, w) hs = happen_all close hs (just_started w)
  started (err e, w) hs = record {
    world = w;
    shutdown_promise = absent;
    on_sigint = false;
    on_sigterm = false;
    exit_code = some 1;
    killed = false;
  }

  -- `main` with the `catch` behind it, and what happens after the start, which returns what the
  -- shutdown does.
  unfoldable pub run_main :
      M World Fault (M World Fault (Unit {0})) → List Happening → World → Running World
  run_main start hs w = started (start w) hs

module _ {World : Type 0} (host : Host World) (nats : NatsConnectionConfig) where
  unfoldable pub main_user_service : AccountsHost host → List Happening → World → Running World
  unfolding run_main
  main_user_service services = run_main (do
    subscriptions ← start_user_service host services nats
    ret (drain_user_service host services nats subscriptions))

  unfoldable pub main_notification_service :
      ConsumerHost host → ℕ → List Happening → World → Running World
  unfolding run_main
  main_notification_service events health_port = run_main (
      start_notification_service host events nats health_port
      >> ret (shutdown_notification_service host events nats health_port))

module _ {World : Type 0} (host : Host World) where
  unfoldable pub main_gateway :
      GatewayNatsConfig → M World Fault (Unit {0}) → ℕ → List Happening → World → Running World
  unfolding run_main
  main_gateway config create_services port =
      run_main (start_gateway host config create_services port >> ret (shutdown_gateway host))

-- ===== src/Processes/Accounts.antt =====
-- apps/user-service/src/main.ts: the start of the user service and its shutdown.
use trams_assignment.Base.{
  ◌≡◌, Ensures, Bool, true, false, List, [], ◌∷◌, M, err, ret, ◌>>◌, ◌>>=◌, or_else,
}
use trams_assignment.Database.{Fault}
use trams_assignment.Processes.{
  relay, Resource, opened, Host, NatsConnectionConfig, Opens, Releases, connect_nats, drain_client,
  promise_all, settle_all, close_last,
}
use trams_assignment.Processes.Locals.{Starting, in_world, assign, when_set}

-- The parts of the service itself: the objects built once the broker is connected, whose
-- constructors may throw, the subscriptions of the RPC routes, and the outbox relay.
pub record AccountsHost {World : Type 0} (host : Host World) : Type 0 where
  pub create_services : M World Fault (Unit {0})
  pub register_rpc_routes : M World Fault (List (M World Fault (Unit {0})))
  pub start_relay : M World Fault (Unit {0})
  pub stop_relay : M World Fault (Unit {0})
  pub create_services_law :
      (w : World)
      → Ensures
          (λ _ w'. host.log w' ≡ host.log w)
          (λ e w'. host.log w' ≡ host.log w)
          (create_services w)
  pub register_rpc_routes_law :
      (w : World)
      → Ensures
          (λ _ w'. host.log w' ≡ opened Resource.subscriptions ∷ host.log w)
          (λ e w'. host.log w' ≡ host.log w)
          (register_rpc_routes w)
  pub start_relay_law : Opens host.log relay start_relay
  pub stop_relay_law : Releases host.log relay stop_relay

-- The local variables of `startUserService`: which of them are defined.
pub record Locals : Type 0 where
  pub messaging_set : Bool
  pub relay_set : Bool

module _ {World : Type 0} (host : Host World) (services : AccountsHost host)
    (nats : NatsConnectionConfig) where
  -- The `catch` of `startUserService`
  abbrev pub clean_up : Locals → World → World
  clean_up locals = settle_all host (
      when_set locals.relay_set services.stop_relay
      ∷ when_set locals.messaging_set (drain_client host)
      ∷ host.disconnect_database
      ∷ [])

  -- The result is the list of the calls that drain the subscriptions.
  abbrev pub start_all : M (Starting World Locals) Fault (List (M World Fault (Unit {0})))
  start_all = do
    in_world host.connect_database
    in_world (connect_nats host nats)
    assign (λ l. record l { messaging_set = true })
    in_world services.create_services
    assign (λ l. record l { relay_set = true })
    subscriptions ← in_world services.register_rpc_routes
    in_world services.start_relay
    ret subscriptions

  abbrev pub unset : Locals
  unset = record { messaging_set = false; relay_set = false }

  abbrev pub abort : Fault → M (Starting World Locals) Fault (List (M World Fault (Unit {0})))
  abort e s = (err e, record s { world = clean_up s.locals s.world })

  unfoldable pub start_user_service : M World Fault (List (M World Fault (Unit {0})))
  start_user_service w =
      let x = or_else (start_all (record { world = w; locals = unset })) abort in (x.0, x.1.world)

  unfoldable pub drain_user_service : List (M World Fault (Unit {0})) → M World Fault (Unit {0})
  unfolding close_last
  drain_user_service subscriptions =
      close_last host (promise_all host subscriptions >> services.stop_relay)

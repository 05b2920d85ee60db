-- ===== src/Processes/Stopping.antt =====
-- The shutdowns of the two services, and of the gateway.
use trams_assignment.Base.{ℕ, List, M, ◌>>◌}
use trams_assignment.Database.{Fault}
use trams_assignment.Processes.{Host, NatsConnectionConfig, promise_all}
use trams_assignment.Processes.Closing.{IsClosed, close_last-IsClosed}
use trams_assignment.Processes.Notifications.{ConsumerHost, shutdown_notification_service}
use trams_assignment.Processes.Accounts.{AccountsHost, drain_user_service}

module _ {World : Type 0} (host : Host World) (nats : NatsConnectionConfig) where
  -- However the first steps of a shutdown end, each of the two services then drains its connection,
  -- unless that is closed already, and after that disconnects from its database: the first steps are
  -- the closing of the health server and of the consumer, or the draining of the subscriptions and the
  -- stop of the relay.
  pub services-IsClosed :
      (events : ConsumerHost host) (health_port : ℕ) (services : AccountsHost host)
      (subscriptions : List (M World Fault (Unit {0}))) (w : World)
      → IsClosed host
          ((host.close_server >> events.close_messages) w).1
          (shutdown_notification_service host events nats health_port w).1
        × IsClosed host
            ((promise_all host subscriptions >> services.stop_relay) w).1
            (drain_user_service host services nats subscriptions w).1
  unfolding shutdown_notification_service drain_user_service
  services-IsClosed events health_port services subscriptions w = (
    close_last-IsClosed host (host.close_server >> events.close_messages) w,
    close_last-IsClosed host (promise_all host subscriptions >> services.stop_relay) w,
  )

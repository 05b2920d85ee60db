-- ===== src/Processes/Notifications.antt =====
-- apps/notification-service/src/main.ts: the start of the service, its shutdown and its probe.
use trams_assignment.Base.{
  ℕ, ◌≡◌, ap, ◌∙◌, Bool, true, false, not, Option, none, some, [], ◌∷◌, String, is_text,
  if◌then◌else◌, M, Result, ok, err, ◌>>◌, or_else, Ensures, returns, throws, and_then-Ensures,
  or_else-Ensures, lift-Ensures, Ensures-weaken, Ensures-either,
}
use trams_assignment.Database.{Fault, error}
use trams_assignment.Processes.{
  opened, released, database, messaging, consumer, server, NatsConnectionConfig, Host, Opens,
  Releases, connect_nats, with_timeout, ping, drain_client, promise_all, settle_all, close_last,
}
use trams_assignment.Processes.Locals.{Starting, in_world, assign, when_set, opening-Ensures}
use trams_assignment.Processes.Closing.{IsDrained, drain_client-IsDrained}

-- The consumer of the service, with the construction of the service before it: `startCreated`, its
-- messages and whether it runs.
pub record ConsumerHost {World : Type 0} (host : Host World) : Type 0 where
  pub start_created : M World Fault (Unit {0})
  pub close_messages : M World Fault (Unit {0})
  pub is_running : World → Bool
  pub start_created_law : Opens host.log consumer start_created
  pub close_messages_law : Releases host.log consumer close_messages

-- The local variables of `startNotificationService`: which of them are defined.
pub record Locals : Type 0 where
  pub messaging_set : Bool
  pub consumer_set : Bool
  pub health_set : Bool

pub data Response : Type 0 where
  respond : ℕ → String → Option String → Response

module _ {World : Type 0} (host : Host World) (events : ConsumerHost host)
    (nats : NatsConnectionConfig) (health_port : ℕ) where
  -- The `catch` of `startNotificationService`
  abbrev pub clean_up : Locals → World → World
  clean_up locals = settle_all host (
      when_set locals.health_set host.close_server
      ∷ when_set locals.consumer_set events.close_messages
      ∷ when_set locals.messaging_set (drain_client host)
      ∷ host.disconnect_database
      ∷ [])

  abbrev start_all : M (Starting World Locals) Fault (Unit {0})
  start_all = do
    in_world host.connect_database
    in_world (connect_nats host nats)
    assign (λ l. record l { messaging_set = true })
    in_world events.start_created
    assign (λ l. record l { consumer_set = true })
    in_world (host.listen health_port)
    assign (λ l. record l { health_set = true })

  abbrev unset : Locals
  unset = record { messaging_set = false; consumer_set = false; health_set = false }

  abbrev abort : Fault → M (Starting World Locals) Fault (Unit {0})
  abort e s = (err e, record s { world = clean_up s.locals s.world })

  unfoldable pub start_notification_service : M World Fault (Unit {0})
  start_notification_service w =
      let x = or_else (start_all (record { world = w; locals = unset })) abort in (x.0, x.1.world)

  unfoldable pub shutdown_notification_service : M World Fault (Unit {0})
  unfolding close_last
  shutdown_notification_service = close_last host (host.close_server >> events.close_messages)

  -- `Promise.all` of the query and the ping
  unfoldable pub assert_notification_readiness : M World Fault (Unit {0})
  assert_notification_readiness w =
      if not (events.is_running w)
      then (err (error "Notification JetStream consumer is not running"), w)
      else promise_all host
          (with_timeout host host.select_one 1000 "Notification database" ∷ ping host 1000 ∷ []) w

  abbrev pub ready : Result Fault (Unit {0}) → Response
  ready (ok a) = respond 200 "ok" (some "readiness")
  ready (err e) = respond 503 "unavailable" (some "readiness")

  -- The response of `handleHealthRequest` to a request for a path.
  unfoldable pub handle_health_request : Option String → World → Response × World
  unfolding assert_notification_readiness
  handle_health_request url w =
      if is_text url "/health/live"
      then (respond 200 "ok" (some "liveness"), w)
      else if not (is_text url "/health/ready")
      then (respond 404 "not_found" none, w)
      else (ready (assert_notification_readiness w).0, (assert_notification_readiness w).1)

  -- What a failed start has done: it has opened the first few resources, and has released each of
  -- them again, as well as the database in any case.
  pub data IsAborted (w w' : World) : Type 0 where
    no_database : host.log w' ≡ released database ∷ host.log w → IsAborted w w'
    no_messaging : host.log w' ≡ released database ∷ opened database ∷ host.log w → IsAborted w w'
    no_consumer :
        {w₁ w₂ : World}
        → host.log w₁ ≡ opened messaging ∷ opened database ∷ host.log w
        → IsDrained host w₁ w₂
        → host.log w' ≡ released database ∷ host.log w₂
        → IsAborted w w'
    no_server :
        {w₁ w₂ : World}
        → host.log w₁
          ≡ released consumer ∷ opened consumer ∷ opened messaging ∷ opened database ∷ host.log w
        → IsDrained host w₁ w₂
        → host.log w' ≡ released database ∷ host.log w₂
        → IsAborted w w'

  released_last :
      (v : World) → host.log (host.disconnect_database v).1 ≡ released database ∷ host.log v
  released_last v =
      Ensures-either {P = λ w'. host.log w' ≡ released database ∷ host.log v}
        (host.disconnect_database_law v)

  -- Where `startNotificationService` can fail.
  data IsStopped (w : World) (s : Starting World Locals) : Type 0 where
    at_database : s.locals ≡ unset → host.log s.world ≡ host.log w → IsStopped w s
    at_messaging :
        s.locals ≡ unset → host.log s.world ≡ opened database ∷ host.log w → IsStopped w s
    at_consumer :
        s.locals ≡ record unset { messaging_set = true }
        → host.log s.world ≡ opened messaging ∷ opened database ∷ host.log w
        → IsStopped w s
    at_server :
        s.locals ≡ record unset { messaging_set = true; consumer_set = true }
        → host.log s.world ≡ opened consumer ∷ opened messaging ∷ opened database ∷ host.log w
        → IsStopped w s

  clean_up-IsAborted :
      (w : World) (s : Starting World Locals)
      → IsStopped w s
      → IsAborted w (clean_up s.locals s.world)
  clean_up-IsAborted w s (at_database is log) =
      rw is (no_database (released_last s.world ∙ ap (◌∷◌ (released database)) log))
  clean_up-IsAborted w s (at_messaging is log) =
      rw is (no_messaging (released_last s.world ∙ ap (◌∷◌ (released database)) log))
  clean_up-IsAborted w s (at_consumer is log) = rw is (
      no_consumer log (drain_client-IsDrained host s.world)
        (released_last (drain_client host s.world).1))
  clean_up-IsAborted w s (at_server is log) = rw is (
      no_server
        (Ensures-either {P = λ w'. host.log w' ≡ released consumer ∷ host.log s.world}
            (events.close_messages_law s.world)
          ∙ ap (◌∷◌ (released consumer)) log)
        (drain_client-IsDrained host (events.close_messages s.world).1)
        (released_last (drain_client host (events.close_messages s.world).1).1))

  start_all-Ensures :
      (w : World)
      → Ensures
          (λ _ s.
            host.log s.world
            ≡ opened server ∷ opened consumer ∷ opened messaging ∷ opened database ∷ host.log w)
          (λ e s. IsStopped w s)
          (start_all (record { world = w; locals = unset }))
  start_all-Ensures w =
      and_then-Ensures _
        (opening-Ensures host.log _ host.connect_database database host.connect_database_law)
        (λ _ s₁ (l₁, log₁).
          and_then-Ensures _
            (opening-Ensures host.log s₁ (connect_nats host nats) messaging (host.connect_law _))
            (λ _ s₂ (l₂, log₂).
              let at₂ = log₂ ∙ ap (◌∷◌ (opened messaging)) log₁ in
              and_then-Ensures _
                (opening-Ensures host.log _ events.start_created consumer events.start_created_law)
                (λ _ s₃ (l₃, log₃).
                  let at₃ = log₃ ∙ ap (◌∷◌ (opened consumer)) at₂ in
                  and_then-Ensures _
                    (opening-Ensures host.log _ (host.listen health_port) server
                      (host.listen_law _))
                    (λ _ s₄ (l₄, log₄). returns (log₄ ∙ ap (◌∷◌ (opened server)) at₃))
                    (λ e s₄ (l₄, log₄).
                      at_server
                        (l₄
                          ∙ ap (λ (l : Locals). record l { consumer_set = true })
                              (l₃
                                ∙ ap (λ (l : Locals). record l { messaging_set = true }) (l₂ ∙ l₁)))
                        (log₄ ∙ at₃)))
                (λ e s₃ (l₃, log₃).
                  at_consumer
                    (l₃ ∙ ap (λ (l : Locals). record l { messaging_set = true }) (l₂ ∙ l₁))
                    (log₃ ∙ at₂)))
            (λ e s₂ (l₂, log₂). at_messaging (l₂ ∙ l₁) (log₂ ∙ log₁)))
        (λ e s₁ (l₁, log₁). at_database l₁ log₁)

  -- `startNotificationService` returns with the database, the connection, the consumer and the health
  -- server opened in this order and nothing released. If it throws, whichever step has failed, it has
  -- released all that it had opened: the consumer, then the connection unless that was closed
  -- already, and then the database.
  pub start_notification_service-Ensures :
      (w : World)
      → Ensures
          (λ _ w'.
            host.log w'
            ≡ opened server ∷ opened consumer ∷ opened messaging ∷ opened database ∷ host.log w)
          (λ e w'. IsAborted w w')
          (start_notification_service w)
  unfolding start_notification_service
  start_notification_service-Ensures w =
      Ensures-weaken (λ _ w' (s, log, at). rw at log) (λ e w' (s, done, at). rw at done)
        (lift-Ensures (λ (s : Starting World Locals). s.world) _
          (or_else-Ensures
            {P = λ _ s.
              host.log s.world
              ≡ opened server ∷ opened consumer ∷ opened messaging ∷ opened database ∷ host.log w}
            {Q' = λ e s. IsAborted w s.world} abort (start_all-Ensures w) (λ _ s p. p)
            (λ e s stopped. throws (clean_up-IsAborted w s stopped))))

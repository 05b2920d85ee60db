-- ===== src/Processes/Starting.antt =====
-- That a failed start of the user service leaves nothing open: apps/user-service/src/main.ts.
use trams_assignment.Base.{
  ◌≡◌, ap, ◌∙◌, false, true, ◌∷◌, Ensures, returns, throws, and_then-Ensures, or_else-Ensures,
  lift-Ensures, Ensures-weaken, Ensures-either,
}
use trams_assignment.Processes.{
  Resource, opened, released, database, messaging, relay, NatsConnectionConfig, Host, connect_nats,
  drain_client,
}
use trams_assignment.Processes.Closing.{IsDrained, drain_client-IsDrained}
use trams_assignment.Processes.Locals.{Starting, opening-Ensures, keeping-Ensures}
use trams_assignment.Processes.Accounts.{
  AccountsHost, Locals, clean_up, unset, start_all, abort, start_user_service,
}

module _ {World : Type 0} (host : Host World) (services : AccountsHost host)
    (nats : NatsConnectionConfig) where
  -- What a failed start has done. The subscriptions go with the connection.
  pub data IsAborted (w w' : World) : Type 0 where
    no_database : host.log w' ≡ released database ∷ host.log w → IsAborted w w'
    no_messaging : host.log w' ≡ released database ∷ opened database ∷ host.log w → IsAborted w w'
    no_services :
        {w₁ w₂ : World}
        → host.log w₁ ≡ opened messaging ∷ opened database ∷ host.log w
        → IsDrained host w₁ w₂
        → host.log w' ≡ released database ∷ host.log w₂
        → IsAborted w w'
    no_routes :
        {w₁ w₂ : World}
        → host.log w₁ ≡ released relay ∷ opened messaging ∷ opened database ∷ host.log w
        → IsDrained host w₁ w₂
        → host.log w' ≡ released database ∷ host.log w₂
        → IsAborted w w'
    no_relay :
        {w₁ w₂ : World}
        → host.log w₁
          ≡ released relay
            ∷ opened Resource.subscriptions
            ∷ opened messaging
            ∷ opened database
            ∷ host.log w
        → IsDrained host w₁ w₂
        → host.log w' ≡ released database ∷ host.log w₂
        → IsAborted w w'

  -- Where `startUserService` can fail.
  data IsStopped (w : World) (s : Starting World Locals) : Type 0 where
    at_database :
        s.locals ≡ unset host services nats → host.log s.world ≡ host.log w → IsStopped w s
    at_messaging :
        s.locals ≡ unset host services nats
        → host.log s.world ≡ opened database ∷ host.log w
        → IsStopped w s
    at_services :
        s.locals ≡ record { messaging_set = true; relay_set = false }
        → host.log s.world ≡ opened messaging ∷ opened database ∷ host.log w
        → IsStopped w s
    at_routes :
        s.locals ≡ record { messaging_set = true; relay_set = true }
        → host.log s.world ≡ opened messaging ∷ opened database ∷ host.log w
        → IsStopped w s
    at_relay :
        s.locals ≡ record { messaging_set = true; relay_set = true }
        → host.log s.world
          ≡ opened Resource.subscriptions ∷ opened messaging ∷ opened database ∷ host.log w
        → IsStopped w s

  released_last :
      (v : World) → host.log (host.disconnect_database v).1 ≡ released database ∷ host.log v
  released_last v =
      Ensures-either {P = λ w'. host.log w' ≡ released database ∷ host.log v}
        (host.disconnect_database_law v)

  released_relay : (v : World) → host.log (services.stop_relay v).1 ≡ released relay ∷ host.log v
  released_relay v =
      Ensures-either {P = λ w'. host.log w' ≡ released relay ∷ host.log v}
        (services.stop_relay_law v)

  clean_up-IsAborted :
      (w : World) (s : Starting World Locals)
      → IsStopped w s
      → IsAborted w (clean_up host services nats s.locals s.world)
  clean_up-IsAborted w s (at_database is log) =
      rw is (no_database (released_last s.world ∙ ap (◌∷◌ (released database)) log))
  clean_up-IsAborted w s (at_messaging is log) =
      rw is (no_messaging (released_last s.world ∙ ap (◌∷◌ (released database)) log))
  clean_up-IsAborted w s (at_services is log) = rw is (
      no_services log (drain_client-IsDrained host s.world)
        (released_last (drain_client host s.world).1))
  clean_up-IsAborted w s (at_routes is log) = rw is (
      no_routes (released_relay s.world ∙ ap (◌∷◌ (released relay)) log)
        (drain_client-IsDrained host (services.stop_relay s.world).1)
        (released_last (drain_client host (services.stop_relay s.world).1).1))
  clean_up-IsAborted w s (at_relay is log) = rw is (
      no_relay (released_relay s.world ∙ ap (◌∷◌ (released relay)) log)
        (drain_client-IsDrained host (services.stop_relay s.world).1)
        (released_last (drain_client host (services.stop_relay s.world).1).1))

  -- What a start has opened when it returns.
  abbrev pub IsStarted : World → World → Type 0
  IsStarted w w' =
      host.log w'
      ≡ opened relay
        ∷ opened Resource.subscriptions
        ∷ opened messaging
        ∷ opened database
        ∷ host.log w

  abbrev with_messaging : Locals → Locals
  with_messaging l = record l { messaging_set = true }

  abbrev with_relay : Locals → Locals
  with_relay l = record l { relay_set = true }

  start_all-Ensures :
      (w : World)
      → Ensures
          (λ _ s. IsStarted w s.world)
          (λ e s. IsStopped w s)
          (start_all host services nats (record { world = w; locals = unset host services nats }))
  start_all-Ensures w =
      and_then-Ensures _
        (opening-Ensures host.log _ host.connect_database database host.connect_database_law)
        (λ _ s₁ (l₁, log₁).
          and_then-Ensures _
            (opening-Ensures host.log s₁ (connect_nats host nats) messaging (host.connect_law _))
            (λ _ s₂ (l₂, log₂).
              let at₂ = log₂ ∙ ap (◌∷◌ (opened messaging)) log₁ in
              let set₂ = ap with_messaging (l₂ ∙ l₁) in
              and_then-Ensures _
                (keeping-Ensures host.log _ services.create_services services.create_services_law)
                (λ _ s₃ (l₃, log₃).
                  let at₃ = log₃ ∙ at₂ in
                  let set₃ = ap with_relay (l₃ ∙ set₂) in
                  and_then-Ensures _
                    (opening-Ensures host.log _ services.register_rpc_routes Resource.subscriptions
                      services.register_rpc_routes_law)
                    (λ subscriptions s₄ (l₄, log₄).
                      let at₄ = log₄ ∙ ap (◌∷◌ (opened Resource.subscriptions)) at₃ in
                      and_then-Ensures _
                        (opening-Ensures host.log s₄ services.start_relay relay
                          services.start_relay_law)
                        (λ _ s₅ (l₅, log₅). returns (log₅ ∙ ap (◌∷◌ (opened relay)) at₄))
                        (λ e s₅ (l₅, log₅). at_relay (l₅ ∙ l₄ ∙ set₃) (log₅ ∙ at₄)))
                    (λ e s₄ (l₄, log₄). at_routes (l₄ ∙ set₃) (log₄ ∙ at₃)))
                (λ e s₃ (l₃, log₃). at_services (l₃ ∙ set₂) (log₃ ∙ at₂)))
            (λ e s₂ (l₂, log₂). at_messaging (l₂ ∙ l₁) (log₂ ∙ log₁)))
        (λ e s₁ (l₁, log₁). at_database l₁ log₁)

  -- `startUserService` returns with the database, the connection, the subscriptions and the relay
  -- opened in this order and nothing released. If it throws, whichever step has failed, it has stopped
  -- the relay if that was built, then drained the connection, with its subscriptions, unless that was
  -- not open or closed already, and then disconnected from the database.
  pub start_user_service-Ensures :
      (w : World)
      → Ensures
          (λ _ w'. IsStarted w w')
          (λ e w'. IsAborted w w')
          (start_user_service host services nats w)
  unfolding start_user_service
  start_user_service-Ensures w =
      Ensures-weaken (λ _ w' (s, log, at). rw at log) (λ e w' (s, done, at). rw at done)
        (lift-Ensures (λ (s : Starting World Locals). s.world) _
          (or_else-Ensures {P = λ _ s. IsStarted w s.world} {Q' = λ e s. IsAborted w s.world}
            (abort host services nats) (start_all-Ensures w) (λ _ s p. p)
            (λ e s stopped. throws (clean_up-IsAborted w s stopped))))

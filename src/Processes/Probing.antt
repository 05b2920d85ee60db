-- ===== src/Processes/Probing.antt =====
-- The readiness probe of apps/notification-service/src/main.ts.
use trams_assignment.Base.{
  ℕ, ◌≡◌, refl, sym, ap, ◌∙◌, ◌⊎◌, inl, inr, Bool, true, false, Bool-cases, some, M, Result, ok,
  err, Ensures, returns, throws, Ensures-weaken, arith,
}
use trams_assignment.Database.{Fault}
use trams_assignment.Processes.{NatsConnectionConfig, Host, with_timeout, ping, first_failure}
use trams_assignment.Processes.Notifications.{
  ConsumerHost, respond, ready, assert_notification_readiness, handle_health_request,
}

ok_state :
    {World : Type 0} {w w' : World}
    → ◌≡◌ {A = Result Fault (Unit {0}) × World} (ok tt, w) (ok tt, w')
    → w ≡ w'
ok_state is = ap (λ x. x.1) is

fails : Result Fault (Unit {0}) → Bool
fails (ok a) = false
fails (err e) = true

ok_is_not-err :
    {World : Type 0} {w w' : World} {e : Fault}
    → ◌≡◌ {A = Result Fault (Unit {0}) × World} (ok tt, w) (err e, w')
    → ⊥
unfolding fails
ok_is_not-err is = ground (arith, ap (λ x. fails x.0) is)

module _ {World : Type 0} (host : Host World) (events : ConsumerHost host)
    (nats : NatsConnectionConfig) (health_port : ℕ) where
  -- What `handleHealthRequest` has seen when it answers that the service is ready.
  pub record IsReady (w w' : World) : Type 0 where
    pub running : events.is_running w ≡ true
    pub between : World
    pub answers :
        with_timeout host host.select_one 1000 "Notification database" w ≡ (ok tt, between)
    pub pings : ping host 1000 between ≡ (ok tt, w')

  -- Two calls of a `Promise.all`: it returns exactly if both do.
  both-Ensures :
      (a b : M World Fault (Unit {0})) (w : World) (x : Result Fault (Unit {0}) × World)
      → a w ≡ x
      → (y : Result Fault (Unit {0}) × World) → b x.1 ≡ y
      → Ensures
          (λ _ w'. (w₁ : World) × (a w ≡ (ok tt, w₁)) × (b w₁ ≡ (ok tt, w')))
          (λ e w'. (w₁ w₂ : World) → a w ≡ (ok tt, w₁) → b w₁ ≡ (ok tt, w₂) → ⊥)
          (first_failure host x.0 (first_failure host y.0 (ok tt)), y.1)
  both-Ensures a b w (ok u, w₁) is (ok v, w₂) is₂ = returns (w₁, is, is₂)
  both-Ensures a b w (ok u, w₁) is (err e, w₂) is₂ =
      throws λ v₁ v₂ p q. ok_is_not-err (sym q ∙ ap b (ok_state (sym p ∙ is)) ∙ is₂)
  both-Ensures a b w (err e, w₁) is (ok v, w₂) is₂ = throws λ v₁ v₂ p q. ok_is_not-err (sym p ∙ is)
  both-Ensures a b w (err e, w₁) is (err e', w₂) is₂ =
      throws λ v₁ v₂ p q. ok_is_not-err (sym p ∙ is)

  readiness_cases :
      (w : World)
      → Ensures
          (λ _ w'. IsReady w w')
          (λ e w'. (w₀ : World) → ¬ IsReady w w₀)
          (assert_notification_readiness host events nats health_port w)
  unfolding assert_notification_readiness
  readiness_cases w =
      let query = with_timeout host host.select_one 1000 "Notification database" in
      elim (Bool-cases (events.is_running w)) [
        | inr stopped ↦ rw stopped (throws (λ w₀ ready. ground (arith, ready.running)))
        | inl running ↦ rw running (
            Ensures-weaken
              (λ _ w' (w₁, answered, pinged). record {
                running = running;
                between = w₁;
                answers = answered;
                pings = pinged;
              })
              (λ e w' failed w₀ ready. failed ready.between w₀ ready.answers ready.pings)
              (both-Ensures query (ping host 1000) w (query w) refl (ping host 1000 (query w).1)
                refl))
      ]

  ready_of :
      (w : World) {x : Result Fault (Unit {0}) × World}
      → Ensures (λ _ w'. IsReady w w') (λ e w'. (w₀ : World) → ¬ IsReady w w₀) x
      → ((ready host events nats health_port x.0 ≡ respond 200 "ok" (some "readiness"))
          × IsReady w x.1)
        ⊎ ((ready host events nats health_port x.0 ≡ respond 503 "unavailable" (some "readiness"))
            × ((w₀ : World) → ¬ IsReady w w₀))
  ready_of w (returns r) = inl (refl, r)
  ready_of w (throws never) = inr (refl, never)

  -- The probe answers /health/ready with 200 exactly if the consumer runs, the query of the database
  -- returns in time, and after it the ping of the broker does; otherwise with 503.
  pub handle_health_request-IsReady :
      (w : World)
      → let x = handle_health_request host events nats health_port (some "/health/ready") w in
        ((x.0 ≡ respond 200 "ok" (some "readiness")) × IsReady w x.1)
        ⊎ ((x.0 ≡ respond 503 "unavailable" (some "readiness")) × ((w₀ : World) → ¬ IsReady w w₀))
  unfolding handle_health_request
  handle_health_request-IsReady w = ready_of w (readiness_cases w)

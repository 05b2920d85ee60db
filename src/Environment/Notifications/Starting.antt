-- ===== src/Environment/Notifications/Starting.antt =====
-- What main.ts of apps/notification-service/src starts with the configuration that its config/env.ts has
-- loaded.
use trams_assignment.Base.{
  ℕ, zero, suc, ◌<◌, ◌≤◌, ◌≡◌, refl, ap, ◌⊎◌, inl, inr, false, not, ◌||◌, ◌&&◌, Option, some,
  String, eq_iff, length, take, length-map, ◌∙◌, ltb, leb, ◌==◌, if◌then◌else◌, Bool-cases, Number,
  whole, is_safe_integer, max_safe_integer, append_text, count_text, M, Result, ok, err, Ensures,
  returns, throws, arith,
}
use text.Mathlib.TextLemmas.{length-nil}
use trams_assignment.Contracts.{UserCreatedEvent}
use trams_assignment.Database.{Fault, error}
use trams_assignment.Delivery.{lease_duration}
use trams_assignment.Delivery.Consuming.{start_created}
use trams_assignment.Messaging.Publisher.{is_empty, to_natural}
use trams_assignment.Messaging.Consumer.{
  ResolvedConsumerConfig, resolve_config, check_delays, positive_integer, default_retry_delays_ms,
}
use trams_assignment.Environment.{ProcessEnv, Zod, loaded-fits, counted, ranged, bounded, IsPort}
use trams_assignment.Environment.Notifications.{
  ConsumerEnv, NotificationServiceConfig, schema, configure, load_env, consumer_config,
}

-- The default delays of the consumer, for the numbers of deliveries that the schema lets through.
module _ {S : Type 0} (s : S) where
  check_delays-default :
      (k : ℕ)
      → 1 ≤ k
      → k ≤ 5
      → (check_delays (take k default_retry_delays_ms) s ≡ (ok tt, s))
        × (length (take k default_retry_delays_ms) ≡ k)
  unfolding check_delays
  check_delays-default zero p q = absurd (omega arith)
  check_delays-default (suc zero) p q = (refl, refl)
  check_delays-default (suc (suc zero)) p q = (refl, refl)
  check_delays-default (suc (suc (suc zero))) p q = (refl, refl)
  check_delays-default (suc (suc (suc (suc zero)))) p q = (refl, refl)
  check_delays-default (suc (suc (suc (suc (suc zero))))) p q = (refl, refl)
  check_delays-default (suc (suc (suc (suc (suc (suc k)))))) p q = absurd (omega arith)

  positive_integer-if :
      (k : ℕ) (name : String)
      → 0 < k
      → positive_integer (whole k) name s ≡ (
          if leb k max_safe_integer
          then (ok k, s)
          else (err (error (append_text name " must be a positive integer")), s))
  unfolding positive_integer
  positive_integer-if k name h = ground arith

  lease_duration-if :
      (k : ℕ)
      → 1000 ≤ k
      → lease_duration (some (whole k)) s ≡ (
          if leb k max_safe_integer
          then (ok k, s)
          else (err (error "deliveryLeaseMs must be an integer of at least 1000ms"), s))
  unfolding lease_duration
  lease_duration-if k h = ground arith

fits_deliveries :
    (k n : ℕ)
    → 1 ≤ k
    → k ≤ 5
    → n ≡ k
    → ((not (leb k max_safe_integer) || ltb k 1) ≡ false) × ((n == 0 || ltb k n) ≡ false)
fits_deliveries k n low high is = (ground arith, ground arith)

is_empty-of_count : (name : String) → 1 ≤ count_text name → is_empty name ≡ false
is_empty-of_count name h = elim (Bool-cases (is_empty name)) [
  | inl empty ↦ absurd (omega (arith, ap count_text ((eq_iff name "").0 empty), length-nil))
  | inr named ↦ named
]

named :
    {unset : Type 0} (name fallback : String)
    → 1 ≤ count_text fallback
    → (unset × (◌≡◌ {A = Option String} (some fallback) (some name))) ⊎ (1 ≤ count_text name)
    → 1 ≤ count_text name
named name fallback some_text (inl (_, is)) = ground arith
named name fallback some_text (inr h) = h

-- What the service takes of a number of the environment.
abbrev pub IsTaken : Number → ℕ → Type 0
IsTaken value n = (value ≡ whole n) × (n ≤ max_safe_integer)

-- The consumer has the name and the numbers of the environment, and as many delays as deliveries.
pub record IsConfigured {Bytes Outside : Type 0} (consumer : ConsumerEnv)
    (resolved : ResolvedConsumerConfig Bytes UserCreatedEvent Outside) : Type 0 where
  pub name : resolved.durable_name ≡ consumer.durable_name
  pub deliveries : IsTaken consumer.max_deliver resolved.max_deliver
  pub wait : IsTaken consumer.ack_wait_ms resolved.ack_wait_ms
  pub pending : IsTaken consumer.max_ack_pending resolved.max_ack_pending
  pub delays : length resolved.retry_delays_ms ≡ resolved.max_deliver

abbrev consumer_of : String → ℕ → ℕ → ℕ → ConsumerEnv
consumer_of name k a p = record {
  durable_name = name;
  max_deliver = whole k;
  ack_wait_ms = whole a;
  max_ack_pending = whole p;
}

module _ {Bytes Json Outside S : Type 0} (decode_json : Bytes → Result Fault Json)
    (safe_parse : Json → Result String UserCreatedEvent)
    (handle_event : UserCreatedEvent → M Outside Fault (Unit {0})) where
  start_created-Ensures :
      (name : String) (k a p : ℕ) (s : S)
      → 1 ≤ count_text name
      → 1 ≤ k
      → k ≤ 5
      → 0 < a
      → 0 < p
      → Ensures
          (λ resolved s'. (s' ≡ s) × IsConfigured (consumer_of name k a p) resolved)
          (λ e s'. (s' ≡ s) × ((leb a max_safe_integer && leb p max_safe_integer) ≡ false))
          (start_created decode_json safe_parse
            (consumer_config (consumer_of name k a p))
            handle_event
            s)
  unfolding start_created resolve_config
  start_created-Ensures name k a p s named low high pa pp =
      let (checks, sized) = check_delays-default s k low high in
      let (delivers, fits) =
        fits_deliveries k (length (take k default_retry_delays_ms)) low high sized in
      rw
        (
          is_empty-of_count name named,
          delivers,
          fits,
          checks,
          positive_integer-if s a "ackWaitMs" pa,
        )
        (elim (Bool-cases (leb a max_safe_integer)) [
          | inr bad ↦ rw bad (throws (refl, refl))
          | inl ha ↦
              rw (ha, positive_integer-if s p "maxAckPending" pp)
                (elim (Bool-cases (leb p max_safe_integer)) [
                  | inr bad ↦ rw bad (throws (refl, refl))
                  | inl hp ↦ rw hp (
                      returns (
                        refl,
                        record {
                          name = refl;
                          deliveries = (refl, ground arith);
                          wait = (refl, ground arith);
                          pending = (refl, ground arith);
                          delays = length-map to_natural (take k default_retry_delays_ms) ∙ sized;
                        },
                      ))
                ])
        ])

  lease_duration-Ensures :
      (k : ℕ) (s : S)
      → 1000 ≤ k
      → Ensures
          (λ n s'. (s' ≡ s) × IsTaken (whole k) n × (1000 ≤ n))
          (λ e s'. (s' ≡ s) × (leb k max_safe_integer ≡ false))
          (lease_duration (some (whole k)) s)
  lease_duration-Ensures k s h =
      rw (lease_duration-if s k h) (elim (Bool-cases (leb k max_safe_integer)) [
        | inr bad ↦ rw bad (throws (refl, refl))
        | inl good ↦ rw good (returns (refl, (refl, ground arith), h))
      ])

  -- What `main.ts` starts with a configuration that has been loaded. The health port is a port. Where
  -- `startCreated` returns, the consumer has exactly the name and the numbers of the environment and
  -- as many default delays as deliveries; where the lease of a claim is taken, it is exactly the
  -- number of the environment, at least a second. The first throws only if the time for an
  -- acknowledgement or the number of pending messages is above the largest safe integer, which the
  -- schema does not exclude, and the second only if the lease is.
  pub load_env-starts :
      (zod : Zod) (env : ProcessEnv) (config : NotificationServiceConfig) (s : S)
      → load_env zod env ≡ ok config
      → IsPort config.health_port
        × Ensures
            (λ resolved s'. (s' ≡ s) × IsConfigured config.consumer resolved)
            (λ e s'.
              (s' ≡ s)
              × ((is_safe_integer config.consumer.ack_wait_ms
                    && is_safe_integer config.consumer.max_ack_pending)
                  ≡ false))
            (start_created decode_json safe_parse (consumer_config config.consumer) handle_event s)
        × Ensures
            (λ n s'. (s' ≡ s) × IsTaken config.delivery_lease_ms n × (1000 ≤ n))
            (λ e s'. (s' ≡ s) × (is_safe_integer config.delivery_lease_ms ≡ false))
            (lease_duration (some config.delivery_lease_ms) s)
  unfolding load_env
  load_env-starts zod env config s h =
      let (parsed, parses, is) = loaded-fits configure (zod.safe_parse schema env) h in
      let fits = zod.safe_parse_law schema env parsed parses in
      let (port, at_port, port_fits) = fits.1.0 in
      let (port', is_port, low, high) =
        ranged 1 65535 port 3001 (omega arith) (omega arith) port_fits in
      let (name, at_name, name_fits) = fits.1.1.1.1.1.1.1.0 in
      let (k, at_k, k_fits) = fits.1.1.1.1.1.1.1.1.0 in
      let (a, at_a, a_fits) = fits.1.1.1.1.1.1.1.1.1.0 in
      let (p, at_p, p_fits) = fits.1.1.1.1.1.1.1.1.1.1.0 in
      let (l, at_l, l_fits) = fits.1.1.1.1.1.1.1.1.1.1.1.0 in
      let (k', is_k, few, many) = ranged 1 5 k 5 (omega arith) (omega arith) k_fits in
      let (a', is_a, pa) = counted a 30000 (omega arith) a_fits in
      let (p', is_p, pp) = counted p 10 (omega arith) p_fits in
      let (l', is_l, long) = bounded 1000 l 60000 (omega arith) l_fits in
      rw (← is) (
        (port', rw (at_port, is_port) refl, low, high),
        rw (at_name, at_k, is_k, at_a, is_a, at_p, is_p)
            (start_created-Ensures name k' a' p' s (named name _ (omega arith) name_fits) few many
              pa pp),
        rw (at_l, is_l) (lease_duration-Ensures l' s long),
      )

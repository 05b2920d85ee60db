-- ===== src/Messaging/Consumer/Config.antt =====
-- The configuration that a consumer accepts, and its schedule of redeliveries.
use trams_assignment.Base.{
  ℕ, zero, suc, ◌-◌, ◌≤◌, ◌<◌, ◌≡◌, ◌≢◌, refl, ap, ◌∙◌, inl, inr, Bool, false, ◌||◌, not,
  Bool-cases, some, List, [], ◌∷◌, String, length, length-map, get_elem?, map, All, min, Ensures,
  returns, throws, and_then-Ensures, Ensures-weaken, Number, whole, negative, not_whole,
  is_safe_integer, or_default, arith, ◌==◌,
}
use trams_assignment.Messaging.Publisher.{is_empty, is_not_positive, to_natural, ne_of_is_empty}
use trams_assignment.Messaging.Consumer.{
  DurableConsumerConfig, ResolvedConsumerConfig, default_max_deliver, default_ack_wait_ms,
  default_max_ack_pending, default_delays, is_below_one, exceeds, positive_integer, check_delays,
  resolve_config, retry_delay_at,
}

-- A configuration that the consumer can work with: its names are there, every number is positive,
-- and there is a delay for the first failure, and none too many.
pub record IsResolved {Bytes Event Outside : Type 0}
    (config : ResolvedConsumerConfig Bytes Event Outside) : Type 0 where
  pub named :
      (config.stream ≢ "")
      × (config.durable_name ≢ "")
      × (config.filter_subject ≢ "")
      × (config.dead_letter_subject ≢ "")
  pub delivers : 0 < config.max_deliver
  pub waits : 0 < config.ack_wait_ms
  pub pulls : 0 < config.max_ack_pending
  pub has_delay : 0 < length config.retry_delays_ms
  pub few_delays : length config.retry_delays_ms ≤ config.max_deliver
  pub positive_delays : All (λ d. 0 < d) config.retry_delays_ms

to_natural-positive :
    (value : Number)
    → (not (is_safe_integer value) || is_below_one value) ≡ false
    → 0 < to_natural value
to_natural-positive (whole n) h = ground arith
to_natural-positive (negative n) h = ground arith
to_natural-positive not_whole h = ground arith

delay-positive :
    (value : Number)
    → (not (is_safe_integer value) || is_not_positive value) ≡ false
    → 0 < to_natural value
delay-positive (whole n) h = ground arith
delay-positive (negative n) h = ground arith
delay-positive not_whole h = ground arith

positive_integer-Ensures :
    {S : Type 0} (value : Number) (name : String) (s : S)
    → Ensures (λ n s'. (0 < n) × (s' ≡ s)) (λ e s'. s' ≡ s) (positive_integer value name s)
unfolding positive_integer
positive_integer-Ensures value name s =
    elim (Bool-cases (not (is_safe_integer value) || is_below_one value)) [
      | inl bad ↦ rw bad (throws refl)
      | inr good ↦ rw good (returns (to_natural-positive value good, refl))
    ]

check_delays-Ensures :
    {S : Type 0} (delays : List Number) (s : S)
    → Ensures
        (λ _ s'. All (λ d. 0 < d) (map to_natural delays) × (s' ≡ s))
        (λ e s'. s' ≡ s)
        (check_delays delays s)
unfolding check_delays
check_delays-Ensures [] s = returns (tt, refl)
check_delays-Ensures (delay ∷ delays) s =
    elim (Bool-cases (not (is_safe_integer delay) || is_not_positive delay)) [
      | inl bad ↦ rw bad (throws refl)
      | inr good ↦ rw good (
          Ensures-weaken (λ _ s' (h, same). ((delay-positive delay good, h), same))
            (λ e s' same. same) (check_delays-Ensures delays s))
    ]

-- Four tests joined by `||` that all fail.
names-fail :
    (a b c d : Bool)
    → (a || b || c || d) ≡ false
    → (a ≡ false) × (b ≡ false) × (c ≡ false) × (d ≡ false)
names-fail a b c d h = ground arith

module _ {Bytes Event Outside : Type 0} (config : DurableConsumerConfig Bytes Event Outside) where
  -- What the checks that have passed show of the result.
  resolved :
      (delays : List Number) (max_deliver : Number) {wait pending : ℕ}
      → (is_empty config.stream
          || is_empty config.durable_name
          || is_empty config.filter_subject
          || is_empty config.dead_letter_subject)
        ≡ false
      → (not (is_safe_integer max_deliver) || is_below_one max_deliver) ≡ false
      → 0 < wait
      → 0 < pending
      → (length delays == 0 || exceeds (length delays) max_deliver) ≡ false
      → All (λ d. 0 < d) (map to_natural delays)
      → IsResolved {Bytes = Bytes} {Event = Event} {Outside = Outside} (record {
        stream = config.stream;
        durable_name = config.durable_name;
        filter_subject = config.filter_subject;
        dead_letter_subject = config.dead_letter_subject;
        decode = config.decode;
        get_event_id = config.get_event_id;
        handle_event = config.handle_event;
        max_deliver = to_natural max_deliver;
        ack_wait_ms = wait;
        max_ack_pending = pending;
        retry_delays_ms = map to_natural delays;
      })
  resolved delays max_deliver named delivers waits pulls sized positive =
      let (a, b, c, d) = names-fail _ _ _ _ named in
      record {
        named = (
          ne_of_is_empty config.stream a,
          ne_of_is_empty config.durable_name b,
          ne_of_is_empty config.filter_subject c,
          ne_of_is_empty config.dead_letter_subject d,
        );
        delivers = to_natural-positive max_deliver delivers;
        waits = waits;
        pulls = pulls;
        has_delay = ground (arith, length-map to_natural delays, sized);
        few_delays = ground (arith, length-map to_natural delays, sized);
        positive_delays = positive;
      }

  -- `resolveConfig` returns only a configuration that the consumer can work with: no name is empty,
  -- `maxDeliver`, `ackWaitMs` and `maxAckPending` are positive, and there are between one and
  -- `maxDeliver` delays, all positive. In any case it has no effect.
  pub resolve_config-resolves :
      {S : Type 0} (s : S)
      → Ensures
          (λ resolved s'. IsResolved resolved × (s' ≡ s))
          (λ e s'. s' ≡ s)
          (resolve_config config s)
  unfolding resolve_config
  resolve_config-resolves s =
      let max_deliver = or_default config.max_deliver (whole default_max_deliver) in
      let delays = or_default config.retry_delays_ms (default_delays max_deliver) in
      elim (Bool-cases (
        is_empty config.stream
        || is_empty config.durable_name
        || is_empty config.filter_subject
        || is_empty config.dead_letter_subject)) [
          | inl bad ↦ rw bad (throws refl)
          | inr named ↦
              elim (Bool-cases (not (is_safe_integer max_deliver) || is_below_one max_deliver)) [
                | inl bad ↦ rw (named, bad) (throws refl)
                | inr delivers ↦
                    elim (Bool-cases (length delays == 0 || exceeds (length delays) max_deliver)) [
                      | inl bad ↦ rw (named, delivers, bad) (throws refl)
                      | inr sized ↦
                          rw (named, delivers, sized)
                            (and_then-Ensures _ (check_delays-Ensures delays s)
                              (λ _ s₁ (positive, same₁). rw same₁ (
                                and_then-Ensures _
                                  (positive_integer-Ensures
                                    (or_default config.ack_wait_ms (whole default_ack_wait_ms))
                                    "ackWaitMs" s)
                                  (λ wait s₂ (waits, same₂). rw same₂ (
                                    and_then-Ensures _
                                      (positive_integer-Ensures
                                        (or_default config.max_ack_pending
                                          (whole default_max_ack_pending))
                                        "maxAckPending" s)
                                      (λ pending s₃ (pulls, same₃). rw same₃ (
                                        returns (
                                          resolved delays max_deliver named delivers waits pulls
                                              sized positive,
                                          refl,
                                        )))
                                      (λ e s₃ same₃. same₃)))
                                  (λ e s₂ same₂. same₂)))
                              (λ e s₁ same₁. same₁))
                    ]
              ]
        ]

get_elem?-All :
    {P : ℕ → Type 0} (xs : List ℕ) (i : ℕ)
    → i < length xs
    → All P xs
    → (x : ℕ) × (get_elem? xs i ≡ some x) × P x
get_elem?-All [] i h p = ground (arith, h)
get_elem?-All (x ∷ xs) zero h (p, ps) = (x, refl, p)
get_elem?-All (x ∷ xs) (suc i) h (p, ps) = get_elem?-All xs i (omega (arith, h)) ps

-- The delay before a redelivery, with a configuration that the consumer can work with. After the
-- failure of delivery number `n + 1` there is a delay, it is positive, it is the configured one
-- with that number, and the last one if there are not so many.
pub retry_delay_at-IsScheduled :
    {Bytes Event Outside : Type 0} (config : ResolvedConsumerConfig Bytes Event Outside) (n : ℕ)
    → IsResolved config
    → (d : ℕ) × (retry_delay_at config.retry_delays_ms (suc n) ≡ some d)
      × (0 < d)
      × (n < length config.retry_delays_ms → get_elem? config.retry_delays_ms n ≡ some d)
      × (length config.retry_delays_ms ≤ n
          → get_elem? config.retry_delays_ms (length config.retry_delays_ms - 1) ≡ some d)
retry_delay_at-IsScheduled config n r =
    let delays = config.retry_delays_ms in
    let (d, found, positive) =
      get_elem?-All {P = λ d. 0 < d} delays (min n (length delays - 1)) (omega (arith, r.has_delay))
        r.positive_delays in
    (
      d,
      found,
      positive,
      (λ h. ap (get_elem? delays) (omega (arith, h)) ∙ found),
      (λ h. ap (get_elem? delays) (omega (arith, h)) ∙ found),
    )

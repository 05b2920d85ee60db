-- ===== src/Messaging/Consumer/Binding.antt =====
-- `ensureDurableConsumer` of consumer.ts: a consumer that is there is checked and used, and one that
-- is not there is created. The JetStream manager of the NATS client is a parameter.
use trams_assignment.Base.{
  ℕ, ◌*◌, ◌≡◌, ap, inl, inr, Bool, true, ◌&&◌, Bool-cases, List, map, String, count_text, str_eq,
  eq_iff, append_text, if◌then◌else◌, M, ok, err, ret, throw, ◌>>=◌, ◌>>◌, try_catch, arith,
  Ensures, returns, throws, and_then-Ensures, or_else-Ensures, Ensures-weaken, Ensures-result,
}
use text.Mathlib.TextLemmas.{length-append}
use trams_assignment.Database.{Fault, error}
use trams_assignment.Messaging.Consumer.{ResolvedConsumerConfig}

-- What the code reads of a consumer that is there: whether its messages are acknowledged
-- explicitly, and its filter.
pub record ConsumerInfo : Type 0 where
  pub is_explicit : Bool
  pub filter_subject : String

-- The options of a new consumer, which acknowledges explicitly and delivers all messages. Times are
-- nanoseconds.
pub record ConsumerOptions : Type 0 where
  pub durable_name : String
  pub filter_subject : String
  pub ack_wait : ℕ
  pub max_deliver : ℕ
  pub max_ack_pending : ℕ
  pub backoff : List ℕ

pub record ConsumerManager (Net Handle : Type 0) : Type 0 where
  pub info : String → String → M Net Fault ConsumerInfo
  pub add : String → ConsumerOptions → M Net Fault (Unit {0})
  pub get : String → String → M Net Fault Handle

-- `nanos(milliseconds)` of the client
abbrev pub nanos : ℕ → ℕ
nanos milliseconds = milliseconds * 1000000

abbrev pub is_consumer_not_found : Fault → Bool
is_consumer_not_found e = str_eq e.message "consumer not found"

-- The error of an incompatible consumer is not that of one that is not found.
not_own :
    (name : String)
    → is_consumer_not_found (
        error
          (append_text "Durable consumer " (append_text name " has an incompatible configuration")))
      ≡ true
    → ⊥
not_own name h =
    let tail : String = " has an incompatible configuration" in
    let text = append_text "Durable consumer " (append_text name tail) in
    absurd (
      omega (
        arith,
        ap count_text ((eq_iff text "consumer not found").0 h),
        length-append "Durable consumer " (append_text name tail),
        length-append name tail,
      ))

module _ {Net Handle Bytes Event Outside : Type 0} (manager : ConsumerManager Net Handle)
    (config : ResolvedConsumerConfig Bytes Event Outside) where
  abbrev pub new_consumer : ConsumerOptions
  new_consumer = record {
    durable_name = config.durable_name;
    filter_subject = config.filter_subject;
    ack_wait = nanos config.ack_wait_ms;
    max_deliver = config.max_deliver;
    max_ack_pending = config.max_ack_pending;
    backoff = map nanos config.retry_delays_ms;
  }

  abbrev pub is_compatible : ConsumerInfo → Bool
  is_compatible existing =
      existing.is_explicit && str_eq existing.filter_subject config.filter_subject

  -- The inner `try`: a consumer that could not be added may have been added by another replica.
  abbrev pub add_or_find : M Net Fault (Unit {0})
  add_or_find = try_catch (manager.add config.stream new_consumer) (λ create_error.
      try_catch (manager.info config.stream config.durable_name >>= (λ existing. ret tt))
        (λ e. throw create_error))

  abbrev pub check_existing : M Net Fault (Unit {0})
  check_existing = manager.info config.stream config.durable_name >>= (λ existing.
      if is_compatible existing
      then ret tt
      else throw (
          error (
            append_text "Durable consumer "
              (append_text config.durable_name " has an incompatible configuration"))))

  unfoldable pub ensure_durable_consumer : M Net Fault Handle
  ensure_durable_consumer =
      try_catch check_existing (λ e. if is_consumer_not_found e then add_or_find else throw e)
      >> manager.get config.stream config.durable_name

  abbrev pub describe : M Net Fault ConsumerInfo
  describe = manager.info config.stream config.durable_name

  -- Why the consumer may be bound: it was there and fits; or the server has said that it is not there,
  -- and has then created it as configured; or it has said so, has not created it, and has it after that.
  pub data IsBound (b : Net) : Type 0 where
    compatible :
        {existing : ConsumerInfo} {b' : Net}
        → describe b ≡ (ok existing, b')
        → existing.is_explicit ≡ true
        → existing.filter_subject ≡ config.filter_subject
        → IsBound b
    created :
        {lost : Fault} {b₁ b₂ : Net}
        → describe b ≡ (err lost, b₁)
        → lost.message ≡ "consumer not found"
        → manager.add config.stream new_consumer b₁ ≡ (ok tt, b₂)
        → IsBound b
    found :
        {lost e : Fault} {existing : ConsumerInfo} {b₁ b₂ b₃ : Net}
        → describe b ≡ (err lost, b₁)
        → lost.message ≡ "consumer not found"
        → manager.add config.stream new_consumer b₁ ≡ (err e, b₂)
        → describe b₂ ≡ (ok existing, b₃)
        → IsBound b

  fits :
      (existing : ConsumerInfo)
      → is_compatible existing ≡ true
      → (existing.is_explicit ≡ true) × (existing.filter_subject ≡ config.filter_subject)
  fits existing h = ground (arith, eq_iff existing.filter_subject config.filter_subject)

  -- What a failed check says: either the server has no such consumer, or it is another error.
  abbrev IsUnchecked : Net → Fault → Net → Type 0
  IsUnchecked b e b' = is_consumer_not_found e ≡ true → describe b ≡ (err e, b')

  check_existing-Ensures :
      (b : Net) → Ensures (λ _ b'. IsBound b) (λ e b'. IsUnchecked b e b') (check_existing b)
  check_existing-Ensures b =
      and_then-Ensures _ (Ensures-result (describe b))
        (λ existing b₁ is. elim (Bool-cases (is_compatible existing)) [
          | inl good ↦
              rw good (returns (compatible is (fits existing good).0 (fits existing good).1))
          | inr bad ↦ rw bad (throws (λ h. absurd (not_own config.durable_name h)))
        ])
        (λ e b₁ is h. is)

  add_or_find-Ensures :
      (b₀ b : Net) (lost : Fault)
      → describe b₀ ≡ (err lost, b)
      → lost.message ≡ "consumer not found"
      → Ensures (λ _ b'. IsBound b₀) (λ e b'. Unit) (add_or_find b)
  add_or_find-Ensures b₀ b lost is_lost says =
      or_else-Ensures _ (Ensures-result (manager.add config.stream new_consumer b))
        (λ _ b₁ added. created is_lost says added)
        (λ e b₁ failed.
          or_else-Ensures {P = λ _ b'. IsBound b₀} {Q = λ e' b'. Unit} _
            (and_then-Ensures _ (Ensures-result (describe b₁))
              (λ existing b₂ is. returns (found is_lost says failed is)) (λ e' b₂ is. tt))
            (λ _ b₂ p. p) (λ e' b₂ q. throws tt))

  -- `ensureDurableConsumer` returns a handle only if the consumer was there with explicit
  -- acknowledgement and the filter configured, or the server has answered that the consumer is not
  -- found, and has then created it as configured, or has refused to and had the consumer afterwards.
  pub ensure_durable_consumer-IsBound :
      (b : Net) → Ensures (λ handle b'. IsBound b) (λ e b'. Unit) (ensure_durable_consumer b)
  unfolding ensure_durable_consumer
  ensure_durable_consumer-IsBound b =
      and_then-Ensures {P = λ _ b₁. IsBound b} {Q = λ e b₁. Unit} _
        (or_else-Ensures _ (check_existing-Ensures b) (λ _ b₁ p. p)
          (λ e b₁ q. elim (Bool-cases (is_consumer_not_found e)) [
            | inl lost ↦ rw lost (
                add_or_find-Ensures b b₁ e (q lost)
                  ((eq_iff e.message "consumer not found").0 lost))
            | inr other ↦ rw other (throws tt)
          ]))
        (λ _ b₁ p. Ensures-weaken (λ handle b₂ q. p) (λ e b₂ q. tt) (Ensures-result _))
        (λ e b₁ q. tt)

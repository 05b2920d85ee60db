-- ===== src/Messaging/Consumer.antt =====
-- libs/messaging/src/pub-sub/consumer.ts, without its log. A message and the durable consumers of
-- the server belong to the NATS client, a parameter: `Messages` are the replies to a message, and
-- `ConsumerManager` the consumers of a stream.
pub mod Config
pub mod Processing
pub mod Binding
pub mod Starting
use trams_assignment.Base.{
  ℕ, zero, suc, ◌-◌, ◌≡◌, Bool, true, false, ◌||◌, not, Option, none, some, List, [], ◌∷◌, String,
  length, get_elem?, take, map, str_eq, append_text, take_text, to_text, ltb, leb, min, ◌==◌,
  if◌then◌else◌, is_text, M, Result, ok, err, ret, throw, ◌>>=◌, ◌>>◌, try_catch, Ensures, Number,
  whole, negative, not_whole, is_safe_integer, or_default,
}
use trams_assignment.Database.{Fault, error}
use trams_assignment.Messaging.Publisher.{
  Jetstream, SendOptions, publish_raw, is_empty, is_bad_timeout, is_not_positive, to_natural,
}

pub record DurableConsumerConfig (Bytes Event Outside : Type 0) : Type 0 where
  pub stream : String
  pub durable_name : String
  pub filter_subject : String
  pub dead_letter_subject : String
  pub decode : Bytes → Result Fault Event
  pub get_event_id : Event → String
  pub handle_event : Event → M Outside Fault (Unit {0})
  pub max_deliver : Option Number
  pub ack_wait_ms : Option Number
  pub max_ack_pending : Option Number
  pub retry_delays_ms : Option (List Number)

pub record ResolvedConsumerConfig (Bytes Event Outside : Type 0) : Type 0 where
  pub stream : String
  pub durable_name : String
  pub filter_subject : String
  pub dead_letter_subject : String
  pub decode : Bytes → Result Fault Event
  pub get_event_id : Event → String
  pub handle_event : Event → M Outside Fault (Unit {0})
  pub max_deliver : ℕ
  pub ack_wait_ms : ℕ
  pub max_ack_pending : ℕ
  pub retry_delays_ms : List ℕ

abbrev pub default_max_deliver : ℕ
default_max_deliver = 5

abbrev pub default_ack_wait_ms : ℕ
default_ack_wait_ms = 30000

abbrev pub default_max_ack_pending : ℕ
default_max_ack_pending = 10

abbrev pub default_retry_delays_ms : List Number
default_retry_delays_ms = whole 1000 ∷ whole 5000 ∷ whole 30000 ∷ whole 300000 ∷ whole 900000 ∷ []

-- `DEFAULT_RETRY_DELAYS_MS.slice(0, maxDeliver)`, where a negative number counts from the end. A
-- number that is not whole is refused before the delays are looked at.
abbrev pub default_delays : Number → List Number
default_delays (whole n) = take n default_retry_delays_ms
default_delays (negative n) = take (4 - n) default_retry_delays_ms
default_delays not_whole = []

-- `value < 1`
abbrev pub is_below_one : Number → Bool
is_below_one (whole n) = ltb n 1
is_below_one (negative n) = true
is_below_one not_whole = false

-- `count > maxDeliver`, where `maxDeliver` is a positive integer.
abbrev pub exceeds : ℕ → Number → Bool
exceeds n limit = ltb (to_natural limit) n

unfoldable pub positive_integer : {S : Type 0} → Number → String → M S Fault ℕ
positive_integer value name =
    if not (is_safe_integer value) || is_below_one value
    then throw (error (append_text name " must be a positive integer"))
    else ret (to_natural value)

-- The loop over the delays, which throws at the first that is refused.
unfoldable pub check_delays : {S : Type 0} → List Number → M S Fault (Unit {0})
check_delays [] = ret tt
check_delays (delay ∷ delays) =
    let rest = check_delays delays in
    if not (is_safe_integer delay) || is_not_positive delay
    then throw (error "Each retry delay must be a positive integer in milliseconds")
    else rest

module _ {Bytes Event Outside : Type 0} where
  unfoldable pub resolve_config :
      {S : Type 0}
      → DurableConsumerConfig Bytes Event Outside
      → M S Fault (ResolvedConsumerConfig Bytes Event Outside)
  unfolding positive_integer check_delays
  resolve_config config =
      let max_deliver = or_default config.max_deliver (whole default_max_deliver) in
      let delays = or_default config.retry_delays_ms (default_delays max_deliver) in
      if is_empty config.stream
        || is_empty config.durable_name
        || is_empty config.filter_subject
        || is_empty config.dead_letter_subject
      then throw
          (error "Stream, durable name, filter subject, and dead-letter subject are required")
      else if not (is_safe_integer max_deliver) || is_below_one max_deliver
      then throw (error "maxDeliver must be a positive integer")
      else if length delays == 0 || exceeds (length delays) max_deliver
      then throw (error "retryDelaysMs must contain between 1 and maxDeliver delays")
      else (do
        _ ← check_delays delays
        ack_wait_ms ←
            positive_integer (or_default config.ack_wait_ms (whole default_ack_wait_ms)) "ackWaitMs"
        max_ack_pending ←
            positive_integer (or_default config.max_ack_pending (whole default_max_ack_pending))
              "maxAckPending"
        ret (record {
          stream = config.stream;
          durable_name = config.durable_name;
          filter_subject = config.filter_subject;
          dead_letter_subject = config.dead_letter_subject;
          decode = config.decode;
          get_event_id = config.get_event_id;
          handle_event = config.handle_event;
          max_deliver = to_natural max_deliver;
          ack_wait_ms = ack_wait_ms;
          max_ack_pending = max_ack_pending;
          retry_delays_ms = map to_natural delays;
        }))

-- What the consumer reads of a JetStream message.
pub record JsMsg (Bytes : Type 0) : Type 0 where
  pub subject : String
  pub bytes : Bytes
  pub delivery_count : ℕ
  pub stream_sequence : ℕ

-- message.ack(), message.term() and message.nak(delay).
pub data Reply : Type 0 where
  acked : Reply
  terminated : Reply
  delayed : Option ℕ → Reply

-- The replies that the client has sent, the latest first, each with the sequence number of its
-- message. A reply that throws has not been sent, and a publication is no reply.
pub record Messages (Net Bytes : Type 0) (js : Jetstream Net Bytes) : Type 0 where
  pub replies : Net → List (ℕ × Reply)
  pub reply : ℕ → Reply → M Net Fault (Unit {0})
  pub reply_law :
      (sequence : ℕ) (r : Reply) (w : Net)
      → Ensures
          (λ _ w'. replies w' ≡ (sequence, r) ∷ replies w)
          (λ e w'. replies w' ≡ replies w)
          (reply sequence r w)
  pub publish_law :
      (subject : String) (bytes : Bytes) (options : SendOptions) (w : Net)
      → Ensures
          (λ _ w'. replies w' ≡ replies w)
          (λ e w'. replies w' ≡ replies w)
          (js.publish subject bytes options w)

-- The state of a running consumer: the connection, and what its handler works on.
pub record Session (Net Outside : Type 0) : Type 0 where
  pub net : Net
  pub outside : Outside

-- `config.retryDelaysMs[Math.min(deliveryCount - 1, config.retryDelaysMs.length - 1)]`; there is no
-- element at -1.
abbrev pub retry_delay_at : List ℕ → ℕ → Option ℕ
retry_delay_at delays zero = none
retry_delay_at delays (suc n) = get_elem? delays (min n (length delays - 1))

-- `!text` for a text that may be missing.
abbrev pub is_falsy : Option String → Bool
is_falsy none = true
is_falsy (some s) = is_empty s

module _ {Net Outside : Type 0} where
  abbrev pub in_net {ℓ} : {A : Type ℓ} → M Net Fault A → M (Session Net Outside) Fault A
  in_net m s = ((m s.net).0, record s { net = (m s.net).1 })

  abbrev pub in_handler {ℓ} : {A : Type ℓ} → M Outside Fault A → M (Session Net Outside) Fault A
  in_handler m s = ((m s.outside).0, record s { outside = (m s.outside).1 })

module _ {Net Bytes Event Outside : Type 0} {js : Jetstream Net Bytes}
    (messages : Messages Net Bytes js) (config : ResolvedConsumerConfig Bytes Event Outside) where
  -- The headers that `publishDeadLetter` sets.
  abbrev pub dead_letter_headers : JsMsg Bytes → Fault → Option String → List (String × String)
  dead_letter_headers message e event_id =
      ("Trams-Dlq-Reason", (if is_falsy event_id then "malformed" else "processing-failed"))
      ∷ ("Trams-Original-Subject", message.subject)
      ∷ ("Trams-Source-Stream", config.stream)
      ∷ ("Trams-Source-Sequence", to_text message.stream_sequence)
      ∷ ("Trams-Consumer", config.durable_name)
      ∷ ("Trams-Delivery-Count", to_text message.delivery_count)
      ∷ ("Trams-Error", take_text 1000 e.message)
      ∷ (if is_falsy event_id then [] else (("Trams-Event-Id", or_default event_id "") ∷ []))

  unfoldable pub publish_dead_letter : JsMsg Bytes → Fault → Option String → M Net Fault (Unit {0})
  publish_dead_letter message e event_id = publish_raw js (record {
    subject = config.dead_letter_subject;
    message_id =
        append_text "dlq:"
          (append_text config.stream (append_text ":" (to_text message.stream_sequence)));
    bytes = message.bytes;
    headers = some (dead_letter_headers message e event_id);
    timeout_ms = none;
  })

  -- message.nak(retryDelay)
  abbrev pub redeliver : JsMsg Bytes → M Net Fault (Unit {0})
  redeliver message =
      messages.reply message.stream_sequence
        (delayed (retry_delay_at config.retry_delays_ms message.delivery_count))

  unfoldable pub handle_failure : JsMsg Bytes → Event → Fault → M Net Fault (Unit {0})
  handle_failure message event e =
      if leb config.max_deliver message.delivery_count
      then try_catch
          (publish_dead_letter message e (some (config.get_event_id event))
            >> messages.reply message.stream_sequence terminated)
          (λ dead_letter_error. redeliver message)
      else redeliver message

  unfoldable pub preserve_malformed_message : JsMsg Bytes → Fault → M Net Fault (Unit {0})
  preserve_malformed_message message e =
      try_catch
        (publish_dead_letter message e none >> messages.reply message.stream_sequence terminated)
        (λ dead_letter_error. redeliver message)

  -- The body of the loop of `processMessages`, from where the message is decoded.
  unfoldable pub process_decoded :
      JsMsg Bytes → Result Fault Event → M (Session Net Outside) Fault (Unit {0})
  process_decoded message (err e) = in_net (preserve_malformed_message message e)
  process_decoded message (ok event) =
      try_catch
        (in_handler (config.handle_event event)
          >> in_net (messages.reply message.stream_sequence acked))
        (λ e. in_net (handle_failure message event e))

  unfoldable pub process_message : JsMsg Bytes → M (Session Net Outside) Fault (Unit {0})
  unfolding process_decoded
  process_message message = process_decoded message (config.decode message.bytes)

  -- `processMessages` on the messages that the iterator yields before it ends.
  unfoldable pub process_messages : List (JsMsg Bytes) → M (Session Net Outside) Fault (Unit {0})
  unfolding process_message
  process_messages [] = ret tt
  process_messages (message ∷ rest) = process_message message >> process_messages rest

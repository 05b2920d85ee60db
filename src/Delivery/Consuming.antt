-- ===== src/Delivery/Consuming.antt =====
-- The consumer of user events, apps/notification-service/src/consumers/user-events.consumer.ts, with
-- `handleUserCreated` as its handler. The JSON codec and the zod schema are parameters: `decode_json`
-- and `safe_parse`, which returns what does not fit.
use trams_assignment.Base.{
  ◌≡◌, sym, ap, ◌∙◌, ◌⊎◌, inl, inr, Option, List, String, append_text, M, Result, ok, err, Ensures,
  Ensures-weaken, of_ok, subst, Number,
}
use trams_assignment.Contracts.{
  UserCreatedEvent, user_events_stream, user_created, user_events_dead_letter,
}
use trams_assignment.Database.{Fault, error, Table}
use trams_assignment.Database.Rows.{IsKeyed}
use trams_assignment.Messaging.Publisher.{Jetstream}
use trams_assignment.Messaging.Consumer.{
  ResolvedConsumerConfig, JsMsg, acked, Messages, Session, resolve_config, process_message,
}
use trams_assignment.Messaging.Consumer.Processing.{
  IsReplied, IsPreserved, IsDelayed, process_message-Ensures,
}
use trams_assignment.Delivery.{
  NotificationDelivery, delivery_id, delivery_repository, NotificationChannel, ServiceState,
  handle_user_created,
}
use trams_assignment.Delivery.Handling.{IsDelivered, handle_user_created-delivers}

-- The part of the configuration that the service gives.
pub record UserCreatedConsumerConfig : Type 0 where
  pub durable_name : String
  pub max_deliver : Option Number
  pub ack_wait_ms : Option Number
  pub max_ack_pending : Option Number
  pub retry_delays_ms : Option (List Number)

module _ {Bytes Json : Type 0} (decode_json : Bytes → Result Fault Json)
    (safe_parse : Json → Result String UserCreatedEvent) where
  abbrev pub parsed_event : Result String UserCreatedEvent → Result Fault UserCreatedEvent
  parsed_event (ok event) = ok event
  parsed_event (err message) = err (error (append_text "Invalid user.created event: " message))

  abbrev pub decoded_json : Result Fault Json → Result Fault UserCreatedEvent
  decoded_json (ok value) = parsed_event (safe_parse value)
  decoded_json (err e) = err e

  unfoldable pub decode_user_created_event : Bytes → Result Fault UserCreatedEvent
  decode_user_created_event bytes = decoded_json (decode_json bytes)

  -- The configuration with which `startCreated` starts the consumer, once `resolveConfig` has
  -- accepted it.
  unfoldable pub start_created :
      {Outside S : Type 0}
      → UserCreatedConsumerConfig
      → (UserCreatedEvent → M Outside Fault (Unit {0}))
      → M S Fault (ResolvedConsumerConfig Bytes UserCreatedEvent Outside)
  unfolding decode_user_created_event
  start_created config handle_event = resolve_config (record {
    stream = user_events_stream;
    durable_name = config.durable_name;
    filter_subject = user_created;
    dead_letter_subject = user_events_dead_letter;
    decode = decode_user_created_event;
    get_event_id = λ event. event.event_id;
    handle_event = handle_event;
    max_deliver = config.max_deliver;
    ack_wait_ms = config.ack_wait_ms;
    max_ack_pending = config.max_ack_pending;
    retry_delays_ms = config.retry_delays_ms;
  })

module _ {Db Outside Net Bytes : Type 0} (t : Table Db NotificationDelivery delivery_id)
    (channel : NotificationChannel Outside) (option : Option Number) {js : Jetstream Net Bytes}
    (messages : Messages Net Bytes js)
    (config : ResolvedConsumerConfig Bytes UserCreatedEvent (ServiceState Db Outside))
    (message : JsMsg Bytes) where
  -- The message was acknowledged, and the notification of its event is recorded as sent.
  pub record IsConsumed (s s' : Session Net (ServiceState Db Outside)) : Type 0 where
    pub event : UserCreatedEvent
    pub decoded : config.decode message.bytes ≡ ok event
    pub delivered : IsDelivered t channel option event s.outside s'.outside
    pub replied : IsReplied messages config message acked s.net s'.net

  -- The consumer with the service as its handler, on a table whose event ids are unique, with a
  -- claim token for the call. If the consumer goes on after a message, then one of three things has
  -- happened. The message was acknowledged, and then the notification of its event is recorded as
  -- sent. Or it was terminated, and then the broker has acknowledged a dead letter with its bytes.
  -- Or a redelivery after the configured delay was asked for. If the consumer stops, the message
  -- got no reply.
  pub process_message-delivers :
      (token : String) (s : Session Net (ServiceState Db Outside))
      → config.handle_event
        ≡ (λ event. handle_user_created (delivery_repository t) channel option event token)
      → IsKeyed delivery_id (t.rows s.outside.db)
      → Ensures
          (λ _ s'.
            IsConsumed s s'
            ⊎ (IsPreserved messages config message s s'
                ⊎ IsDelayed messages config message s.net s'.net))
          (λ _ s'. messages.replies s'.net ≡ messages.replies s.net)
          (process_message messages config message s)
  process_message-delivers token s handler v =
      Ensures-weaken
        (λ _ s' p. elim p [
          | inl h ↦ inl (record {
            event = h.event;
            decoded = h.decoded;
            delivered = of_ok (
                subst (Ensures _ _) (ap (λ f. f h.event s.outside) (sym handler) ∙ h.handled)
                  (handle_user_created-delivers t channel option h.event token s.outside v));
            replied = h.replied;
          })
          | inr rest ↦ inr rest
        ])
        (λ _ s' silent. silent) (process_message-Ensures messages config message s)

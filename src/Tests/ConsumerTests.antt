-- ===== src/Tests/ConsumerTests.antt =====
-- The consumer on a network that lists its dead letters and replies. Messages are texts, and only
-- "created" can be decoded.
use trams_assignment.Base.{
  ℕ, ◌≡◌, refl, ◌⊎◌, Bool, true, false, none, some, List, [], ◌∷◌, String, str_eq, if◌then◌else◌,
  Result, ok, err, of_ok, M, throw, returns, Ensures, throws,
}
use trams_assignment.Contracts.{UserCreatedEvent}
use trams_assignment.Database.{Fault, error}
use trams_assignment.Database.Memory.{Memory, memory_table}
use trams_assignment.Messaging.Publisher.{Jetstream, publish_raw}
use trams_assignment.Messaging.Consumer.{
  DurableConsumerConfig, ResolvedConsumerConfig, JsMsg, Reply, terminated, delayed, Messages,
  Session, resolve_config, publish_dead_letter, handle_failure, preserve_malformed_message,
  process_message, process_messages,
}
use trams_assignment.Messaging.Consumer.Config.{IsResolved, resolve_config-resolves}
use trams_assignment.Messaging.Consumer.Processing.{
  IsProcessed, IsPreserved, IsDelayed, process_message-Ensures,
}
use trams_assignment.Delivery.{
  claim, mark_sent, NotificationDelivery, delivery_id, delivery_repository, ServiceState,
  handle_user_created,
}
use trams_assignment.Delivery.Consuming.{start_created, IsConsumed, process_message-delivers}
use trams_assignment.Tests.OutboxTests.{sample_event}
use trams_assignment.Tests.DeliveryTests.{mailer, service, empty-IsKeyed}

pub record Network : Type 0 where
  dead_letters : List String
  replies : List (ℕ × Reply)
  is_down : Bool

abbrev network : Bool → Network
network is_down = record { dead_letters = []; replies = []; is_down = is_down }

-- When the network is down nothing is stored, and replies still go out.
abbrev store : Bool → String → Network → Result Fault (Unit {0}) × Network
store true id n = (err (error "503"), n)
store false id n = (ok tt, record n { dead_letters = id ∷ n.dead_letters })

abbrev pub js : Jetstream Network String
js = record { publish = λ subject bytes options n. store n.is_down options.msg_id n }

pub store-replies :
    (is_down : Bool) (id : String) (n : Network)
    → Ensures
        (λ (_ : Unit {0}) n'. n'.replies ≡ n.replies)
        (λ (e : Fault) n'. n'.replies ≡ n.replies)
        (store is_down id n)
store-replies true id n = throws refl
store-replies false id n = returns refl

abbrev pub messages : Messages Network String js
messages = record {
  replies = λ n. n.replies;
  reply = λ sequence r n. (ok tt, record n { replies = (sequence, r) ∷ n.replies });
  reply_law = λ sequence r n. returns refl;
  publish_law = λ subject bytes options n. store-replies n.is_down options.msg_id n;
}

abbrev pub decode : String → Result Fault UserCreatedEvent
decode text = if str_eq text "created" then ok sample_event else err (error "malformed")

module _ {Outside : Type 0} (handle_event : UserCreatedEvent → M Outside Fault (Unit {0})) where
  abbrev pub resolved : ResolvedConsumerConfig String UserCreatedEvent Outside
  resolved = record {
    stream = "USER_EVENTS";
    durable_name = "notifications";
    filter_subject = "user.created";
    dead_letter_subject = "user.events.dlq";
    decode = decode;
    get_event_id = λ event. event.event_id;
    handle_event = handle_event;
    max_deliver = 5;
    ack_wait_ms = 30000;
    max_ack_pending = 10;
    retry_delays_ms = 1000 ∷ 5000 ∷ 30000 ∷ 300000 ∷ 900000 ∷ [];
  }

abbrev message : String → ℕ → JsMsg String
message text count = record {
  subject = "user.created";
  bytes = text;
  delivery_count = count;
  stream_sequence = 17;
}

abbrev pub failing : UserCreatedEvent → M ℕ Fault (Unit {0})
failing event = throw (error "unavailable")

abbrev session : Bool → Session Network ℕ
session is_down = record { net = network is_down; outside = 0 }

-- The first failure is retried after a second; the last one ends in the dead-letter queue, or, if
-- that cannot be reached, in the longest delay.
failures_run :
    let replies = λ (is_down : Bool) (count : ℕ).
      (process_message messages
        (resolved failing)
        (message "created" count)
        (session is_down)).1.net.replies in
    (replies false 1 ≡ (17, delayed (some 1000)) ∷ [])
    × (replies false 5 ≡ (17, terminated) ∷ [])
    × (replies true 5 ≡ (17, delayed (some 900000)) ∷ [])
unfolding process_message publish_raw handle_failure publish_dead_letter
failures_run = (refl, refl, refl)

malformed_run :
    (process_messages messages
      (resolved failing)
      (message "{" 1 ∷ [])
      (session false)).1.net.dead_letters
    ≡ "dlq:USER_EVENTS:17" ∷ []
unfolding process_messages publish_raw preserve_malformed_message publish_dead_letter
malformed_run = refl

process_message-Ensures_example :
    IsProcessed messages
      (resolved failing)
      (message "created" 5)
      (session false)
      (process_message messages (resolved failing) (message "created" 5) (session false)).1
unfolding process_message publish_raw handle_failure publish_dead_letter
process_message-Ensures_example =
    of_ok
      (process_message-Ensures messages (resolved failing) (message "created" 5) (session false))

abbrev notify :
    UserCreatedEvent → M (ServiceState (Memory NotificationDelivery) (List String)) Fault (Unit {0})
notify event =
    handle_user_created (delivery_repository (memory_table delivery_id)) mailer none event "t1"

abbrev started : Session Network (ServiceState (Memory NotificationDelivery) (List String))
started = record { net = network false; outside = service [] }

process_message-delivers_example :
    let after = (process_message messages (resolved notify) (message "created" 1) started).1 in
    IsConsumed
      (memory_table delivery_id)
      mailer
      none
      messages
      (resolved notify)
      (message "created" 1)
      started
      after
    ⊎ (IsPreserved messages (resolved notify) (message "created" 1) started after
        ⊎ IsDelayed messages (resolved notify) (message "created" 1) started.net after.net)
unfolding process_message handle_user_created claim mark_sent publish_raw handle_failure
    publish_dead_letter
process_message-delivers_example = of_ok (
    process_message-delivers (memory_table delivery_id) mailer none messages (resolved notify)
      (message "created" 1) "t1" started refl empty-IsKeyed)

-- A configuration that leaves everything that it can to the defaults.
abbrev plain : DurableConsumerConfig String UserCreatedEvent ℕ
plain = record {
  stream = "USER_EVENTS";
  durable_name = "notifications";
  filter_subject = "user.created";
  dead_letter_subject = "user.events.dlq";
  decode = decode;
  get_event_id = λ event. event.event_id;
  handle_event = failing;
  max_deliver = none;
  ack_wait_ms = none;
  max_ack_pending = none;
  retry_delays_ms = none;
}

resolve_config-resolves_example : IsResolved (resolved failing) × (◌≡◌ {A = Unit {0}} tt tt)
unfolding resolve_config
resolve_config-resolves_example = of_ok (resolve_config-resolves plain tt)

start_created_run :
    (start_created {Json = String}
      (λ text. ok text)
      (λ text. ok sample_event)
      (record {
        durable_name = "";
        max_deliver = none;
        ack_wait_ms = none;
        max_ack_pending = none;
        retry_delays_ms = none;
      })
      failing
      tt).0
    ≡ err (error "Stream, durable name, filter subject, and dead-letter subject are required")
unfolding start_created resolve_config
start_created_run = refl

-- ===== src/Delivery.antt =====
-- The deliveries of the notification service:
-- apps/notification-service/src/repositories/notification-delivery.repository.ts and
-- services/notification.service.ts, with the model of its Prisma schema (less the two timestamps
-- that the database fills and no code reads). A new UUID is an argument, `claim_token`.
pub mod Claims
pub mod Exclusion
pub mod Settling
pub mod Handling
pub mod Consuming
use trams_assignment.Base.{
  ℕ, ◌+◌, ◌-◌, Bool, true, false, ◌&&◌, ◌||◌, not, Option, none, some, List, String, str_eq,
  append_text, take_text, ltb, leb, ◌==◌, if◌then◌else◌, is_null, earlier, is_text, M, Result, ok,
  err, ret, throw, ◌>>=◌, ◌>>◌, try_catch, and_then, Number, whole, negative, not_whole,
  is_safe_integer, or_default,
}
use trams_assignment.Contracts.{UserCreatedEvent}
use trams_assignment.Database.{Fault, error, unique_violation, Table}
use trams_assignment.Messaging.Publisher.{to_natural}

pub record NotificationDelivery : Type 0 where
  pub event_id : String
  pub channel : String
  pub user_id : String
  pub recipient : String
  pub attempts : ℕ
  pub claimed_at : Option ℕ
  pub claim_token : Option String
  pub sent_at : Option ℕ
  pub last_error : Option String

abbrev pub delivery_id : NotificationDelivery → String
delivery_id r = r.event_id

pub record NotificationDeliveryInput : Type 0 where
  pub event_id : String
  pub user_id : String
  pub recipient : String
  pub channel : String
  pub lease_duration_ms : ℕ

pub data NotificationDeliveryClaim : Type 0 where
  claimed : (claim_token : String) → NotificationDeliveryClaim
  already_sent : NotificationDeliveryClaim
  in_progress : NotificationDeliveryClaim

-- The row of a first claim.
abbrev pub new_delivery : NotificationDeliveryInput → String → ℕ → NotificationDelivery
new_delivery input claim_token now = record {
  event_id = input.event_id;
  channel = input.channel;
  user_id = input.user_id;
  recipient = input.recipient;
  attempts = 1;
  claimed_at = some now;
  claim_token = some claim_token;
  sent_at = none;
  last_error = none;
}

-- sentAt: null, OR: [{ claimedAt: null }, { claimedAt: { lt: staleBefore } }]
abbrev pub is_open : ℕ → NotificationDelivery → Bool
is_open stale_before r =
    is_null r.sent_at && (is_null r.claimed_at || earlier r.claimed_at stale_before)

abbrev pub set_claimed : String → ℕ → NotificationDelivery → NotificationDelivery
set_claimed claim_token now r = record r {
  attempts = r.attempts + 1;
  claimed_at = some now;
  claim_token = some claim_token;
  last_error = none;
}

-- `existing?.sentAt`, which is truthy if it is a date.
abbrev pub is_sent : Option NotificationDelivery → Bool
is_sent none = false
is_sent (some r) = not (is_null r.sent_at)

-- claimToken, sentAt: null
abbrev pub holds_claim : String → NotificationDelivery → Bool
holds_claim claim_token r = is_text r.claim_token claim_token && is_null r.sent_at

abbrev pub set_sent : ℕ → NotificationDelivery → NotificationDelivery
set_sent now r = record r {
  sent_at = some now;
  claimed_at = none;
  claim_token = none;
  last_error = none;
}

abbrev pub set_released : String → NotificationDelivery → NotificationDelivery
set_released message r = record r {
  claimed_at = none;
  claim_token = none;
  last_error = some message;
}

abbrev pub is_unique_event_id_error : Fault → Bool
is_unique_event_id_error e = is_text e.code unique_violation

assert_claim_was_owned : {World : Type 0} → ℕ → String → M World Fault (Unit {0})
assert_claim_was_owned updated_rows event_id =
    if updated_rows == 1
    then ret tt
    else throw (error (append_text "Notification delivery claim was lost for event " event_id))

module _ {World : Type 0} (t : Table World NotificationDelivery delivery_id) where
  -- The `try` of `claim`: whether the row is new.
  insert_new : NotificationDeliveryInput → String → M World Fault Bool
  insert_new input claim_token w =
      (try_catch (t.create (new_delivery input claim_token (t.clock w)) >> ret true)
          (λ e. if is_unique_event_id_error e then ret false else throw e))
        w

  -- `claim` from where the row is known to be there.
  claim_existing : NotificationDeliveryInput → String → ℕ → M World Fault NotificationDeliveryClaim
  claim_existing input claim_token now = do
    existing ← t.find_unique input.event_id
    if is_sent existing then ret already_sent else (do
      updated ←
          t.update_many
            (λ r. str_eq r.event_id input.event_id && is_open (now - input.lease_duration_ms) r)
            (set_claimed claim_token now)
      if updated == 1 then ret (claimed claim_token) else (do
        current ← t.find_unique input.event_id
        ret (if is_sent current then already_sent else in_progress)))

  unfoldable pub claim :
      NotificationDeliveryInput → String → M World Fault NotificationDeliveryClaim
  unfolding insert_new claim_existing
  claim input claim_token w = and_then (insert_new input claim_token w) (λ is_new.
      if is_new then ret (claimed claim_token) else claim_existing input claim_token (t.clock w))

  unfoldable pub mark_sent : String → String → M World Fault (Unit {0})
  unfolding assert_claim_was_owned
  mark_sent event_id claim_token w =
      and_then
        (t.update_many (λ r. str_eq r.event_id event_id && holds_claim claim_token r)
          (set_sent (t.clock w)) w)
        (λ updated. assert_claim_was_owned updated event_id)

  unfoldable pub mark_failed : String → String → String → M World Fault (Unit {0})
  unfolding assert_claim_was_owned
  mark_failed event_id claim_token message = do
    updated ←
        t.update_many (λ r. str_eq r.event_id event_id && holds_claim claim_token r)
          (set_released (take_text 2000 message))
    assert_claim_was_owned updated event_id

-- The interface that the service is written against. A claim takes the token that it would draw.
pub record NotificationDeliveryStore (World : Type 0) : Type 0 where
  pub claim : NotificationDeliveryInput → String → M World Fault NotificationDeliveryClaim
  pub mark_sent : String → String → M World Fault (Unit {0})
  pub mark_failed : String → String → String → M World Fault (Unit {0})

abbrev pub delivery_repository :
    {World : Type 0}
    → Table World NotificationDelivery delivery_id
    → NotificationDeliveryStore World
delivery_repository t = record {
  claim = claim t;
  mark_sent = mark_sent t;
  mark_failed = mark_failed t;
}

pub record WelcomeNotification : Type 0 where
  pub event_id : String
  pub user_id : String
  pub email : String
  pub name : Option String

-- A channel, with the idempotency key as its second argument.
pub record NotificationChannel (Outside : Type 0) : Type 0 where
  pub send_welcome : WelcomeNotification → String → M Outside Fault (Unit {0})

pub record ServiceState (Db Outside : Type 0) : Type 0 where
  pub db : Db
  pub outside : Outside

abbrev pub welcome_channel : String
welcome_channel = "welcome"

-- `value < 1_000`
abbrev pub is_below_second : Number → Bool
is_below_second (whole n) = ltb n 1000
is_below_second (negative n) = true
is_below_second not_whole = false

unfoldable pub lease_duration : {S : Type 0} → Option Number → M S Fault ℕ
lease_duration option =
    let value = or_default option (whole 60000) in
    if not (is_safe_integer value) || is_below_second value
    then throw (error "deliveryLeaseMs must be an integer of at least 1000ms")
    else ret (to_natural value)

module _ {Db Outside : Type 0} where
  abbrev pub in_db {ℓ} : {A : Type ℓ} → M Db Fault A → M (ServiceState Db Outside) Fault A
  in_db m s = ((m s.db).0, record s { db = (m s.db).1 })

  abbrev pub in_channel {ℓ} : {A : Type ℓ} → M Outside Fault A → M (ServiceState Db Outside) Fault A
  in_channel m s = ((m s.outside).0, record s { outside = (m s.outside).1 })

module _ {Db Outside : Type 0} (deliveries : NotificationDeliveryStore Db)
    (channel : NotificationChannel Outside) (lease_option : Option Number) where
  unfoldable pub send : UserCreatedEvent → M Outside Fault (Unit {0})
  send event =
      channel.send_welcome
        (record {
          event_id = event.event_id;
          user_id = event.payload.id;
          email = event.payload.email;
          name = event.payload.name;
        })
        event.event_id

  -- What `handleUserCreated` does with the answer to its claim.
  deliver :
      UserCreatedEvent → NotificationDeliveryClaim → M (ServiceState Db Outside) Fault (Unit {0})
  unfolding send
  deliver event already_sent = ret tt
  deliver event in_progress = throw (
      error (
        append_text "Notification delivery for event "
          (append_text event.event_id " is already in progress")))
  deliver event (claimed claim_token) = do
    try_catch (in_channel (send event))
        (λ e. in_db (deliveries.mark_failed event.event_id claim_token e.message) >> throw e)
    in_db (deliveries.mark_sent event.event_id claim_token)

  unfoldable pub handle_user_created :
      UserCreatedEvent → String → M (ServiceState Db Outside) Fault (Unit {0})
  unfolding lease_duration deliver
  handle_user_created event claim_token = do
    lease_duration_ms ← lease_duration lease_option
    answer ← in_db (
        deliveries.claim
          (record {
            event_id = event.event_id;
            user_id = event.payload.id;
            recipient = event.payload.email;
            channel = welcome_channel;
            lease_duration_ms = lease_duration_ms;
          })
          claim_token)
    deliver event answer

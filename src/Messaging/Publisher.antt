-- ===== src/Messaging/Publisher.antt =====
-- libs/messaging/src/pub-sub/publisher.ts. The NATS client is a parameter: `publish` sends bytes to
-- the broker and waits for the acknowledgement, and `encode` is its JSON codec.
use trams_assignment.Base.{
  ℕ, ◌<◌, ◌≡◌, ◌≢◌, refl, Bool, true, false, ◌||◌, not, Option, none, List, String, str_eq, eq_iff,
  if◌then◌else◌, leb, M, throw, Number, whole, negative, not_whole, is_safe_integer, or_default,
  arith, ◌⊎◌, err, inl, inr, Bool-cases,
}
use trams_assignment.Database.{Fault, error}

pub record SendOptions : Type 0 where
  pub msg_id : String
  pub timeout : ℕ
  pub headers : Option (List (String × String))

pub record Jetstream (Broker Bytes : Type 0) : Type 0 where
  pub publish : String → Bytes → SendOptions → M Broker Fault (Unit {0})

pub record PublishEventOptions (Payload : Type 0) : Type 0 where
  pub subject : String
  pub event_id : String
  pub payload : Payload
  pub timeout_ms : Option Number

pub record PublishRawOptions (Bytes : Type 0) : Type 0 where
  pub subject : String
  pub message_id : String
  pub bytes : Bytes
  pub headers : Option (List (String × String))
  pub timeout_ms : Option Number

abbrev pub default_publish_timeout_ms : ℕ
default_publish_timeout_ms = 5000

-- `!text`
abbrev pub is_empty : String → Bool
is_empty s = str_eq s ""

-- `value <= 0`
abbrev pub is_not_positive : Number → Bool
is_not_positive (whole n) = leb n 0
is_not_positive (negative n) = true
is_not_positive not_whole = false

-- The natural number that a value is once the checks have passed.
abbrev pub to_natural : Number → ℕ
to_natural (whole n) = n
to_natural (negative n) = 0
to_natural not_whole = 0

-- `!Number.isSafeInteger(timeoutMs) || timeoutMs <= 0`
abbrev pub is_bad_timeout : Number → Bool
is_bad_timeout value = not (is_safe_integer value) || is_not_positive value

to_natural-pos : (value : Number) → is_bad_timeout value ≡ false → 0 < to_natural value
to_natural-pos (whole n) h = ground arith
to_natural-pos (negative n) h = ground arith
to_natural-pos not_whole h = ground arith

pub ne_of_is_empty : (s : String) → is_empty s ≡ false → s ≢ ""
ne_of_is_empty s h e = ground (arith, eq_iff s "")

module _ {Broker Bytes : Type 0} (js : Jetstream Broker Bytes) where
  unfoldable pub publish_raw : PublishRawOptions Bytes → M Broker Fault (Unit {0})
  publish_raw options =
      let timeout_ms = or_default options.timeout_ms (whole default_publish_timeout_ms) in
      if is_empty options.subject
      then throw (error "A JetStream subject is required")
      else if is_empty options.message_id
      then throw (error "A stable message ID is required for JetStream publishing")
      else if is_bad_timeout timeout_ms
      then throw (error "Publish timeout must be a positive integer in milliseconds")
      else js.publish options.subject options.bytes (record {
        msg_id = options.message_id;
        timeout = to_natural timeout_ms;
        headers = options.headers;
      })

  unfoldable pub publish :
      {Payload : Type 0}
      → (Payload → Bytes)
      → PublishEventOptions Payload
      → M Broker Fault (Unit {0})
  unfolding publish_raw
  publish encode options =
      if is_empty options.subject
      then throw (error "A JetStream subject is required")
      else if is_empty options.event_id
      then throw (error "A stable event ID is required for JetStream publishing")
      else publish_raw (record {
        subject = options.subject;
        message_id = options.event_id;
        bytes = encode options.payload;
        headers = none;
        timeout_ms = options.timeout_ms;
      })

  -- The broker is reached only with a subject and a message id that are not empty and with a
  -- positive timeout, and then by one call with the subject, bytes and headers given and the id as
  -- its deduplication key; in every other case `publishRaw` throws and leaves the broker alone.
  pub publish_raw_cases :
      (options : PublishRawOptions Bytes) (b : Broker)
      → ((options.subject ≢ "")
          × (options.message_id ≢ "")
          × ((timeout : ℕ) × (0 < timeout)
              × (publish_raw options b
                  ≡ js.publish options.subject options.bytes
                      (record {
                        msg_id = options.message_id;
                        timeout = timeout;
                        headers = options.headers;
                      })
                      b)))
        ⊎ ((e : Fault) × (publish_raw options b ≡ (err e, b)))
  unfolding publish_raw
  publish_raw_cases options b = elim (Bool-cases (is_empty options.subject)) [
    | inl e ↦ rw (e, publish_raw) (inr (error "A JetStream subject is required", refl))
    | inr subject ↦ elim (Bool-cases (is_empty options.message_id)) [
      | inl e ↦
          rw (subject, e)
            (inr (error "A stable message ID is required for JetStream publishing", refl))
      | inr id ↦
          elim (Bool-cases
            (is_bad_timeout (or_default options.timeout_ms (whole default_publish_timeout_ms)))) [
              | inl e ↦
                  rw (subject, id, e)
                    (inr (error "Publish timeout must be a positive integer in milliseconds", refl))
              | inr timeout ↦
                  rw (subject, id, timeout)
                    (inl (
                      ne_of_is_empty options.subject subject,
                      ne_of_is_empty options.message_id id,
                      (
                        to_natural
                            (or_default options.timeout_ms (whole default_publish_timeout_ms)),
                        to_natural-pos
                            (or_default options.timeout_ms (whole default_publish_timeout_ms))
                            timeout,
                        refl,
                      ),
                    ))
            ]
    ]
  ]

-- ===== src/Dlq/Commands.antt =====
-- The commands of scripts/user-events-dlq.ts: `inspect`, `replay` and `main`.
use trams_assignment.Base.{
  ℕ, zero, suc, ◌+◌, ◌-◌, Bool, false, ◌&&◌, ◌||◌, not, Option, none, some, List, [], ◌∷◌, ◌++◌,
  map, get_elem?, String, str_eq, append_text, to_text, if◌then◌else◌, M, Result, ok, err, ret,
  throw, ◌>>=◌, ◌>>◌, try_catch, after_try, or_default, Number, is_safe_integer,
}
use trams_assignment.Contracts.{
  UserCreatedEvent, user_created, user_events_stream, user_events_dead_letter,
}
use trams_assignment.Database.{Fault, error}
use trams_assignment.Messaging.Publisher.{is_empty, to_natural}
use trams_assignment.Messaging.Consumer.{is_falsy, is_below_one}
use trams_assignment.Dlq.{
  MsgHdrs, StoredMsg, Description, Preview, Output, matches, dry_run, replayed, Replay,
  is_message_not_found, Operator,
}

-- `list.includes(text)` and `list.indexOf(text)`
abbrev pub includes : List String → String → Bool
includes [] text = false
includes (x ∷ xs) text = str_eq x text || includes xs text

abbrev pub index_of : List String → String → Option ℕ
index_of [] text = none
index_of (x ∷ xs) text =
    let later = index_of xs text in
    if str_eq x text then some 0 else elim later [ none ↦ none | some i ↦ some (suc i) ]

-- `payloadFileIndex === -1 ? undefined : flags[payloadFileIndex + 1]`
abbrev pub payload_file : List String → Option String
payload_file flags = elim (index_of flags "--payload-file") [
  | none ↦ none
  | some i ↦ get_elem? flags (i + 1)
]

abbrev pub header_record : MsgHdrs → List (String × List String)
header_record headers = map (λ key. (key, headers.values key)) headers.keys

module _ {World Bytes Ack Json : Type 0} (operator : Operator World Bytes Ack Json) where
  abbrev pub describe : StoredMsg Bytes → Description
  describe message = record {
    stream_sequence = message.seq;
    stored_at = message.timestamp;
    reason = message.header.get "Trams-Dlq-Reason";
    original_subject = message.header.get "Trams-Original-Subject";
    source_stream = message.header.get "Trams-Source-Stream";
    source_sequence = message.header.get "Trams-Source-Sequence";
    consumer = message.header.get "Trams-Consumer";
    delivery_count = message.header.get "Trams-Delivery-Count";
    error = message.header.get "Trams-Error";
    event_id =
        if is_empty (message.header.get "Trams-Event-Id")
        then none
        else some (message.header.get "Trams-Event-Id");
    payload_utf8 = operator.utf8 message.bytes;
    payload_base64 = operator.base64 message.bytes;
    headers = header_record message.header;
  }

  abbrev pub print : Output Ack → M World Fault (Unit {0})
  print o w = (ok tt, operator.write o w)

  -- The body of the loop of `inspect`: the matches after it.
  unfoldable pub inspect_one : ℕ → List Description → M World Fault (List Description)
  inspect_one sequence found =
      try_catch
        (operator.get_message user_events_stream sequence >>= λ message. ret (
          if str_eq message.subject user_events_dead_letter
          then found ++ describe message ∷ []
          else found))
        (λ e. if not (is_message_not_found e) then throw e else ret found)

  -- The loop of `inspect` from a sequence number, with the rounds that are left.
  unfoldable pub inspect_from : ℕ → ℕ → List Description → M World Fault (List Description)
  unfolding inspect_one
  inspect_from zero sequence found = ret found
  inspect_from (suc left) sequence found =
      inspect_one sequence found >>= inspect_from left (sequence + 1)

  unfoldable pub inspect : M World Fault (Unit {0})
  unfolding inspect_from
  inspect = do
    operator.jetstream_manager
    state ← operator.info user_events_stream user_events_dead_letter
    found ← inspect_from (state.last_seq + 1 - state.first_seq) state.first_seq []
    print (matches found)

  unfoldable pub validated : Result Fault UserCreatedEvent → M World Fault UserCreatedEvent
  validated (err e) =
      throw (error (append_text "Replay payload is not a valid user.created event: " e.message))
  validated (ok event) = ret event

  unfoldable pub decoded : Result Fault Json → M World Fault UserCreatedEvent
  unfolding validated
  decoded (err e) = throw (error (append_text "Replay payload is not JSON: " e.message))
  decoded (ok json) = validated (operator.safe_parse json)

  unfoldable pub validate_user_created_payload : Bytes → M World Fault UserCreatedEvent
  unfolding decoded
  validate_user_created_payload bytes = decoded (operator.parse (operator.utf8 bytes))

  -- `replay` up to the first statement after its checks of the record.
  unfoldable pub check_record : ℕ → Option String → StoredMsg Bytes → M World Fault (Unit {0})
  check_record sequence file message =
      let original_subject = message.header.get "Trams-Original-Subject" in
      if not (str_eq message.subject user_events_dead_letter)
      then throw (
          error (
            append_text "Stream sequence " (append_text (to_text sequence) " is not a DLQ record")))
      else if is_empty original_subject
      then throw (error "DLQ record has no Trams-Original-Subject header")
      else if not (str_eq original_subject user_created)
      then throw (error (append_text "Unsupported original subject: " original_subject))
      else if str_eq (message.header.get "Trams-Dlq-Reason") "malformed" && is_falsy file
      then throw (
          error
            "Malformed records require --payload-file <corrected-json-file>; replaying the same invalid bytes would fail again")
      else ret tt

  unfoldable pub check_event_id : StoredMsg Bytes → UserCreatedEvent → M World Fault (Unit {0})
  check_event_id message event =
      let recorded = message.header.get "Trams-Event-Id" in
      if not (is_empty recorded) && not (str_eq event.event_id recorded)
      then throw (
          error (
            append_text "Replay eventId "
              (append_text event.event_id (append_text " does not match DLQ eventId " recorded))))
      else ret tt

  -- `payloadFile ? await readFile(payloadFile) : message.bytes`
  unfoldable pub read_payload : Option String → StoredMsg Bytes → M World Fault Bytes
  read_payload file message =
      if is_falsy file then ret message.bytes else operator.read_file (or_default file "")

  abbrev pub preview : ℕ → Option String → StoredMsg Bytes → Bytes → Preview
  preview sequence file message bytes = record {
    stream_sequence = sequence;
    reason = message.header.get "Trams-Dlq-Reason";
    original_subject = message.header.get "Trams-Original-Subject";
    payload_bytes = operator.byte_length bytes;
    source = or_default file "preserved DLQ payload";
  }

  abbrev pub replay_of : ℕ → StoredMsg Bytes → Bytes → ℕ → Replay Bytes
  replay_of sequence message bytes now = record {
    subject = message.header.get "Trams-Original-Subject";
    bytes = bytes;
    msg_id =
        append_text "dlq-replay:" (append_text (to_text sequence) (append_text ":" (to_text now)));
    timeout = 5000;
  }

  unfoldable pub replay : ℕ → List String → M World Fault (Unit {0})
  unfolding check_record check_event_id read_payload validate_user_created_payload
  replay sequence flags = do
    let file = payload_file flags
    operator.jetstream_manager
    message ← operator.get_message user_events_stream sequence
    check_record sequence file message
    bytes ← read_payload file message
    event ← validate_user_created_payload bytes
    check_event_id message event
    if not (includes flags "--execute")
        then print (dry_run (preview sequence file message bytes))
        else λ w.
            (do
              acknowledgement ← operator.publish (replay_of sequence message bytes (operator.now w))
              print (replayed (preview sequence file message bytes) acknowledgement))
              w

  unfoldable pub required_env : String → M World Fault String
  required_env name =
      if is_falsy (operator.env name)
      then throw (error (append_text name " is required"))
      else ret (or_default (operator.env name) "")

  unfoldable pub connect_nats : M World Fault (Unit {0})
  unfolding required_env
  connect_nats = do
    servers ← required_env "NATS_URL"
    user ← required_env "NATS_USER"
    pass ← required_env "NATS_PASSWORD"
    ca_file ← required_env "NATS_TLS_CA_FILE"
    operator.connect (record {
      servers = servers;
      user = user;
      pass = pass;
      ca_file = ca_file;
      name = "dlq-operator";
    })

  -- The `try` block of `main`, for a command that is "inspect" or "replay".
  unfoldable pub run_command : String → Number → List String → M World Fault (Unit {0})
  unfolding inspect replay
  run_command command sequence flags =
      if str_eq command "inspect"
      then inspect
      else if not (is_safe_integer sequence) || is_below_one sequence
      then throw (error "Replay requires a positive USER_EVENTS stream sequence")
      else replay (to_natural sequence) flags

  unfoldable pub main : String → Number → List String → M World Fault (Unit {0})
  unfolding connect_nats run_command
  main command sequence flags =
      if not (str_eq command "inspect") && not (str_eq command "replay")
      then throw (
          error
            "Usage: npm run dlq:inspect | npm run dlq:replay -- <stream-sequence> [--payload-file corrected.json] [--execute]")
      else connect_nats >> λ w. after_try (run_command command sequence flags w) operator.drain

-- ===== src/Dlq/Records.antt =====
-- The dead letters of libs/messaging/src/pub-sub/consumer.ts as the records that
-- scripts/user-events-dlq.ts replays.
use trams_assignment.Base.{
  ℕ, ◌≡◌, refl, sym, ap, ◌∙◌, false, Bool-cases, inl, inr, none, some, List, [], ◌∷◌, String,
  str_eq, eq_refl, if◌then◌else◌, ok, Ensures, returns, and_then-Ensures, Ensures-never,
  Ensures-exactly, or_default,
}
use trams_assignment.Contracts.{
  UserCreatedEvent, user_created, user_events_stream, user_events_dead_letter,
}
use trams_assignment.Database.{Fault}
use trams_assignment.Messaging.Publisher.{Jetstream, is_empty}
use trams_assignment.Messaging.Consumer.{
  ResolvedConsumerConfig, JsMsg, Messages, dead_letter_headers,
}
use trams_assignment.Dlq.{StoredMsg, Operator, Replay, Replay}
use trams_assignment.Dlq.Commands.{
  check_record, check_event_id, read_payload, validate_user_created_payload, decoded, validated,
  replay_of, replay,
}

-- The first value of a header in the list that was published, and "" of a missing one.
abbrev pub header_value : List (String × String) → String → String
header_value [] key = ""
header_value (h ∷ headers) key = if str_eq h.0 key then h.1 else header_value headers key

-- The server has stored a dead letter of the consumer: its subject, its bytes and its headers.
pub record IsRecordOf {Net Bytes Event Outside : Type 0} {js : Jetstream Net Bytes}
    (messages : Messages Net Bytes js) (config : ResolvedConsumerConfig Bytes Event Outside)
    (message : JsMsg Bytes) (e : Fault) (event_id : String) (entry : StoredMsg Bytes) : Type 0 where
  pub subject : entry.subject ≡ config.dead_letter_subject
  pub bytes : entry.bytes ≡ message.bytes
  pub headers :
      (key : String)
      → entry.header.get key
        ≡ header_value (dead_letter_headers messages config message e (some event_id)) key

-- The server answers the calls of `replay`.
pub record IsAnswering {World Bytes Ack Json : Type 0} (operator : Operator World Bytes Ack Json)
    : Type 0 where
  pub opens :
      (w : World)
      → Ensures
          (λ (_ : Unit {0}) (_ : World). Unit {0})
          (λ (_ : Fault) (_ : World). ⊥)
          (operator.jetstream_manager w)
  pub finds :
      (n : ℕ) (m : StoredMsg Bytes) (w : World)
      → (operator.view w).stored n ≡ some m
      → Ensures
          (λ (_ : StoredMsg Bytes) (_ : World). Unit {0})
          (λ (_ : Fault) (_ : World). ⊥)
          (operator.get_message user_events_stream n w)
  pub publishes :
      (r : Replay Bytes) (w : World)
      → Ensures
          (λ (_ : Ack) (_ : World). Unit {0})
          (λ (_ : Fault) (_ : World). ⊥)
          (operator.publish r w)

module _ {World Bytes Ack Json : Type 0} (operator : Operator World Bytes Ack Json) where
  check_record_passes :
      (sequence : ℕ) (m : StoredMsg Bytes) (w : World)
      → m.subject ≡ user_events_dead_letter
      → m.header.get "Trams-Original-Subject" ≡ user_created
      → m.header.get "Trams-Dlq-Reason" ≡ "processing-failed"
      → check_record operator sequence none m w ≡ (ok tt, w)
  unfolding check_record
  check_record_passes sequence m w dead original reason = rw (dead, original, reason) refl

  validate_passes :
      (bytes : Bytes) (json : Json) (event : UserCreatedEvent) (w : World)
      → operator.parse (operator.utf8 bytes) ≡ ok json
      → operator.safe_parse json ≡ ok event
      → validate_user_created_payload operator bytes w ≡ (ok event, w)
  unfolding validate_user_created_payload decoded validated
  validate_passes bytes json event w parsed valid = rw (parsed, valid) refl

  check_event_id_passes :
      (m : StoredMsg Bytes) (event : UserCreatedEvent) (w : World)
      → m.header.get "Trams-Event-Id" ≡ event.event_id
      → check_event_id operator m event w ≡ (ok tt, w)
  unfolding check_event_id
  check_event_id_passes m event w same = elim (Bool-cases (is_empty event.event_id)) [
    | inl none_recorded ↦ rw (same, none_recorded) refl
    | inr recorded ↦ rw (same, recorded, eq_refl event.event_id) refl
  ]

  module _ {Net Event Outside : Type 0} {js : Jetstream Net Bytes}
      (messages : Messages Net Bytes js) (config : ResolvedConsumerConfig Bytes Event Outside) where
    -- An event that the consumer has given up can be replayed: where the stream holds its dead
    -- letter for a user.created message, the bytes still parse and validate as an event with the id
    -- recorded, and the server answers, `replay --execute` returns and has published the bytes of
    -- the original message to its subject.
    pub replay-dead_letter :
        (message : JsMsg Bytes) (e : Fault) (m : StoredMsg Bytes) (sequence : ℕ) (json : Json)
        (event : UserCreatedEvent) (w : World)
        → IsAnswering operator
        → config.dead_letter_subject ≡ user_events_dead_letter
        → message.subject ≡ user_created
        → IsRecordOf messages config message e event.event_id m
        → is_empty event.event_id ≡ false
        → operator.parse (operator.utf8 message.bytes) ≡ ok json
        → operator.safe_parse json ≡ ok event
        → (operator.view w).stored sequence ≡ some m
        → Ensures
            (λ _ w'.
              (r : Replay Bytes) × (r.subject ≡ message.subject)
              × (r.bytes ≡ message.bytes)
              × ((operator.view w').sent ≡ r ∷ (operator.view w).sent))
            (λ e' w'. ⊥)
            (replay operator sequence ("--execute" ∷ []) w)
    unfolding replay read_payload
    replay-dead_letter message e m sequence json event w answering dlq original is named parsed
          valid there =
        let get_original : m.header.get "Trams-Original-Subject" ≡ user_created =
          is.headers "Trams-Original-Subject" ∙ original in
        let reason : m.header.get "Trams-Dlq-Reason" ≡ "processing-failed" =
          is.headers "Trams-Dlq-Reason" ∙ rw named refl in
        let id : m.header.get "Trams-Event-Id" ≡ event.event_id =
          is.headers "Trams-Event-Id" ∙ rw named refl in
        and_then-Ensures {Q = λ _ _. ⊥} _
          (Ensures-never (operator.jetstream_manager_law w) (answering.opens w))
          (λ _ w₁ opened.
            let there₁ = ap (λ v. v.stored sequence) opened ∙ there in
            and_then-Ensures {Q = λ _ _. ⊥} _
              (Ensures-never (operator.get_message_law user_events_stream sequence w₁)
                (answering.finds sequence m w₁ there₁))
              (λ m' w₂ (same, found).
                let is_m : m' ≡ m = ap (λ o. or_default o m) (sym found ∙ there₁) in
                rw is_m (
                  and_then-Ensures {Q = λ _ _. ⊥} _
                    (Ensures-exactly tt w₂
                      (check_record_passes sequence m w₂ (is.subject ∙ dlq) get_original reason))
                    (λ _ w₃ (_, same₃).
                      and_then-Ensures {Q = λ _ _. ⊥} _
                        (Ensures-exactly event w₃
                          (validate_passes m.bytes json event w₃ (rw is.bytes parsed) valid))
                        (λ event' w₄ (is_event, same₄).
                          and_then-Ensures {Q = λ _ _. ⊥} _
                            (Ensures-exactly tt w₄ (
                              check_event_id_passes m event' w₄
                                (id ∙ ap (λ v. v.event_id) (sym is_event))))
                            (λ _ w₅ (_, same₅).
                              let r = replay_of operator sequence m m.bytes (operator.now w₅) in
                              and_then-Ensures {Q = λ _ _. ⊥} _
                                (Ensures-never (operator.publish_law r w₅)
                                  (answering.publishes r w₅))
                                (λ ack w₆ changed. returns (
                                  r,
                                  get_original ∙ sym original,
                                  is.bytes,
                                  ap (λ v. v.sent) (operator.write_law _ w₆)
                                      ∙ ap (λ v. v.sent) changed
                                      ∙ ap (λ v. r ∷ v.sent)
                                          (ap operator.view (same₅ ∙ same₄ ∙ same₃)
                                            ∙ same
                                            ∙ opened),
                                ))
                                (λ e' w₆ never. never))
                            (λ e' w₅ never. never))
                        (λ e' w₄ never. never))
                    (λ e' w₃ never. never)))
              (λ e' w₂ never. never))
          (λ e' w₁ never. never)

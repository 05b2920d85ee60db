-- ===== src/Dlq/Replaying.antt =====
-- `replay` of scripts/user-events-dlq.ts: when it publishes, and what.
use trams_assignment.Base.{
  ℕ, ◌≡◌, refl, sym, ap, ◌∙◌, ◌⊎◌, inl, inr, true, false, ◌&&◌, not, Bool-cases, Option, some, List,
  ◌∷◌, String, str_eq, eq_iff, if◌then◌else◌, Result-cases, ok, Ensures, returns, throws, and_then,
  and_then-Ensures, Ensures-weaken, Ensures-either, or_default, arith,
}
use trams_assignment.Contracts.{
  UserCreatedEvent, user_created, user_events_stream, user_events_dead_letter,
}
use trams_assignment.Messaging.Publisher.{is_empty}
use trams_assignment.Messaging.Consumer.{is_falsy}
use trams_assignment.Dlq.{StoredMsg, dry_run, replayed, Replay, Operator}
use trams_assignment.Dlq.Commands.{
  includes, payload_file, check_record, check_event_id, read_payload, validate_user_created_payload,
  decoded, validated, preview, replay_of, print, replay,
}

module _ {World Bytes Ack Json : Type 0} (operator : Operator World Bytes Ack Json) where
  -- The record is one of the dead-letter queue, for a user.created message, and one that is
  -- malformed has a corrected payload.
  pub record IsReplayable (file : Option String) (message : StoredMsg Bytes) : Type 0 where
    pub dead : message.subject ≡ user_events_dead_letter
    pub original : message.header.get "Trams-Original-Subject" ≡ user_created
    pub corrected : message.header.get "Trams-Dlq-Reason" ≡ "malformed" → is_falsy file ≡ false

  -- The bytes hold an event, of the id recorded if one is.
  pub record IsValid (message : StoredMsg Bytes) (bytes : Bytes) : Type 0 where
    pub json : Json
    pub event : UserCreatedEvent
    pub parsed : operator.parse (operator.utf8 bytes) ≡ ok json
    pub valid : operator.safe_parse json ≡ ok event
    pub same_id :
        (message.header.get "Trams-Event-Id" ≡ "")
        ⊎ (event.event_id ≡ message.header.get "Trams-Event-Id")

  check_record-Ensures :
      (sequence : ℕ) (file : Option String) (message : StoredMsg Bytes) (w : World)
      → Ensures
          (λ _ w'. (w' ≡ w) × IsReplayable file message)
          (λ e w'. w' ≡ w)
          (check_record operator sequence file message w)
  unfolding check_record
  check_record-Ensures sequence file message w =
      let dead = str_eq message.subject user_events_dead_letter in
      let original = message.header.get "Trams-Original-Subject" in
      let reason = message.header.get "Trams-Dlq-Reason" in
      elim (Bool-cases dead) [
        | inr e ↦ rw e (throws refl)
        | inl d ↦ elim (Bool-cases (is_empty original)) [
          | inl e ↦ rw (d, e) (throws refl)
          | inr ne ↦ elim (Bool-cases (str_eq original user_created)) [
            | inr e ↦ rw (d, ne, e) (throws refl)
            | inl o ↦ elim (Bool-cases (str_eq reason "malformed" && is_falsy file)) [
              | inl e ↦ rw (d, ne, o, e) (throws refl)
              | inr c ↦
                  rw (d, ne, o, c)
                    (returns (
                      (
                        refl,
                        record {
                          dead = (eq_iff message.subject user_events_dead_letter).0 d;
                          original = (eq_iff original user_created).0 o;
                          corrected = λ m. ground (arith, eq_iff reason "malformed");
                        },
                      )))
            ]
          ]
        ]
      ]

  validate-Ensures :
      (bytes : Bytes) (w : World)
      → Ensures
          (λ event w'.
            (w' ≡ w)
            × ((json : Json) × (operator.parse (operator.utf8 bytes) ≡ ok json)
                × (operator.safe_parse json ≡ ok event)))
          (λ e w'. w' ≡ w)
          (validate_user_created_payload operator bytes w)
  unfolding validate_user_created_payload decoded validated
  validate-Ensures bytes w = elim (Result-cases (operator.parse (operator.utf8 bytes))) [
    | inr (e, bad) ↦ rw bad (throws refl)
    | inl (json, good) ↦ elim (Result-cases (operator.safe_parse json)) [
      | inr (e, bad) ↦ rw (good, bad) (throws refl)
      | inl (event, valid) ↦ rw (good, valid) (returns (refl, (json, refl, valid)))
    ]
  ]

  check_event_id-Ensures :
      (message : StoredMsg Bytes) (event : UserCreatedEvent) (w : World)
      → Ensures
          (λ _ w'.
            (w' ≡ w)
            × ((message.header.get "Trams-Event-Id" ≡ "")
                ⊎ (event.event_id ≡ message.header.get "Trams-Event-Id")))
          (λ e w'. w' ≡ w)
          (check_event_id operator message event w)
  unfolding check_event_id
  check_event_id-Ensures message event w =
      let recorded = message.header.get "Trams-Event-Id" in
      elim (Bool-cases (is_empty recorded)) [
        | inl e ↦ rw e (returns (refl, inl ((eq_iff recorded "").0 e)))
        | inr ne ↦ elim (Bool-cases (str_eq event.event_id recorded)) [
          | inl e ↦ rw (ne, e) (returns (refl, inr ((eq_iff event.event_id recorded).0 e)))
          | inr e ↦ rw (ne, e) (throws refl)
        ]
      ]

  read_payload-Ensures :
      (file : Option String) (message : StoredMsg Bytes) (w : World)
      → Ensures
          (λ bytes w'.
            (operator.view w' ≡ operator.view w) × (is_falsy file ≡ true → bytes ≡ message.bytes))
          (λ e w'. operator.view w' ≡ operator.view w)
          (read_payload operator file message w)
  unfolding read_payload
  read_payload-Ensures file message w = elim (Bool-cases (is_falsy file)) [
    | inl none_given ↦ rw none_given (returns (refl, λ _. refl))
    | inr given ↦ rw given (
        Ensures-weaken (λ bytes w' same. (same, λ e. absurd (ground arith))) (λ e w' same. same)
          (operator.read_file_law (or_default file "") w))
  ]

  -- A publication that the operator has asked for, of a record that is replayable: the bytes that
  -- the queue has kept, or those of the file that the flags name.
  pub record IsDeliberate (sequence : ℕ) (flags : List String) (w : World) (r : Replay Bytes)
      : Type 0 where
    pub message : StoredMsg Bytes
    pub now : ℕ
    pub stored : (operator.view w).stored sequence ≡ some message
    pub asked : includes flags "--execute" ≡ true
    pub replayable : IsReplayable (payload_file flags) message
    pub valid : IsValid message r.bytes
    pub kept : is_falsy (payload_file flags) ≡ true → r.bytes ≡ message.bytes
    pub sends : r ≡ replay_of operator sequence message r.bytes now

  -- At most one publication, and a deliberate one.
  abbrev pub IsReplayed : ℕ → List String → World → World → Type 0
  IsReplayed sequence flags w w' =
      ((operator.view w').sent ≡ (operator.view w).sent)
      ⊎ ((r : Replay Bytes) × IsDeliberate sequence flags w r
          × ((operator.view w').sent ≡ r ∷ (operator.view w).sent))

  -- The end of `replay`, once the checks have passed.
  finish-IsReplayed :
      (sequence : ℕ) (flags : List String) (message : StoredMsg Bytes) (bytes : Bytes)
      (w w₁ : World)
      → operator.view w₁ ≡ operator.view w
      → (includes flags "--execute" ≡ true
          → IsDeliberate sequence flags w
              (replay_of operator sequence message bytes (operator.now w₁)))
      → let file = payload_file flags in
        Ensures
          (λ _ w'. IsReplayed sequence flags w w')
          (λ e w'. IsReplayed sequence flags w w')
          ((if not (includes flags "--execute")
              then print operator (dry_run (preview operator sequence file message bytes))
              else λ v.
                  and_then
                    (operator.publish
                      (replay_of operator sequence message bytes (operator.now v))
                      v)
                    (λ acknowledgement.
                      print operator
                        (replayed (preview operator sequence file message bytes) acknowledgement)))
            w₁)
  finish-IsReplayed sequence flags message bytes w w₁ same deliberate =
      elim (Bool-cases (includes flags "--execute")) [
        | inr dry ↦
            rw dry
              (returns (inl (ap (λ v. v.sent) (operator.write_law _ w₁) ∙ ap (λ v. v.sent) same)))
        | inl asked ↦
            let r = replay_of operator sequence message bytes (operator.now w₁) in
            rw asked (
              and_then-Ensures _ (operator.publish_law r w₁)
                (λ ack w₂ changed. returns (
                  inr (
                    r,
                    deliberate asked,
                    ap (λ v. v.sent) (operator.write_law _ w₂)
                        ∙ ap (λ v. v.sent) changed
                        ∙ ap (λ v. r ∷ v.sent) same,
                  )))
                (λ e w₂ changed. elim changed [
                  | inl nothing ↦ inl (ap (λ v. v.sent) (nothing ∙ same))
                  | inr stored ↦
                      inr (r, deliberate asked, ap (λ v. v.sent) stored ∙ ap (λ v. r ∷ v.sent) same)
                ]))
      ]

  -- However `replay` ends, it has published at most once. It has published only with the flag
  -- --execute, for a stored message of the dead-letter queue whose original subject is user.created,
  -- and bytes that parse and validate as an event with the id recorded, if one is; a malformed record
  -- only with a payload file; and without a payload file, exactly the bytes that were kept. The
  -- publication goes to the original subject, under an id of its own made of the sequence number and the time.
  pub replay-IsReplayed :
      (sequence : ℕ) (flags : List String) (w : World)
      → IsReplayed sequence flags w (replay operator sequence flags w).1
  unfolding replay
  replay-IsReplayed sequence flags w =
      let file = payload_file flags in
      let unsent : (v : World) → operator.view v ≡ operator.view w → IsReplayed sequence flags w v =
        λ v same. inl (ap (λ u. u.sent) same) in
      Ensures-either (
        and_then-Ensures _ (operator.jetstream_manager_law w)
          (λ _ w₁ opened.
            and_then-Ensures _ (operator.get_message_law user_events_stream sequence w₁)
              (λ message w₂ (same₂, there).
                let at₂ : operator.view w₂ ≡ operator.view w = same₂ ∙ opened in
                and_then-Ensures _ (check_record-Ensures sequence file message w₂)
                  (λ _ w₃ (same₃, replayable).
                    and_then-Ensures _ (read_payload-Ensures file message w₃)
                      (λ bytes w₄ (same₄, kept).
                        let at₄ : operator.view w₄ ≡ operator.view w =
                          same₄ ∙ ap operator.view same₃ ∙ at₂ in
                        and_then-Ensures _ (validate-Ensures bytes w₄)
                          (λ event w₅ (same₅, (json, parsed, valid)).
                            and_then-Ensures _ (check_event_id-Ensures message event w₅)
                              (λ _ w₆ (same₆, same_id).
                                finish-IsReplayed sequence flags message bytes w w₆
                                  (ap operator.view (same₆ ∙ same₅) ∙ at₄)
                                  (λ asked. record {
                                    message = message;
                                    now = operator.now w₆;
                                    stored = ap (λ v. v.stored sequence) (sym opened) ∙ there;
                                    asked = asked;
                                    replayable = replayable;
                                    valid = record {
                                      json = json;
                                      event = event;
                                      parsed = parsed;
                                      valid = valid;
                                      same_id = same_id;
                                    };
                                    kept = kept;
                                    sends = refl;
                                  }))
                              (λ e w₆ same₆. unsent w₆ (ap operator.view (same₆ ∙ same₅) ∙ at₄)))
                          (λ e w₅ same₅. unsent w₅ (ap operator.view same₅ ∙ at₄)))
                      (λ e w₄ same₄. unsent w₄ (same₄ ∙ ap operator.view same₃ ∙ at₂)))
                  (λ e w₃ same₃. unsent w₃ (ap operator.view same₃ ∙ at₂)))
              (λ e w₂ (same₂, _). unsent w₂ (same₂ ∙ opened)))
          (λ e w₁ opened. unsent w₁ opened))

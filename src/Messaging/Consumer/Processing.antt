-- ===== src/Messaging/Consumer/Processing.antt =====
-- What becomes of a message that the consumer takes: it is acknowledged, terminated once its bytes
-- are in the dead-letter queue, or scheduled for redelivery.
use trams_assignment.Base.{
  ◌≤◌, ◌≡◌, refl, ap, ◌∙◌, ◌⊎◌, inl, inr, Bool-cases, Option, none, some, ◌∷◌, String, leb, Result,
  ok, err, Ensures, throws, and_then-Ensures, or_else-Ensures, Ensures-weaken, Ensures-result,
  lift-Ensures, Ensures-known, arith, try_catch, ◌>>◌,
}
use trams_assignment.Database.{Fault}
use trams_assignment.Messaging.Publisher.{
  Jetstream, PublishRawOptions, publish_raw, publish_raw_cases,
}
use trams_assignment.Messaging.Consumer.{
  ResolvedConsumerConfig, JsMsg, Reply, acked, terminated, delayed, Messages, Session,
  retry_delay_at, publish_dead_letter, redeliver, in_net, handle_failure,
  preserve_malformed_message, process_decoded, process_message,
}

publish_raw-replies :
    {Net Bytes : Type 0} {js : Jetstream Net Bytes} (messages : Messages Net Bytes js)
    (options : PublishRawOptions Bytes) (b : Net)
    → Ensures
        (λ _ b'. messages.replies b' ≡ messages.replies b)
        (λ e b'. messages.replies b' ≡ messages.replies b)
        (publish_raw js options b)
publish_raw-replies {js = js} messages options b = elim (publish_raw_cases js options b) [
  | inl (subject, id, (timeout, positive, call)) ↦
      rw call (messages.publish_law options.subject options.bytes _ b)
  | inr (e, refused) ↦ rw refused (throws refl)
]

module _ {Net Bytes Event Outside : Type 0} {js : Jetstream Net Bytes}
    (messages : Messages Net Bytes js) (config : ResolvedConsumerConfig Bytes Event Outside)
    (message : JsMsg Bytes) where
  -- The reply is the only one that was sent.
  abbrev pub IsReplied : Reply → Net → Net → Type 0
  IsReplied r b b' = messages.replies b' ≡ (message.stream_sequence, r) ∷ messages.replies b

  -- The broker has acknowledged the dead letter, and then the message was terminated.
  pub record IsDeadLettered (e : Fault) (event_id : Option String) (b b' : Net) : Type 0 where
    pub before : Net
    pub after : Net
    pub stored : publish_dead_letter messages config message e event_id before ≡ (ok tt, after)
    pub replied : IsReplied terminated b b'

  abbrev pub IsDelayed : Net → Net → Type 0
  IsDelayed b b' =
      IsReplied (delayed (retry_delay_at config.retry_delays_ms message.delivery_count)) b b'

  IsReplied-after :
      {r : Reply} (b b₁ b₂ : Net)
      → messages.replies b₁ ≡ messages.replies b
      → IsReplied r b₁ b₂
      → IsReplied r b b₂
  IsReplied-after {r} b b₁ b₂ same replied =
      replied ∙ ap (λ rs. (message.stream_sequence, r) ∷ rs) same

  dead_letter-Ensures :
      (e : Fault) (event_id : Option String) (b : Net)
      → Ensures
          (λ _ b'. IsDeadLettered e event_id b b' ⊎ IsDelayed b b')
          (λ _ b'. messages.replies b' ≡ messages.replies b)
          (try_catch
            (publish_dead_letter messages config message e event_id
              >> messages.reply message.stream_sequence terminated)
            (λ dead_letter_error. redeliver messages config message)
            b)
  unfolding publish_dead_letter
  dead_letter-Ensures e event_id b =
      or_else-Ensures {P = λ _ b'. IsDeadLettered e event_id b b'}
        {Q = λ _ b₁. messages.replies b₁ ≡ messages.replies b} _
        (and_then-Ensures _ (Ensures-known (publish_raw-replies messages _ b))
          (λ _ b₁ (stored, same).
            Ensures-weaken
              (λ _ b₂ r. record {
                before = b;
                after = b₁;
                stored = stored;
                replied = IsReplied-after b b₁ b₂ same r;
              })
              (λ _ b₂ r. r ∙ same) (messages.reply_law message.stream_sequence terminated b₁))
          (λ e' b₁ (failed, same). same))
        (λ _ b' p. inl p)
        (λ e' b₁ same.
          Ensures-weaken (λ _ b₂ r. inr (IsReplied-after b b₁ b₂ same r)) (λ _ b₂ r. r ∙ same)
            (messages.reply_law message.stream_sequence _ b₁))

  -- A failure is answered once: by a dead letter, only after the last delivery, or by a
  -- redelivery.
  handle_failure-Ensures :
      (event : Event) (e : Fault) (b : Net)
      → Ensures
          (λ _ b'.
            ((config.max_deliver ≤ message.delivery_count)
              × IsDeadLettered e (some (config.get_event_id event)) b b')
            ⊎ IsDelayed b b')
          (λ _ b'. messages.replies b' ≡ messages.replies b)
          (handle_failure messages config message event e b)
  unfolding handle_failure
  handle_failure-Ensures event e b =
      elim (Bool-cases (leb config.max_deliver message.delivery_count)) [
        | inl last ↦ rw last (
            Ensures-weaken (λ _ b' p. elim p [ inl d ↦ inl (ground arith, d) | inr d ↦ inr d ])
              (λ _ b' p. p) (dead_letter-Ensures e (some (config.get_event_id event)) b))
        | inr early ↦
            rw early (Ensures-weaken (λ _ b' p. inr p) (λ _ b' p. p) (messages.reply_law _ _ b))
      ]

  -- Why a message may be terminated: it is malformed, or its last delivery has failed.
  abbrev pub IsGivenUp : Option String → Type 0
  IsGivenUp event_id =
      ((e : Fault) × (config.decode message.bytes ≡ err e) × (event_id ≡ none))
      ⊎ ((event : Event) × (config.decode message.bytes ≡ ok event)
          × (config.max_deliver ≤ message.delivery_count)
          × (event_id ≡ some (config.get_event_id event)))

  -- The handler has returned for the event in the message, and the message was acknowledged.
  pub record IsHandled (s s' : Session Net Outside) : Type 0 where
    pub event : Event
    pub decoded : config.decode message.bytes ≡ ok event
    pub handled : config.handle_event event s.outside ≡ (ok tt, s'.outside)
    pub replied : IsReplied acked s.net s'.net

  pub record IsPreserved (s s' : Session Net Outside) : Type 0 where
    pub reason : Fault
    pub event_id : Option String
    pub given_up : IsGivenUp event_id
    pub dead_lettered : IsDeadLettered reason event_id s.net s'.net

  abbrev pub IsProcessed : Session Net Outside → Session Net Outside → Type 0
  IsProcessed s s' = IsHandled s s' ⊎ (IsPreserved s s' ⊎ IsDelayed s.net s'.net)

  abbrev IsSilent : Session Net Outside → Session Net Outside → Type 0
  IsSilent s s' = messages.replies s'.net ≡ messages.replies s.net

  failed-Ensures :
      (event : Event) (e : Fault) (s s₁ : Session Net Outside)
      → config.decode message.bytes ≡ ok event
      → IsSilent s s₁
      → Ensures
          (λ _ s'. IsProcessed s s')
          (λ _ s'. IsSilent s s')
          (in_net (handle_failure messages config message event e) s₁)
  failed-Ensures event e s s₁ decoded same =
      Ensures-weaken
        (λ _ s' (b, p, at). rw at (
          inr (elim p [
            | inl (last, d) ↦ inl (record {
              reason = e;
              event_id = some (config.get_event_id event);
              given_up = inr (event, decoded, last, refl);
              dead_lettered = record {
                before = d.before;
                after = d.after;
                stored = d.stored;
                replied = IsReplied-after s.net s₁.net b same d.replied;
              };
            })
            | inr r ↦ inr (IsReplied-after s.net s₁.net b same r)
          ])))
        (λ _ s' (b, silent, at). rw at (silent ∙ same))
        (lift-Ensures (λ b. record s₁ { net = b }) _ (handle_failure-Ensures event e s₁.net))

  process_decoded-Ensures :
      (r : Result Fault Event) (s : Session Net Outside)
      → config.decode message.bytes ≡ r
      → Ensures
          (λ _ s'. IsProcessed s s')
          (λ _ s'. IsSilent s s')
          (process_decoded messages config message r s)
  unfolding process_decoded preserve_malformed_message
  process_decoded-Ensures (err e) s decoded =
      Ensures-weaken
        (λ _ s' (b, p, at). rw at (
          inr (elim p [
            | inl d ↦ inl (record {
              reason = e;
              event_id = none;
              given_up = inl (e, decoded, refl);
              dead_lettered = d;
            })
            | inr d ↦ inr d
          ])))
        (λ _ s' (b, same, at). rw at same)
        (lift-Ensures (λ b. record s { net = b }) _ (dead_letter-Ensures e none s.net))
  process_decoded-Ensures (ok event) s decoded =
      or_else-Ensures {P = λ _ s'. IsHandled s s'} {Q = λ _ s₁. IsSilent s s₁} _
        (and_then-Ensures _
          (lift-Ensures (λ o. record s { outside = o }) _
            (Ensures-result (config.handle_event event s.outside)))
          (λ _ s₁ (o, handled, at). rw at (
            Ensures-weaken
              (λ _ s₂ (b, r, at₂).
                rw at₂
                  (record { event = event; decoded = decoded; handled = handled; replied = r }))
              (λ _ s₂ (b, same, at₂). rw at₂ same)
              (lift-Ensures (λ b. record s { outside = o; net = b }) _
                (messages.reply_law message.stream_sequence acked s.net))))
          (λ e s₁ (o, failed, at). rw at refl))
        (λ _ s' p. inl p) (λ e s₁ same. failed-Ensures event e s s₁ decoded same)

  -- Each message that the consumer takes gets exactly one reply, if `processMessages` goes on after
  -- it. It is acknowledged only if it could be decoded and the handler has returned for its event.
  -- It is terminated only after the broker has acknowledged its bytes on the dead-letter subject,
  -- and only if it could not be decoded or has been delivered at least `maxDeliver` times.
  -- Otherwise a redelivery after the configured delay is asked for. If the loop throws, the
  -- message got no reply.
  pub process_message-Ensures :
      (s : Session Net Outside)
      → Ensures
          (λ _ s'. IsProcessed s s')
          (λ _ s'. IsSilent s s')
          (process_message messages config message s)
  unfolding process_message
  process_message-Ensures s = process_decoded-Ensures (config.decode message.bytes) s refl

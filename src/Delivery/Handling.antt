-- ===== src/Delivery/Handling.antt =====
-- What the notification service does with an event: `handleUserCreated`, with the repository as its
-- store.
use trams_assignment.Base.{
  ℕ, ◌<◌, ◌≡◌, refl, ap, ◌&&◌, ◌||◌, not, ◌⊎◌, inl, inr, Bool-cases, Option, List, String, count,
  count-and_left_le, arith, str_eq, M, ok, err, Ensures, returns, throws, and_then-Ensures,
  or_else-Ensures, Ensures-weaken, Ensures-result, lift-Ensures, Number, whole, is_safe_integer,
  or_default, try_catch, ◌>>◌, throw,
}
use trams_assignment.Contracts.{UserCreatedEvent}
use trams_assignment.Database.{Fault, Table}
use trams_assignment.Database.Rows.{
  update, IsKeyed, update-IsKeyed, insert-IsKeyed, count-update_all,
}
use trams_assignment.Delivery.{
  NotificationDelivery, delivery_id, NotificationDeliveryInput, NotificationDeliveryClaim, claimed,
  already_sent, in_progress, new_delivery, set_claimed, set_sent, holds_claim, delivery_repository,
  NotificationChannel, ServiceState, welcome_channel, is_below_second, lease_duration, claim,
  mark_sent, mark_failed, send, deliver, handle_user_created, in_channel, in_db,
}
use trams_assignment.Delivery.Claims.{is_sent_event, has_event, IsAnswer, claim-IsAnswer}
use trams_assignment.Delivery.Exclusion.{claim_excluded}
use trams_assignment.Delivery.Settling.{mark_sent-settles, mark_failed-settles}

-- A configured lease is used or refused, and nothing else happens.
lease_duration-Ensures :
    {S : Type 0} (option : Option Number) (s : S)
    → Ensures (λ n s'. s' ≡ s) (λ e s'. s' ≡ s) (lease_duration option s)
unfolding lease_duration
lease_duration-Ensures option s =
    elim (Bool-cases (
      not (is_safe_integer (or_default option (whole 60000)))
      || is_below_second (or_default option (whole 60000)))) [
        | inl bad ↦ rw bad (throws refl)
        | inr good ↦ rw good (returns refl)
      ]

abbrev pub request : UserCreatedEvent → ℕ → NotificationDeliveryInput
request event lease = record {
  event_id = event.event_id;
  user_id = event.payload.id;
  recipient = event.payload.email;
  channel = welcome_channel;
  lease_duration_ms = lease;
}

answer-IsKeyed :
    (event : UserCreatedEvent) (lease : ℕ) (token : String) (now : ℕ)
    (rs rs' : List NotificationDelivery) (a : NotificationDeliveryClaim)
    → IsKeyed delivery_id rs
    → IsAnswer (request event lease) token now rs a rs'
    → IsKeyed delivery_id rs'
answer-IsKeyed event lease token now rs rs' (claimed x) v (e, inl (free, r)) =
    rw r (insert-IsKeyed delivery_id (new_delivery (request event lease) token now) rs free v)
answer-IsKeyed event lease token now rs rs' (claimed x) v (e, inr (open_row, r)) =
    rw r (
      update-IsKeyed delivery_id (has_event event.event_id) (set_claimed token now) rs (λ r. refl)
        v)
answer-IsKeyed event lease token now rs rs' already_sent v (same, h) = rw same v
answer-IsKeyed event lease token now rs rs' in_progress v (same, h) = rw same v

module _ {Db Outside : Type 0} (t : Table Db NotificationDelivery delivery_id)
    (channel : NotificationChannel Outside) (option : Option Number)
    (event : UserCreatedEvent) where
  -- The call of the channel.
  abbrev pub to_channel : M Outside Fault (Unit {0})
  to_channel = send (delivery_repository t) channel option event

  abbrev pub count_sent : Db → ℕ
  count_sent d = count (is_sent_event event.event_id) (t.rows d)

  -- The event's notification is recorded as sent; either it was before, and nothing has happened,
  -- or the channel has taken it once.
  abbrev pub IsDelivered : ServiceState Db Outside → ServiceState Db Outside → Type 0
  IsDelivered s s' =
      (0 < count_sent s'.db)
      × (((t.rows s'.db ≡ t.rows s.db) × (s'.outside ≡ s.outside))
          ⊎ (to_channel s.outside ≡ (ok tt, s'.outside)))

  -- The channel was left alone; or it was called once and refused; or it was called once and took
  -- the notification, and the record of that is missing.
  abbrev pub IsUndelivered : ServiceState Db Outside → ServiceState Db Outside → Type 0
  IsUndelivered s s' =
      ((t.rows s'.db ≡ t.rows s.db) × (s'.outside ≡ s.outside))
      ⊎ (((e : Fault) × (to_channel s.outside ≡ (err e, s'.outside)))
          ⊎ (to_channel s.outside ≡ (ok tt, s'.outside)))

  sent_after :
      (token : String) (d d' : Db)
      → count (λ r. str_eq r.event_id event.event_id && holds_claim token r) (t.rows d) ≡ 1
      → t.rows d' ≡ update (has_event event.event_id) (set_sent (t.clock d)) (t.rows d)
      → 0 < count_sent d'
  sent_after token d d' owned r = omega (
    arith,
    ap (count (is_sent_event event.event_id)) r,
    owned,
    count-and_left_le (has_event event.event_id) (holds_claim token) (t.rows d),
    count-update_all (is_sent_event event.event_id) (has_event event.event_id)
        (set_sent (t.clock d)) (t.rows d) (λ r h. ground (arith, h)),
  )

  -- The call of the channel, with its `catch`.
  send-Ensures :
      (s : ServiceState Db Outside) (d : Db) (token : String)
      → IsKeyed delivery_id (t.rows d)
      → Ensures
          (λ _ s'. (s'.db ≡ d) × (to_channel s.outside ≡ (ok tt, s'.outside)))
          (λ _ s'. (e : Fault) × (to_channel s.outside ≡ (err e, s'.outside)))
          (try_catch
            (in_channel to_channel)
            (λ e. in_db (mark_failed t event.event_id token e.message) >> throw e)
            (record s { db = d }))
  send-Ensures s d token v =
      or_else-Ensures _
        (lift-Ensures (λ o. record s { db = d; outside = o }) (to_channel s.outside)
          (Ensures-result (to_channel s.outside)))
        (λ _ s₂ (o, taken, at). rw at (refl, taken))
        (λ e s₂ (o, refused, at). rw at (
          and_then-Ensures _
            (lift-Ensures (λ d'. record s { db = d'; outside = o })
              (mark_failed t event.event_id token e.message d)
              (mark_failed-settles t event.event_id token e.message d v))
            (λ _ s₃ (d', p, at₃). rw at₃ (throws (e, refused)))
            (λ e' s₃ (d', same, at₃). rw at₃ (e, refused))))

  deliver-Ensures :
      (s : ServiceState Db Outside) (d : Db) (lease : ℕ) (token : String)
      (a : NotificationDeliveryClaim)
      → IsKeyed delivery_id (t.rows s.db)
      → IsAnswer (request event lease) token (t.clock s.db) (t.rows s.db) a (t.rows d)
      → Ensures
          (λ _ s'. IsDelivered s s')
          (λ _ s'. IsUndelivered s s')
          (deliver (delivery_repository t) channel option event a (record s { db = d }))
  unfolding deliver
  deliver-Ensures s d lease token already_sent v (same, sent) =
      returns (omega (arith, ap (count (is_sent_event event.event_id)) same), inl (same, refl))
  deliver-Ensures s d lease token in_progress v (same, busy) = throws (inl (same, refl))
  deliver-Ensures s d lease token (claimed x) v h =
      let keyed =
        answer-IsKeyed event lease token (t.clock s.db) (t.rows s.db) (t.rows d) (claimed x) v h in
      and_then-Ensures _ (send-Ensures s d x keyed)
        (λ _ s₂ (same, taken).
          Ensures-weaken
            (λ _ s₃ (d', (owned, r), at). rw at (sent_after x s₂.db d' owned r, inr taken))
            (λ _ s₃ (d', same₃, at). rw at (inr (inr taken)))
            (lift-Ensures (λ d'. record s₂ { db = d' }) (mark_sent t event.event_id x s₂.db)
              (mark_sent-settles t event.event_id x s₂.db (rw same keyed))))
        (λ _ s₂ (e, refused). inr (inl (e, refused)))

  -- `handleUserCreated` on a table whose event ids are unique. It returns only if the event's
  -- notification is recorded as sent, and then either that was so before and nothing has happened,
  -- or the channel has taken the notification, in one call. If it throws, either the channel was
  -- left alone and no row has changed, or it was called once, and refused the notification or took
  -- it.
  pub handle_user_created-delivers :
      (token : String) (s : ServiceState Db Outside)
      → IsKeyed delivery_id (t.rows s.db)
      → Ensures
          (λ _ s'. IsDelivered s s')
          (λ _ s'. IsUndelivered s s')
          (handle_user_created (delivery_repository t) channel option event token s)
  unfolding handle_user_created
  handle_user_created-delivers token s v =
      and_then-Ensures _ (lease_duration-Ensures option s)
        (λ lease s₁ at. rw at (
          and_then-Ensures _
            (lift-Ensures (λ d. record s { db = d }) (claim t (request event lease) token s.db)
              (claim-IsAnswer t (request event lease) token s.db v))
            (λ a s₂ (d, h, at₂). rw at₂ (deliver-Ensures s d lease token a v h))
            (λ e s₂ (d, same, at₂). rw at₂ (inl (same, refl)))))
        (λ e s₁ at. rw at (inl (refl, refl)))

  -- A redelivered event is not sent again: once the event's notification is recorded as sent,
  -- `handleUserCreated` leaves the channel alone and changes no row, whether it returns or throws.
  pub handle_user_created-redelivered :
      (token : String) (s : ServiceState Db Outside)
      → IsKeyed delivery_id (t.rows s.db)
      → 0 < count_sent s.db
      → Ensures
          (λ _ s'. (t.rows s'.db ≡ t.rows s.db) × (s'.outside ≡ s.outside))
          (λ _ s'. (t.rows s'.db ≡ t.rows s.db) × (s'.outside ≡ s.outside))
          (handle_user_created (delivery_repository t) channel option event token s)
  unfolding handle_user_created deliver
  handle_user_created-redelivered token s v sent =
      and_then-Ensures _ (lease_duration-Ensures option s)
        (λ lease s₁ at. rw at (
          and_then-Ensures _
            (lift-Ensures (λ d. record s { db = d }) (claim t (request event lease) token s.db)
              ((claim_excluded t (request event lease) token s.db v).1 sent))
            (λ a s₂ (d, (answer, same), at₂). rw (at₂, answer) (returns (same, refl)))
            (λ e s₂ (d, same, at₂). rw at₂ (same, refl))))
        (λ e s₁ at. rw at (refl, refl))

-- ===== src/Relay/Publishing.antt =====
-- What `publish` of the relay does to the row of a claimed event, with the repository as its store.
use trams_assignment.Base.{
  ◌+◌, ◌≡◌, refl, sym, ap, ◌∙◌, String, M, ok, Ensures, returns, and_then-Ensures, or_else-Ensures,
  Ensures-weaken, Ensures-result, lift-Ensures, ◌⊎◌, inl, inr, take_text,
}
use trams_assignment.Contracts.{UserCreatedEvent}
use trams_assignment.Database.{Fault, Table}
use trams_assignment.Database.Rows.{update, IsKeyed}
use trams_assignment.Messaging.Publisher.{Jetstream}
use trams_assignment.Outbox.{
  OutboxEvent, ClaimedOutboxEvent, outbox_id, set_published, set_failed, outbox_repository,
  mark_published, mark_failed,
}
use trams_assignment.Outbox.Settling.{
  has_id, count_owned, mark_published-settles, mark_failed-settles,
}
use trams_assignment.Relay.{
  RelayState, RelaySettings, OutboxRelayCounters, retry_delay, send, reschedule, publish_event,
}

abbrev pub one_published : OutboxRelayCounters → OutboxRelayCounters
one_published c = record c { published = c.published + 1 }

abbrev pub one_failure : OutboxRelayCounters → OutboxRelayCounters
one_failure c = record c { publish_failures = c.publish_failures + 1 }

module _ {Db Broker Bytes : Type 0} (t : Table Db OutboxEvent outbox_id)
    (js : Jetstream Broker Bytes) (encode : UserCreatedEvent → Bytes) (settings : RelaySettings)
    (worker : String) (event : ClaimedOutboxEvent) (s : RelayState Db Broker) where
  abbrev to_broker : M Broker Fault (Unit {0})
  to_broker = send (outbox_repository t) t.clock js encode settings worker event

  -- The broker has acknowledged the event, the row was the worker's and is published now.
  pub record IsPublished (s' : RelayState Db Broker) : Type 0 where
    pub acknowledged : to_broker s.broker ≡ (ok tt, s'.broker)
    pub owned : count_owned event.id worker (t.rows s.db) ≡ 1
    pub rows : t.rows s'.db ≡ update (has_id event.id) (set_published (t.clock s.db)) (t.rows s.db)
    pub counted : s'.counters ≡ one_published s.counters

  -- The row was the worker's, and is due again after the delay, counted from the failure.
  pub record IsRescheduled (s' : RelayState Db Broker) : Type 0 where
    pub failed_at : Db
    pub message : String
    pub unchanged : t.rows failed_at ≡ t.rows s.db
    pub owned : count_owned event.id worker (t.rows s.db) ≡ 1
    pub rows :
        t.rows s'.db
        ≡ update
            (has_id event.id)
            (set_failed
              (t.clock failed_at + retry_delay (event.attempts + 1))
              (take_text 2000 message))
            (t.rows s.db)
    pub counted : s'.counters ≡ one_failure s.counters

  reschedule-Ensures :
      (e : Fault) (s₁ : RelayState Db Broker)
      → IsKeyed outbox_id (t.rows s.db)
      → t.rows s₁.db ≡ t.rows s.db
      → s₁.counters ≡ s.counters
      → Ensures
          (λ _ s'. IsRescheduled s')
          (λ _ s'. (t.rows s'.db ≡ t.rows s.db) × (s'.counters ≡ one_failure s.counters))
          (reschedule (outbox_repository t) t.clock js encode settings worker event e s₁)
  unfolding reschedule
  reschedule-Ensures e s₁ v same counters =
      let retry_at = t.clock s₁.db + retry_delay (event.attempts + 1) in
      let s₂ : RelayState Db Broker = record s₁ { counters = one_failure s₁.counters } in
      Ensures-weaken
        (λ _ s' (d, (owned, r), at). rw at (record {
          failed_at = s₁.db;
          message = e.message;
          unchanged = same;
          owned = ap (count_owned event.id worker) (sym same) ∙ owned;
          rows =
              r
              ∙ ap (update (has_id event.id) (set_failed retry_at (take_text 2000 e.message))) same;
          counted = ap one_failure counters;
        }))
        (λ _ s' (d, r, at). rw at (r ∙ same, ap one_failure counters))
        (lift-Ensures (λ d. record s₂ { db = d })
          (mark_failed t event.id worker retry_at e.message s₁.db)
          (mark_failed-settles t event.id worker retry_at e.message s₁.db (rw same v)))

  -- `publish` of an event, on a table whose ids are unique. If it returns, the worker held the row
  -- and one of two things has happened: the broker has acknowledged the event and the row is
  -- published; or the row is scheduled anew, at `retry_delay` after the failure with its attempts
  -- counted. Exactly the counter of the one that happened has grown by one, and no other row has
  -- changed. If it throws, no row has changed, and a failure is counted.
  pub publish_event-Ensures :
      IsKeyed outbox_id (t.rows s.db)
      → Ensures
          (λ _ s'. IsPublished s' ⊎ IsRescheduled s')
          (λ _ s'. (t.rows s'.db ≡ t.rows s.db) × (s'.counters ≡ one_failure s.counters))
          (publish_event (outbox_repository t) t.clock js encode settings worker event s)
  unfolding publish_event
  publish_event-Ensures v =
      or_else-Ensures {P = λ _ s'. IsPublished s'}
        {Q = λ _ s₁. (t.rows s₁.db ≡ t.rows s.db) × (s₁.counters ≡ s.counters)}
        (reschedule (outbox_repository t) t.clock js encode settings worker event)
        (and_then-Ensures _
          (lift-Ensures (λ b. record s { broker = b }) (to_broker s.broker)
            (Ensures-result (to_broker s.broker)))
          (λ _ s₁ (b, sent, e₁). rw e₁ (
            and_then-Ensures _
              (lift-Ensures (λ d. record s { broker = b; db = d })
                (mark_published t event.id worker s.db)
                (mark_published-settles t event.id worker s.db v))
              (λ _ s₂ (d, (owned, r), e₂). rw e₂ (
                returns {a = tt}
                  (record { acknowledged = sent; owned = owned; rows = r; counted = refl })))
              (λ e s₂ (d, same, e₂). rw e₂ (same, refl))))
          (λ e s₁ (b, sent, e₁). rw e₁ (refl, refl)))
        (λ _ s' p. inl p)
        (λ e s₁ (same, counters).
          Ensures-weaken (λ _ s' p. inr p) (λ _ s' p. p) (reschedule-Ensures e s₁ v same counters))

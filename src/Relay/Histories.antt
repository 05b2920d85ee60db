-- ===== src/Relay/Histories.antt =====
-- The relay on the outbox, with the repository as its store: all that it does to the table is a
-- history of the statements of Outbox/Replicas.
use trams_assignment.Base.{
  ℕ, zero, suc, ◌+◌, ◌-◌, refl, inl, inr, Bool, true, false, Bool-cases, List, [], ◌∷◌, length,
  ◌==◌, ltb, String, M, Result, Ensures, returns, and_then-Ensures, or_else-Ensures, Ensures-weaken,
  Ensures-result, Ensures-either, lift-Ensures,
}
use trams_assignment.Contracts.{UserCreatedEvent}
use trams_assignment.Database.{Fault, Table}
use trams_assignment.Messaging.Publisher.{Jetstream}
use trams_assignment.Outbox.{
  OutboxEvent, ClaimedOutboxEvent, outbox_id, outbox_repository, mark_failed, mark_published,
  claim_batch, get_operational_snapshot,
}
use trams_assignment.Outbox.Histories.{
  IsHistory, IsHistory-none, IsHistory-trans, claim_batch-Refines, mark_published-Refines,
  mark_failed-Refines, delete_published_before-Refines, get_operational_snapshot-Refines,
}
use trams_assignment.Relay.{
  RelayState, RelaySettings, in_db, send, reschedule, publish_event, publish_all, run_round, run,
  cleanup_loop, cleanup_round, metrics_round, retry_delay,
}

module _ {Db Broker Bytes : Type 0} (t : Table Db OutboxEvent outbox_id)
    (js : Jetstream Broker Bytes) (encode : UserCreatedEvent → Bytes) (settings : RelaySettings)
    (worker : String) where
  abbrev pub IsRun : RelayState Db Broker → RelayState Db Broker → Type 0
  IsRun s s' = IsHistory worker (t.rows s.db) (t.rows s'.db)

  -- The call has the effect of a history of the worker, whether it returns or throws.
  abbrev Refines :
      {E A : Type 0} → RelayState Db Broker → Result E A × RelayState Db Broker → Type 0
  Refines s x = Ensures (λ _ s'. IsRun s s') (λ e s'. IsRun s s') x

  -- A call of the repository, as a part of the relay's state.
  stored :
      {A : Type 0} (m : M Db Fault A) (s s₁ : RelayState Db Broker)
      → IsRun s s₁
      → Ensures
          (λ _ d. IsHistory worker (t.rows s₁.db) (t.rows d))
          (λ e d. IsHistory worker (t.rows s₁.db) (t.rows d))
          (m s₁.db)
      → Refines s (in_db m s₁)
  stored m s s₁ h k =
      Ensures-weaken (λ _ s' (d, p, at). rw at (IsHistory-trans h p))
        (λ e s' (d, p, at). rw at (IsHistory-trans h p))
        (lift-Ensures (λ d. record s₁ { db = d }) (m s₁.db) k)

  reschedule-Refines :
      (event : ClaimedOutboxEvent) (e : Fault) (s s₁ : RelayState Db Broker)
      → IsRun s s₁
      → Refines s (reschedule (outbox_repository t) t.clock js encode settings worker event e s₁)
  unfolding reschedule
  reschedule-Refines event e s s₁ h =
      let retry_at = t.clock s₁.db + retry_delay (event.attempts + 1) in
      stored (mark_failed t event.id worker retry_at e.message) s
        (record s₁ {
          counters = record (s₁.counters) { publish_failures = s₁.counters.publish_failures + 1 };
        })
        h (mark_failed-Refines t worker event.id retry_at e.message s₁.db)

  publish_event-Refines :
      (event : ClaimedOutboxEvent) (s s₁ : RelayState Db Broker)
      → IsRun s s₁
      → Refines s (publish_event (outbox_repository t) t.clock js encode settings worker event s₁)
  unfolding publish_event
  publish_event-Refines event s s₁ h =
      or_else-Ensures {P = λ _ s'. IsRun s s'} {Q = λ e s'. IsRun s s'} _
        (and_then-Ensures {P = λ _ s'. IsRun s s'} {Q = λ e s'. IsRun s s'} _
          (Ensures-weaken (λ _ s' (b, sent, at). rw at h) (λ e s' (b, sent, at). rw at h)
            (lift-Ensures (λ b. record s₁ { broker = b }) _
              (Ensures-result
                (send (outbox_repository t) t.clock js encode settings worker event s₁.broker))))
          (λ _ s₂ h₂.
            and_then-Ensures {P = λ _ s'. IsRun s s'} {Q = λ e s'. IsRun s s'} _
              (stored (mark_published t event.id worker) s s₂ h₂
                (mark_published-Refines t worker event.id s₂.db))
              (λ _ s₃ h₃. returns h₃) (λ e s₃ h₃. h₃))
          (λ e s₂ h₂. h₂))
        (λ _ s' p. p) (λ e s₂ h₂. reschedule-Refines event e s s₂ h₂)

  publish_all-Refines :
      (events : List ClaimedOutboxEvent) (s s₁ : RelayState Db Broker)
      → IsRun s s₁
      → Refines s (publish_all (outbox_repository t) t.clock js encode settings worker events s₁)
  unfolding publish_all
  publish_all-Refines [] s s₁ h = returns h
  publish_all-Refines (event ∷ events) s s₁ h =
      and_then-Ensures _ (publish_event-Refines event s s₁ h)
        (λ _ s₂ h₂. publish_all-Refines events s s₂ h₂) (λ e s₂ h₂. h₂)

  run_round-Refines :
      (s : RelayState Db Broker)
      → IsRun s (run_round (outbox_repository t) t.clock js encode settings worker s).1
  unfolding run_round
  run_round-Refines s = Ensures-either (
      or_else-Ensures {P = λ _ s'. IsRun s s'} {Q = λ e s'. IsRun s s'} _
        (and_then-Ensures _
          (stored (claim_batch t worker settings.batch_size settings.lock_timeout_ms) s s
            (IsHistory-none refl)
            (claim_batch-Refines t worker settings.batch_size settings.lock_timeout_ms s.db))
          (λ events s₁ h. elim (Bool-cases (length events == 0)) [
            | inl empty ↦ rw empty (returns h)
            | inr full ↦ rw full (
                and_then-Ensures _ (publish_all-Refines events s _ h) (λ _ s₂ h₂. returns h₂)
                  (λ e s₂ h₂. h₂))
          ])
          (λ e s₁ h. h))
        (λ _ s' p. p) (λ e s₁ h. returns h))

  run-IsRun :
      (signal : List Bool) (s : RelayState Db Broker)
      → IsRun s (run (outbox_repository t) t.clock js encode settings worker signal s)
  unfolding run
  run-IsRun [] s = IsHistory-none refl
  run-IsRun (true ∷ later) s = IsHistory-none refl
  run-IsRun (false ∷ later) s =
      IsHistory-trans (run_round-Refines s)
        (run-IsRun later (run_round (outbox_repository t) t.clock js encode settings worker s).1)

  cleanup_loop-Refines :
      (cutoff left deleted : ℕ) (d : Db)
      → Ensures
          (λ _ d'. IsHistory worker (t.rows d) (t.rows d'))
          (λ e d'. IsHistory worker (t.rows d) (t.rows d'))
          (cleanup_loop
            (outbox_repository t)
            t.clock
            js
            encode
            settings
            worker
            cutoff
            left
            deleted
            d)
  unfolding cleanup_loop
  cleanup_loop-Refines cutoff zero deleted d = returns (IsHistory-none refl)
  cleanup_loop-Refines cutoff (suc left) deleted d =
      and_then-Ensures _
        (delete_published_before-Refines t worker cutoff settings.cleanup_batch_size d)
        (λ n d₁ h. elim (Bool-cases (ltb n settings.cleanup_batch_size)) [
          | inl last ↦ rw last (returns h)
          | inr more ↦ rw more (
              Ensures-weaken (λ _ d₂ k. IsHistory-trans h k) (λ e d₂ k. IsHistory-trans h k)
                (cleanup_loop-Refines cutoff left (deleted + n) d₁))
        ])
        (λ e d₁ h. h)

  cleanup_round-Refines :
      (s : RelayState Db Broker)
      → IsRun s (cleanup_round (outbox_repository t) t.clock js encode settings worker s).1
  unfolding cleanup_round
  cleanup_round-Refines s =
      let cutoff = t.clock s.db - settings.published_retention_ms in
      Ensures-either (
        or_else-Ensures {P = λ _ s'. IsRun s s'} {Q = λ e s'. IsRun s s'} _
          (and_then-Ensures _
            (stored
              (cleanup_loop (outbox_repository t) t.clock js encode settings worker cutoff
                settings.cleanup_max_batches 0)
              s s (IsHistory-none refl)
              (cleanup_loop-Refines cutoff settings.cleanup_max_batches 0 s.db))
            (λ deleted s₁ h. returns h) (λ e s₁ h. h))
          (λ _ s' p. p) (λ e s₁ h. returns h))

  metrics_round-Refines :
      (s : RelayState Db Broker)
      → IsRun s (metrics_round (outbox_repository t) t.clock js encode settings worker s).1
  unfolding metrics_round
  metrics_round-Refines s = Ensures-either (
      or_else-Ensures {P = λ _ s'. IsRun s s'} {Q = λ e s'. IsRun s s'} _
        (and_then-Ensures _
          (stored (get_operational_snapshot t) s s (IsHistory-none refl)
            (get_operational_snapshot-Refines t worker s.db))
          (λ snapshot s₁ h. returns h) (λ e s₁ h. h))
        (λ _ s' p. p) (λ e s₁ h. returns h))

  -- The relay refines the statements of one replica. Whatever the broker and the database answer,
  -- the table ends as after a history of claims, publications, failures and deletions under the
  -- relay's own worker id, without inserts: after the loop of `run` for any schedule of its abort
  -- signal, after a round of the clean-up, and after a round of the metrics.
  pub relay-IsRun :
      (signal : List Bool) (s : RelayState Db Broker)
      → IsRun s (run (outbox_repository t) t.clock js encode settings worker signal s)
        × IsRun s (cleanup_round (outbox_repository t) t.clock js encode settings worker s).1
        × IsRun s (metrics_round (outbox_repository t) t.clock js encode settings worker s).1
  relay-IsRun signal s = (run-IsRun signal s, cleanup_round-Refines s, metrics_round-Refines s)

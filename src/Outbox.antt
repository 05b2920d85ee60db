-- ===== src/Outbox.antt =====
-- The outbox of the user service: apps/user-service/src/outbox/outbox.repository.ts and the model
-- OutboxEvent of prisma/schema.prisma. Times are milliseconds, `null` columns are optional values.
-- Each statement's `where` and `data` has a name of its own; a method runs them on the table `t`.
pub mod Claiming
pub mod Settling
pub mod Cleanup
pub mod Snapshot
pub mod Replicas
pub mod Histories
pub mod Progress
use trams_assignment.Base.{
  ℕ, ◌+◌, ◌-◌, Bool, false, and_then, map, take_text, append_text, ◌&&◌, ◌||◌, not, Option, none,
  some, List, [], ◌∷◌, String, str_eq, length, take, ltb, leb, ◌==◌, if◌then◌else◌, is_null,
  earlier, is_text, M, ok, ret, throw, ◌>>=◌, Result,
}
use trams_assignment.Contracts.{UserCreatedEvent}
use trams_assignment.Database.{Fault, error, Table}

pub record OutboxEvent : Type 0 where
  pub id : String
  pub subject : String
  pub payload : UserCreatedEvent
  pub created_at : ℕ
  pub next_attempt_at : ℕ
  pub published_at : Option ℕ
  pub attempts : ℕ
  pub locked_at : Option ℕ
  pub locked_by : Option String
  pub last_error : Option String

pub record ClaimedOutboxEvent : Type 0 where
  pub id : String
  pub subject : String
  pub payload : UserCreatedEvent
  pub attempts : ℕ

pub record OutboxOperationalSnapshot : Type 0 where
  pub pending : ℕ
  pub retrying : ℕ
  pub published_retained : ℕ
  pub oldest_pending_at : Option ℕ

-- `outboxSelect`
abbrev pub outbox_select : OutboxEvent → ClaimedOutboxEvent
outbox_select r = record {
  id = r.id;
  subject = r.subject;
  payload = r.payload;
  attempts = r.attempts;
}

abbrev pub outbox_id : OutboxEvent → String
outbox_id r = r.id

-- OR: [{ lockedAt: null }, { lockedAt: { lt: staleBefore } }]
abbrev pub available_lease : ℕ → OutboxEvent → Bool
available_lease stale_before r = is_null r.locked_at || earlier r.locked_at stale_before

abbrev pub is_claimable : ℕ → ℕ → OutboxEvent → Bool
is_claimable now stale_before r =
    is_null r.published_at && (leb r.next_attempt_at now && available_lease stale_before r)

abbrev pub take_lease : ℕ → String → OutboxEvent → OutboxEvent
take_lease now worker_id r = record r { locked_at = some now; locked_by = some worker_id }

-- { id: eventId, lockedBy: workerId, publishedAt: null }
abbrev pub owns_lease : String → String → OutboxEvent → Bool
owns_lease event_id worker_id r =
    str_eq r.id event_id && (is_text r.locked_by worker_id && is_null r.published_at)

abbrev pub set_published : ℕ → OutboxEvent → OutboxEvent
set_published now r = record r {
  published_at = some now;
  locked_at = none;
  locked_by = none;
  last_error = none;
}

abbrev pub set_failed : ℕ → String → OutboxEvent → OutboxEvent
set_failed retry_at message r = record r {
  attempts = r.attempts + 1;
  next_attempt_at = retry_at;
  locked_at = none;
  locked_by = none;
  last_error = some message;
}

abbrev pub published_before : ℕ → OutboxEvent → Bool
published_before cutoff r = earlier r.published_at cutoff

-- The value of a column in an ascending order, where no row that is ordered has a null in it.
abbrev pub published_order : OutboxEvent → ℕ
published_order r = elim r.published_at [ none ↦ 0 | some time ↦ time ]

abbrev pub listed : String → List String → Bool
listed k [] = false
listed k (x ∷ xs) = str_eq k x || listed k xs

-- `oldestPending?.createdAt ?? null`
abbrev pub first_created : List OutboxEvent → Option ℕ
first_created [] = none
first_created (r ∷ rs) = some r.created_at

assert_lease_was_owned : {World : Type 0} → ℕ → String → M World Fault (Unit {0})
assert_lease_was_owned updated_rows event_id =
    if updated_rows == 1
    then ret tt
    else throw (error (append_text "Outbox lease was lost for event " event_id))

module _ {World : Type 0} (t : Table World OutboxEvent outbox_id) where
  claim_each : String → ℕ → ℕ → List ClaimedOutboxEvent → M World Fault (List ClaimedOutboxEvent)
  claim_each worker_id now stale_before [] = ret []
  claim_each worker_id now stale_before (candidate ∷ candidates) = do
    updated ←
        t.update_many (λ r. is_claimable now stale_before r && str_eq r.id candidate.id)
          (take_lease now worker_id)
    claimed ← claim_each worker_id now stale_before candidates
    ret (if updated == 1 then candidate ∷ claimed else claimed)

  unfoldable pub claim_batch : String → ℕ → ℕ → M World Fault (List ClaimedOutboxEvent)
  unfolding claim_each
  claim_batch worker_id batch_size lock_timeout w =
      let now = t.clock w in
      let stale_before = now - lock_timeout in
      and_then (t.find_many (is_claimable now stale_before) (λ r. r.created_at) batch_size w)
        (λ found. claim_each worker_id now stale_before (map outbox_select found))

  unfoldable pub mark_published : String → String → M World Fault (Unit {0})
  unfolding assert_lease_was_owned
  mark_published event_id worker_id w =
      and_then (t.update_many (owns_lease event_id worker_id) (set_published (t.clock w)) w)
        (λ updated. assert_lease_was_owned updated event_id)

  unfoldable pub mark_failed : String → String → ℕ → String → M World Fault (Unit {0})
  unfolding assert_lease_was_owned
  mark_failed event_id worker_id retry_at message = do
    updated ←
        t.update_many (owns_lease event_id worker_id) (set_failed retry_at (take_text 2000 message))
    assert_lease_was_owned updated event_id

  unfoldable pub delete_published_before : ℕ → ℕ → M World Fault ℕ
  delete_published_before cutoff batch_size = do
    expired ← t.find_many (published_before cutoff) published_order batch_size
    let ids = map outbox_id expired
    if length ids == 0
        then ret 0
        else t.delete_many (λ r. listed r.id ids && published_before cutoff r)

  unfoldable pub get_operational_snapshot : M World Fault OutboxOperationalSnapshot
  get_operational_snapshot = do
    pending ← t.count_where (λ r. is_null r.published_at)
    retrying ← t.count_where (λ r. is_null r.published_at && ltb 0 r.attempts)
    published_retained ← t.count_where (λ r. not (is_null r.published_at))
    oldest_pending ← t.find_many (λ r. is_null r.published_at) (λ r. r.created_at) 1
    ret (record {
      pending = pending;
      retrying = retrying;
      published_retained = published_retained;
      oldest_pending_at = first_created oldest_pending;
    })

-- The interface that the relay is written against.
pub record OutboxStore (World : Type 0) : Type 0 where
  pub claim_batch : String → ℕ → ℕ → M World Fault (List ClaimedOutboxEvent)
  pub mark_published : String → String → M World Fault (Unit {0})
  pub mark_failed : String → String → ℕ → String → M World Fault (Unit {0})
  pub delete_published_before : ℕ → ℕ → M World Fault ℕ
  pub get_operational_snapshot : M World Fault OutboxOperationalSnapshot

-- The repository as such a store.
abbrev pub outbox_repository :
    {World : Type 0} → Table World OutboxEvent outbox_id → OutboxStore World
outbox_repository t = record {
  claim_batch = claim_batch t;
  mark_published = mark_published t;
  mark_failed = mark_failed t;
  delete_published_before = delete_published_before t;
  get_operational_snapshot = get_operational_snapshot t;
}

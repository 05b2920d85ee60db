-- ===== src/Relay/Progress.antt =====
-- The relay makes progress: as long as the database and the broker answer, each round of `run`
-- publishes a whole batch.
use trams_assignment.Base.{
  ℕ, ◌+◌, ◌-◌, ◌<◌, ◌≡◌, refl, ap, ◌∙◌, Bool, true, false, ◌&&◌, ◌||◌, List, [], ◌∷◌, map, length,
  length-map, ◌==◌, min, String, str_eq, eq_iff, eq_refl, count, count-true, count-and-le,
  count-congr, All, All-map, All-map₂, All-map_of, All-counted, All-of_count_zero, arith, Ensures,
  returns, ret, ◌>>◌, if◌then◌else◌, and_then-Ensures, or_else-Ensures, Ensures-weaken,
  Ensures-either, Ensures-never, lift-Ensures_never,
}
use trams_assignment.Contracts.{UserCreatedEvent}
use trams_assignment.Database.{Table, IsPage}
use trams_assignment.Database.Rows.{update, IsKeyed, count-update_off}
use trams_assignment.Messaging.Publisher.{Jetstream, SendOptions, publish, publish_raw, is_empty}
use trams_assignment.Outbox.{
  OutboxEvent, ClaimedOutboxEvent, outbox_id, outbox_select, outbox_repository, is_claimable,
  owns_lease, set_published, listed,
}
use trams_assignment.Outbox.Progress.{
  Returns, IsAnswering, is_unpublished, owned_update, unpublished-lease_all, owned_after,
  claim_batch-Returns, mark_published-Returns,
}
use trams_assignment.Outbox.Claiming.{
  lease_all, claimed_id, claim_batch-claims, tail_ne, IsKeyed-tail, page_claimable, page-IsKeyed,
}
use trams_assignment.Relay.{RelayState, RelaySettings, send, publish_event, publish_all, run_round}

-- The database and the broker answer: the statements of a round and each publication return.
pub record IsAvailable {Db Broker Bytes : Type 0} (t : Table Db OutboxEvent outbox_id)
    (js : Jetstream Broker Bytes) : Type 0 where
  pub answering : IsAnswering t
  pub publishes :
      (subject : String) (bytes : Bytes) (options : SendOptions) (b : Broker)
      → Returns (js.publish subject bytes options b)

-- A row that `publish` would refuse.
abbrev pub is_nameless : OutboxEvent → Bool
is_nameless r = is_empty r.subject || is_empty r.id

abbrev IsNamed : ClaimedOutboxEvent → Type 0
IsNamed c = (is_empty c.subject ≡ false) × (is_empty c.id ≡ false)

module _ {Db Broker Bytes : Type 0} (t : Table Db OutboxEvent outbox_id)
    (js : Jetstream Broker Bytes) (encode : UserCreatedEvent → Bytes) (settings : RelaySettings)
    (worker : String) (available : IsAvailable t js) where
  send-Returns :
      (event : ClaimedOutboxEvent) (b : Broker)
      → IsNamed event
      → Returns (send (outbox_repository t) t.clock js encode settings worker event b)
  unfolding send publish publish_raw
  send-Returns event b (subject, id) = rw (subject, id) (available.publishes _ _ _ b)

  -- The event is published, and the relay goes on.
  publish_event-Returns :
      (event : ClaimedOutboxEvent) (s : RelayState Db Broker)
      → IsNamed event
      → count (owns_lease event.id worker) (t.rows s.db) ≡ 1
      → Ensures
          (λ _ s'.
            (now : ℕ) × (t.rows s'.db
              ≡ update (owns_lease event.id worker) (set_published now) (t.rows s.db)))
          (λ _ _. ⊥)
          (publish_event (outbox_repository t) t.clock js encode settings worker event s)
  unfolding publish_event
  publish_event-Returns event s named owned =
      or_else-Ensures {Q = λ _ _. ⊥} _
        (and_then-Ensures {Q = λ _ _. ⊥} _
          (lift-Ensures_never (λ b. record s { broker = b }) _ (send-Returns event s.broker named))
          (λ _ s₁ (b, sent, at). rw at (
            and_then-Ensures {Q = λ _ _. ⊥} _
              (lift-Ensures_never (λ d. record s { broker = b; db = d }) _
                (mark_published-Returns t worker available.answering event.id s.db owned))
              (λ _ s₂ (d, changed, at₂). rw at₂ (returns (t.clock s.db, changed)))
              (λ e s₂ never. never)))
          (λ e s₁ never. never))
        (λ _ s' p. p) (λ e s' never. absurd never)

  -- Each event of the batch takes one row off those that wait.
  publish_all-Returns :
      (cs : List ClaimedOutboxEvent) (s : RelayState Db Broker)
      → All IsNamed cs
      → IsKeyed claimed_id cs
      → All (λ c. count (owns_lease c.id worker) (t.rows s.db) ≡ 1) cs
      → Ensures
          (λ _ s'.
            count is_unpublished (t.rows s'.db) + length cs ≡ count is_unpublished (t.rows s.db))
          (λ _ _. ⊥)
          (publish_all (outbox_repository t) t.clock js encode settings worker cs s)
  unfolding publish_all
  publish_all-Returns [] s named keyed owned = returns (omega arith)
  publish_all-Returns (c ∷ cs) s (name, named) keyed (own, owned) =
      and_then-Ensures {Q = λ _ _. ⊥} _ (publish_event-Returns c s name own)
        (λ _ s₁ (now, changed).
          Ensures-weaken
            (λ _ s₂ e. omega (
              arith,
              e,
              own,
              ap (count is_unpublished) changed,
              count-update_off is_unpublished (owns_lease c.id worker) (set_published now)
                  (t.rows s.db) (λ r h. (ground arith, refl)),
            ))
            (λ e s₂ never. never)
            (publish_all-Returns cs s₁ named (IsKeyed-tail c cs keyed) (
              All-map₂
                (λ d ne e.
                  ap (count (owns_lease d.id worker)) changed
                  ∙ owned_after worker c.id d.id now (t.rows s.db) ne
                  ∙ e)
                cs (tail_ne c cs keyed) owned)))
        (λ e s₁ never. absurd never)

-- The ids of a batch are listed.
listed_of_count :
    (k : String) (cs : List ClaimedOutboxEvent)
    → 0 < count (λ c. str_eq c.id k) cs
    → listed k (map claimed_id cs) ≡ true
listed_of_count k [] h = absurd (omega (arith, h))
listed_of_count k (c ∷ cs) h = ground (arith, eq_iff c.id k, eq_iff k c.id, listed_of_count k cs)

-- What a round has claimed: named events, each of which the worker owns.
record IsClaimed (worker : String) (size : ℕ) (before after : List OutboxEvent)
    (cs : List ClaimedOutboxEvent) : Type 0 where
  unpublished : count is_unpublished after ≡ count is_unpublished before
  sized : length cs ≡ size
  named : All IsNamed cs
  distinct : IsKeyed claimed_id cs
  owned : All (λ c. count (owns_lease c.id worker) after ≡ 1) cs

page-IsClaimed :
    (worker : String) (now stale n : ℕ) (rs found : List OutboxEvent)
    → IsKeyed outbox_id rs
    → count is_nameless rs ≡ 0
    → IsPage (is_claimable now stale) (λ r. r.created_at) n rs found
    → let cs = map outbox_select found in
      IsClaimed worker
        (min n (count (is_claimable now stale) rs))
        rs
        (lease_all now worker (map claimed_id cs) rs)
        cs
page-IsClaimed worker now stale n rs found keyed named page = record {
  unpublished = unpublished-lease_all worker now (map claimed_id (map outbox_select found)) rs;
  sized =
      length-map outbox_select found
      ∙ page.size
      ∙ ap (min n) (
          omega (
            arith,
            page.parts (λ _. true),
            count-true found,
            count-true page.rest,
            count-congr (λ r. is_claimable now stale r && true) (is_claimable now stale) rs
                (λ r. ground arith),
          ));
  named = All-map_of outbox_select IsNamed found (
      All-map (λ r h. (ground arith, ground arith)) found
        (All-of_count_zero is_nameless found (
          omega (
            arith,
            named,
            page.parts is_nameless,
            count-and-le (is_claimable now stale) is_nameless rs,
          ))));
  distinct = page-IsKeyed now stale n rs found keyed page;
  owned =
      All-map₂
        (λ c h one.
          owned_update worker c.id now (map claimed_id (map outbox_select found)) stale rs keyed
            (listed_of_count c.id (map outbox_select found) (h _ (eq_refl c.id))) one)
        (map outbox_select found) (All-counted (map outbox_select found))
        (page_claimable now stale n rs found keyed page);
}

module _ {Db Broker Bytes : Type 0} (t : Table Db OutboxEvent outbox_id)
    (js : Jetstream Broker Bytes) (encode : UserCreatedEvent → Bytes) (settings : RelaySettings)
    (worker : String) (available : IsAvailable t js) where
  -- The round after its claim.
  rest_of_round :
      (size : ℕ) (before : List OutboxEvent) (cs : List ClaimedOutboxEvent)
      (s : RelayState Db Broker)
      → IsClaimed worker size before (t.rows s.db) cs
      → Ensures
          (λ _ s'. count is_unpublished (t.rows s'.db) + size ≡ count is_unpublished before)
          (λ _ _. ⊥)
          ((if length cs == 0
              then ret settings.poll_interval_ms
              else publish_all (outbox_repository t) t.clock js encode settings worker cs >> ret 0)
            s)
  rest_of_round size before [] s claimed =
      returns (omega (arith, claimed.sized, claimed.unpublished))
  rest_of_round size before (c ∷ cs) s claimed =
      let busy : (length (c ∷ cs) == 0) ≡ false = ground arith in
      rw busy (
        and_then-Ensures {Q = λ _ _. ⊥} _
          (publish_all-Returns t js encode settings worker available (c ∷ cs) s claimed.named
            claimed.distinct claimed.owned)
          (λ _ s' e. returns (omega (arith, e, claimed.sized, claimed.unpublished)))
          (λ e s' never. never))

-- While the database and the broker answer, and where the ids of the table are unique and no id or
-- subject is empty, a round of `run` takes `min batchSize n` rows off those that wait to be
-- published, where `n` of the rows can be claimed: no event of the round is left behind.
pub run_round-progress :
    {Db Broker Bytes : Type 0} (t : Table Db OutboxEvent outbox_id) (js : Jetstream Broker Bytes)
    (encode : UserCreatedEvent → Bytes) (settings : RelaySettings) (worker : String)
    (s : RelayState Db Broker)
    → IsAvailable t js
    → IsKeyed outbox_id (t.rows s.db)
    → count is_nameless (t.rows s.db) ≡ 0
    → let now = t.clock s.db in
      let n = count (is_claimable now (now - settings.lock_timeout_ms)) (t.rows s.db) in
      let s' = (run_round (outbox_repository t) t.clock js encode settings worker s).1 in
      count is_unpublished (t.rows s'.db) + min settings.batch_size n
      ≡ count is_unpublished (t.rows s.db)
unfolding run_round
run_round-progress t js encode settings worker s available keyed named =
    let now = t.clock s.db in
    let stale = now - settings.lock_timeout_ms in
    let n = count (is_claimable now stale) (t.rows s.db) in
    Ensures-either
      {P = λ s'.
        count is_unpublished (t.rows s'.db) + min settings.batch_size n
        ≡ count is_unpublished (t.rows s.db)}
      (or_else-Ensures {Q = λ _ _. ⊥} _
        (and_then-Ensures {Q = λ _ _. ⊥} _
          (lift-Ensures_never (λ d. record s { db = d }) _
            (Ensures-never
              (claim_batch-claims t worker settings.batch_size settings.lock_timeout_ms s.db keyed)
              (claim_batch-Returns t worker available.answering settings.batch_size
                settings.lock_timeout_ms s.db)))
          (λ cs s₁ (d, (found, page, e, changed), at). rw at (
            rest_of_round t js encode settings worker available (min settings.batch_size n)
              (t.rows s.db) cs _
              (rw (changed, e)
                (page-IsClaimed worker now stale settings.batch_size (t.rows s.db) found keyed named
                  page))))
          (λ e s₁ never. never))
        (λ _ s' p. p) (λ e s' never. absurd never))

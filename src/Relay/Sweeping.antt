-- ===== src/Relay/Sweeping.antt =====
-- One round of the clean-up of published rows, `runCleanup`, with the repository as its store.
use native.Mathlib.Nat.{add_assoc, zero-add}
use trams_assignment.Base.{
  ℕ, zero, suc, ◌+◌, ◌-◌, ◌*◌, ◌≤◌, ◌<◌, ◌≡◌, refl, ap, ◌∙◌, Bool, true, false, inl, inr,
  Bool-cases, List, String, length, count, arith, ltb, Ensures, returns, and_then-Ensures,
  Ensures-weaken, lift-Ensures, or_else-Ensures, ◌⊎◌,
}
use trams_assignment.Contracts.{UserCreatedEvent}
use trams_assignment.Database.{Table}
use trams_assignment.Database.Rows.{IsKeyed}
use trams_assignment.Messaging.Publisher.{Jetstream}
use trams_assignment.Outbox.{OutboxEvent, outbox_id, published_before, outbox_repository}
use trams_assignment.Outbox.Cleanup.{IsCleaned, delete_published_before-IsCleaned}
use trams_assignment.Relay.{
  RelayState, OutboxRelayCounters, RelaySettings, cleanup_loop, cleanup_round,
}

-- What a sweep of at most `batches` deletions does: rows go, none that a test which misses the
-- expired ones counts; a sweep that deletes less than it may leaves no expired row.
pub record IsSwept (cutoff size batches : ℕ) (rs : List OutboxEvent) (deleted : ℕ)
    (rs' : List OutboxEvent) : Type 0 where
  pub bounded : deleted ≤ batches * size
  pub removed : deleted + length rs' ≡ length rs
  pub kept :
      (q : OutboxEvent → Bool)
      → ((r : OutboxEvent) → q r ≡ true → published_before cutoff r ≡ false)
      → count q rs' ≡ count q rs
  pub finished : deleted < batches * size → count (published_before cutoff) rs' ≡ 0

-- What a failed sweep leaves: no row is lost that is not expired.
abbrev pub IsKept : ℕ → List OutboxEvent → List OutboxEvent → Type 0
IsKept cutoff rs rs' =
    (q : OutboxEvent → Bool)
    → ((r : OutboxEvent) → q r ≡ true → published_before cutoff r ≡ false)
    → count q rs' ≡ count q rs

module _ {Db Broker Bytes : Type 0} (t : Table Db OutboxEvent outbox_id)
    (js : Jetstream Broker Bytes) (encode : UserCreatedEvent → Bytes) (settings : RelaySettings)
    (worker : String) where
  abbrev size : ℕ
  size = settings.cleanup_batch_size

  sweep_more :
      (cutoff left n m : ℕ) (rs rs₁ rs₂ : List OutboxEvent)
      → IsCleaned cutoff size rs n rs₁
      → IsSwept cutoff size left rs₁ m rs₂
      → n ≡ size
      → IsSwept cutoff size (suc left) rs (n + m) rs₂
  sweep_more cutoff left n m rs rs₁ rs₂ c k full = record {
    bounded = omega (arith, k.bounded);
    removed = omega (arith, c.removed, k.removed);
    kept = λ q h. k.kept q h ∙ c.kept q h;
    finished = λ h. k.finished (omega arith);
  }

  cleanup_loop-IsSwept :
      (cutoff left deleted : ℕ) (w : Db)
      → IsKeyed outbox_id (t.rows w)
      → Ensures
          (λ total w'.
            (n : ℕ) × (total ≡ deleted + n) × IsSwept cutoff size left (t.rows w) n (t.rows w'))
          (λ e w'. IsKept cutoff (t.rows w) (t.rows w'))
          (cleanup_loop
            (outbox_repository t)
            t.clock
            js
            encode
            settings
            worker
            cutoff
            left
            deleted
            w)
  unfolding cleanup_loop
  cleanup_loop-IsSwept cutoff zero deleted w v = returns (
    0,
    omega arith,
    record {
      bounded = omega arith;
      removed = omega arith;
      kept = λ q h. refl;
      finished = λ h. absurd (omega arith);
    },
  )
  cleanup_loop-IsSwept cutoff (suc left) deleted w v =
      and_then-Ensures _ (delete_published_before-IsCleaned t cutoff size w v)
        (λ n w₁ c. elim (Bool-cases (ltb n size)) [
          | inl partial ↦ rw partial (
              returns (
                n,
                refl,
                record {
                  bounded = omega (arith, c.bounded);
                  removed = c.removed;
                  kept = c.kept;
                  finished = λ h. c.finished (ground arith);
                },
              ))
          | inr full ↦ rw full (
              Ensures-weaken
                (λ total w₂ (m, e, k). (
                  n + m,
                  e ∙ add_assoc deleted n m,
                  sweep_more cutoff left n m _ _ _ c k (ground (arith, c.bounded)),
                ))
                (λ e w₂ kept q h. kept q h ∙ c.kept q h)
                (cleanup_loop-IsSwept cutoff left (deleted + n) w₁ c.keyed))
        ])
        (λ e w₁ same q h. ap (count q) same)

abbrev pub one_run : ℕ → OutboxRelayCounters → OutboxRelayCounters
one_run deleted c = record c {
  cleanup_runs = c.cleanup_runs + 1;
  cleanup_deleted = c.cleanup_deleted + deleted;
}

abbrev pub one_cleanup_failure : OutboxRelayCounters → OutboxRelayCounters
one_cleanup_failure c = record c { cleanup_failures = c.cleanup_failures + 1 }

-- One round of the clean-up loop, on a table whose ids are unique, never throws. If it counts no
-- failure, it has counted a run with the number of rows that it deleted: at most
-- `cleanup_max_batches` times `cleanup_batch_size`, all published before the retention period that
-- ends at the start of the round, and if it stopped short of that limit no such row is left. If it
-- counts a failure, the rows that it has deleted were such rows too.
pub cleanup_round-sweeps :
    {Db Broker Bytes : Type 0} (t : Table Db OutboxEvent outbox_id) (js : Jetstream Broker Bytes)
    (encode : UserCreatedEvent → Bytes) (settings : RelaySettings) (worker : String)
    (s : RelayState Db Broker)
    → IsKeyed outbox_id (t.rows s.db)
    → let cutoff = t.clock s.db - settings.published_retention_ms in
      Ensures
        (λ _ s'.
          ((n : ℕ) × IsSwept cutoff settings.cleanup_batch_size settings.cleanup_max_batches
              (t.rows s.db)
              n
              (t.rows s'.db)
            × (s'.counters ≡ one_run n s.counters))
          ⊎ (IsKept cutoff (t.rows s.db) (t.rows s'.db)
              × (s'.counters ≡ one_cleanup_failure s.counters)))
        (λ _ s'. ⊥)
        (cleanup_round (outbox_repository t) t.clock js encode settings worker s)
unfolding cleanup_round
cleanup_round-sweeps t js encode settings worker s v =
    let cutoff = t.clock s.db - settings.published_retention_ms in
    or_else-Ensures
      {P = λ _ s'.
        (n : ℕ) × IsSwept cutoff settings.cleanup_batch_size settings.cleanup_max_batches
          (t.rows s.db) n (t.rows s'.db)
        × (s'.counters ≡ one_run n s.counters)}
      {Q = λ _ s'. IsKept cutoff (t.rows s.db) (t.rows s'.db) × (s'.counters ≡ s.counters)} _
      (and_then-Ensures _
        (lift-Ensures (λ d. record s { db = d }) _
          (cleanup_loop-IsSwept t js encode settings worker cutoff settings.cleanup_max_batches 0
            s.db v))
        (λ total s₁ (d, (n, e, k), at).
          rw at (returns {a = tt} (n, k, ap (λ m. one_run m s.counters) (e ∙ zero-add n))))
        (λ e s₁ (d, kept, at). rw at (kept, refl)))
      (λ _ s' p. inl p) (λ e s₁ (kept, c). returns {a = tt} (inr (kept, ap one_cleanup_failure c)))

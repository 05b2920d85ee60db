-- ===== src/Outbox/Progress.antt =====
-- The repository when the database answers: `claimBatch` returns, and so does `markPublished` of a
-- lease that the worker holds.
use trams_assignment.Base.{
  ℕ, ◌≡◌, refl, ap, ◌∙◌, Bool, true, false, ◌&&◌, List, [], ◌∷◌, map, String, str_eq, eq_iff,
  eq_refl, count, count-and_left_le, arith, is_null, is_text, Result, Ensures, returns,
  and_then-Ensures, Ensures-never,
}
use trams_assignment.Database.{Fault, Table}
use trams_assignment.Database.Rows.{
  update, IsKeyed, update-IsKeyed, count-update, count-le-update_from,
}
use trams_assignment.Outbox.{
  OutboxEvent, ClaimedOutboxEvent, outbox_id, outbox_select, is_claimable, take_lease, owns_lease,
  set_published, listed, claim_each, claim_batch, mark_published, assert_lease_was_owned,
}
use trams_assignment.Outbox.Claiming.{lease_all, count_claimable}

-- The call returns.
abbrev pub Returns : {S A : Type 0} → Result Fault A × S → Type 0
Returns {S} {A} x = Ensures (λ (_ : A) (_ : S). Unit {0}) (λ (_ : Fault) (_ : S). ⊥) x

-- The database answers the statements of a round.
pub record IsAnswering {World : Type 0} (t : Table World OutboxEvent outbox_id) : Type 0 where
  pub finds :
      (p : OutboxEvent → Bool) (by : OutboxEvent → ℕ) (n : ℕ) (w : World)
      → Returns (t.find_many p by n w)
  pub updates :
      (p : OutboxEvent → Bool) (f : OutboxEvent → OutboxEvent) (w : World)
      → Returns (t.update_many p f w)

abbrev pub is_unpublished : OutboxEvent → Bool
is_unpublished r = is_null r.published_at

named_id :
    (now stale : ℕ) (k : String) (r : OutboxEvent)
    → (is_claimable now stale r && str_eq r.id k) ≡ true
    → r.id ≡ k
named_id now stale k r h = (eq_iff r.id k).0 (ground arith)

pub owned_update :
    (worker k : String) (now : ℕ) (ids : List String) (stale : ℕ) (rs : List OutboxEvent)
    → IsKeyed outbox_id rs
    → listed k ids ≡ true
    → count_claimable now stale rs k ≡ 1
    → count (owns_lease k worker) (lease_all now worker ids rs) ≡ 1
owned_update worker k now ids stale rs v seen one = omega (
  arith,
  one,
  update-IsKeyed outbox_id (λ r. listed r.id ids) (take_lease now worker) rs (λ r. refl) v k,
  count-and_left_le (λ r. str_eq r.id k) (λ r. is_text r.locked_by worker && is_null r.published_at)
      (lease_all now worker ids rs),
  count-le-update_from (λ r. is_claimable now stale r && str_eq r.id k) (owns_lease k worker)
      (λ r. listed r.id ids) (take_lease now worker) rs
      (λ r h.
        (ap (λ j. listed j ids) (named_id now stale k r h) ∙ seen, ground (arith, eq_refl worker))),
)

-- Leases do not publish.
pub unpublished-lease_all :
    (worker : String) (now : ℕ) (ids : List String) (rs : List OutboxEvent)
    → count is_unpublished (lease_all now worker ids rs) ≡ count is_unpublished rs
unpublished-lease_all worker now ids rs =
    count-update is_unpublished (λ r. listed r.id ids) (take_lease now worker) rs (λ r h. refl)

-- The end of a lease on one id leaves another's.
pub owned_after :
    (worker k j : String) (now : ℕ) (rs : List OutboxEvent)
    → str_eq j k ≡ false
    → count (owns_lease j worker) (update (owns_lease k worker) (set_published now) rs)
      ≡ count (owns_lease j worker) rs
owned_after worker k j now rs ne =
    count-update (owns_lease j worker) (owns_lease k worker) (set_published now) rs
      λ r h. ground (arith, eq_iff r.id k, eq_iff r.id j, eq_iff j k)

module _ {Db : Type 0} (t : Table Db OutboxEvent outbox_id) (worker : String)
    (available : IsAnswering t) where
  claim_each-Returns :
      (now stale : ℕ) (cs : List ClaimedOutboxEvent) (d : Db)
      → Returns (claim_each t worker now stale cs d)
  unfolding claim_each
  claim_each-Returns now stale [] d = returns tt
  claim_each-Returns now stale (c ∷ cs) d =
      and_then-Ensures _ (available.updates _ (take_lease now worker) d)
        (λ n d₁ _.
          and_then-Ensures _ (claim_each-Returns now stale cs d₁) (λ claimed d₂ _. returns tt)
            (λ e d₂ never. never))
        (λ e d₁ never. never)

  pub claim_batch-Returns :
      (batch_size lock_timeout : ℕ) (d : Db)
      → Returns (claim_batch t worker batch_size lock_timeout d)
  unfolding claim_batch
  claim_batch-Returns batch_size lock_timeout d =
      and_then-Ensures _ (available.finds _ _ batch_size d)
        (λ found d₁ _. claim_each-Returns _ _ (map outbox_select found) d₁) (λ e d₁ never. never)

  -- The owner's `markPublished` returns.
  pub mark_published-Returns :
      (k : String) (d : Db)
      → count (owns_lease k worker) (t.rows d) ≡ 1
      → Ensures
          (λ _ d'. t.rows d' ≡ update (owns_lease k worker) (set_published (t.clock d)) (t.rows d))
          (λ _ _. ⊥)
          (mark_published t k worker d)
  unfolding mark_published assert_lease_was_owned
  mark_published-Returns k d owned =
      and_then-Ensures _
        (Ensures-never (t.update_many_law _ (set_published (t.clock d)) d)
          (available.updates _ (set_published (t.clock d)) d))
        (λ n d₁ (counted, changed). rw (counted ∙ owned) (returns changed)) (λ e d₁ never. never)

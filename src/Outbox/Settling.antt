-- ===== src/Outbox/Settling.antt =====
-- How a lease ends: `markPublished` and `markFailed` of the outbox repository.
use trams_assignment.Base.{
  ℕ, ◌+◌, ◌≡◌, Bool, ◌&&◌, inl, inr, List, String, str_eq, count, Ensures, returns, throws,
  and_then, and_then-Ensures, take_text, some, none, is_text, is_null,
}
use trams_assignment.Database.{Table}
use trams_assignment.Database.Keyed.{update_many-IsUpdated}
use trams_assignment.Database.Rows.{update, IsKeyed}
use trams_assignment.Outbox.{
  OutboxEvent, outbox_id, owns_lease, set_published, set_failed, assert_lease_was_owned,
  mark_published, mark_failed,
}

abbrev pub has_id : String → OutboxEvent → Bool
has_id k r = str_eq r.id k

-- How many rows the worker holds under the id: none or one.
abbrev pub count_owned : String → String → List OutboxEvent → ℕ
count_owned event_id worker rs = count (owns_lease event_id worker) rs

module _ {World : Type 0} (t : Table World OutboxEvent outbox_id) where
  -- An update under the lease, followed by the check that it met one row.
  settle :
      (event_id worker : String) (f : OutboxEvent → OutboxEvent) (w : World)
      → IsKeyed outbox_id (t.rows w)
      → Ensures
          (λ _ w'.
            (count_owned event_id worker (t.rows w) ≡ 1)
            × (t.rows w' ≡ update (has_id event_id) f (t.rows w)))
          (λ e w'. t.rows w' ≡ t.rows w)
          (and_then
            (t.update_many (owns_lease event_id worker) f w)
            (λ updated. assert_lease_was_owned updated event_id))
  unfolding assert_lease_was_owned
  settle event_id worker f w v =
      and_then-Ensures _
        (update_many-IsUpdated t event_id
          (λ r. is_text r.locked_by worker && is_null r.published_at) f w v)
        (λ n w₁ met. elim met [
          | inl (one, owned, r) ↦ rw one (returns (owned, r))
          | inr (zero, lost, r) ↦ rw zero (throws r)
        ])
        (λ e w₁ same. same)

  -- `markPublished` on a table whose ids are unique: it succeeds only if the worker holds the
  -- unpublished row, and then that row and no other is published at the time of the call, its
  -- lease and last error cleared. If it throws, which a lost lease always makes it do, no row has
  -- changed.
  pub mark_published-settles :
      (event_id worker : String) (w : World)
      → IsKeyed outbox_id (t.rows w)
      → Ensures
          (λ _ w'.
            (count_owned event_id worker (t.rows w) ≡ 1)
            × (t.rows w' ≡ update (has_id event_id) (set_published (t.clock w)) (t.rows w)))
          (λ e w'. t.rows w' ≡ t.rows w)
          (mark_published t event_id worker w)
  unfolding mark_published
  mark_published-settles event_id worker w v =
      settle event_id worker (set_published (t.clock w)) w v

  -- `markFailed` on a table whose ids are unique: it succeeds only if the worker holds the
  -- unpublished row, and then that row and no other has one more attempt, is due again at
  -- `retry_at`, is free of its lease and keeps the error, cut to 2000 characters. If it throws,
  -- which a lost lease always makes it do, no row has changed.
  pub mark_failed-settles :
      (event_id worker : String) (retry_at : ℕ) (message : String) (w : World)
      → IsKeyed outbox_id (t.rows w)
      → Ensures
          (λ _ w'.
            (count_owned event_id worker (t.rows w) ≡ 1)
            × (t.rows w'
                ≡ update
                    (has_id event_id)
                    (λ r. record r {
                      attempts = r.attempts + 1;
                      next_attempt_at = retry_at;
                      locked_at = none;
                      locked_by = none;
                      last_error = some (take_text 2000 message);
                    })
                    (t.rows w)))
          (λ e w'. t.rows w' ≡ t.rows w)
          (mark_failed t event_id worker retry_at message w)
  unfolding mark_failed
  mark_failed-settles event_id worker retry_at message w v =
      settle event_id worker (set_failed retry_at (take_text 2000 message)) w v

-- ===== src/Delivery/Settling.antt =====
-- The ends of a claim: `markSent` and `markFailed` of the delivery repository.
use trams_assignment.Base.{
  ℕ, ◌≡◌, ◌&&◌, inl, inr, String, str_eq, count, take_text, Ensures, returns, throws, and_then,
  and_then-Ensures,
}
use trams_assignment.Database.{Table}
use trams_assignment.Database.Rows.{update, IsKeyed}
use trams_assignment.Database.Keyed.{update_many-IsUpdated}
use trams_assignment.Delivery.{
  NotificationDelivery, delivery_id, holds_claim, set_sent, set_released, assert_claim_was_owned,
  mark_sent, mark_failed,
}
use trams_assignment.Delivery.Claims.{has_event}

module _ {World : Type 0} (t : Table World NotificationDelivery delivery_id) where
  -- How many rows are claimed under the token: none or one.
  abbrev pub count_claimed : String → String → World → ℕ
  count_claimed event_id token w =
      count (λ r. str_eq r.event_id event_id && holds_claim token r) (t.rows w)

  settle :
      (event_id token : String) (f : NotificationDelivery → NotificationDelivery) (w : World)
      → IsKeyed delivery_id (t.rows w)
      → Ensures
          (λ _ w'.
            (count_claimed event_id token w ≡ 1)
            × (t.rows w' ≡ update (has_event event_id) f (t.rows w)))
          (λ e w'. t.rows w' ≡ t.rows w)
          (and_then
            (t.update_many (λ r. str_eq r.event_id event_id && holds_claim token r) f w)
            (λ updated. assert_claim_was_owned updated event_id))
  unfolding assert_claim_was_owned
  settle event_id token f w v =
      and_then-Ensures _ (update_many-IsUpdated t event_id (holds_claim token) f w v)
        (λ n w₁ met. elim met [
          | inl (one, owned, r) ↦ rw one (returns (owned, r))
          | inr (zero, lost, r) ↦ rw zero (throws r)
        ])
        (λ e w₁ same. same)

  -- `markSent` on a table whose event ids are unique: it succeeds only if the unsent row of the
  -- event holds the token, and then that row alone is sent at the time of the call, its claim and
  -- last error cleared. If it throws, as it does whenever the claim was lost, no row has changed.
  pub mark_sent-settles :
      (event_id token : String) (w : World)
      → IsKeyed delivery_id (t.rows w)
      → Ensures
          (λ _ w'.
            (count_claimed event_id token w ≡ 1)
            × (t.rows w' ≡ update (has_event event_id) (set_sent (t.clock w)) (t.rows w)))
          (λ e w'. t.rows w' ≡ t.rows w)
          (mark_sent t event_id token w)
  unfolding mark_sent
  mark_sent-settles event_id token w v = settle event_id token (set_sent (t.clock w)) w v

  pub mark_failed-settles :
      (event_id token message : String) (w : World)
      → IsKeyed delivery_id (t.rows w)
      → Ensures
          (λ _ w'.
            (count_claimed event_id token w ≡ 1)
            × (t.rows w'
                ≡ update (has_event event_id) (set_released (take_text 2000 message)) (t.rows w)))
          (λ e w'. t.rows w' ≡ t.rows w)
          (mark_failed t event_id token message w)
  unfolding mark_failed
  mark_failed-settles event_id token message w v =
      settle event_id token (set_released (take_text 2000 message)) w v

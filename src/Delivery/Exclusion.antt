-- ===== src/Delivery/Exclusion.antt =====
-- Two claims of one event exclude each other: `claim` of the delivery repository, called again.
use trams_assignment.Base.{
  ℕ, ◌+◌, ◌-◌, ◌≤◌, ◌<◌, ◌≡◌, refl, sym, subst, ◌&&◌, not, inl, inr, List, [], ◌∷◌, String, eq_iff,
  ok, of_ok, count-append, count, arith, is_null, is_since, count-and_disjoint, count-and_left_le,
  Ensures, Ensures-weaken,
}
use trams_assignment.Database.{Table}
use trams_assignment.Database.Rows.{count_id, IsKeyed, count-le-update_from}
use trams_assignment.Delivery.{
  NotificationDelivery, delivery_id, NotificationDeliveryInput, NotificationDeliveryClaim, claimed,
  already_sent, in_progress, new_delivery, set_claimed, claim,
}
use trams_assignment.Delivery.Claims.{
  has_event, is_sent_event, is_busy_event, is_open_event, IsAnswer, claim-IsAnswer,
}

module _ (k : String) (stale : ℕ) (rs : List NotificationDelivery)
    (v : IsKeyed delivery_id rs) where
  sent-open : count (is_sent_event k) rs + count (is_open_event k stale) rs ≤ 1
  sent-open = omega (
    arith,
    v k,
    count-and_disjoint (has_event k) (λ r. not (is_null r.sent_at))
        (λ r. is_null r.sent_at && not (is_since r.claimed_at stale)) rs (λ r h. ground arith),
  )

  sent-busy : count (is_sent_event k) rs + count (is_busy_event k stale) rs ≤ 1
  sent-busy = omega (
    arith,
    v k,
    count-and_disjoint (has_event k) (λ r. not (is_null r.sent_at))
        (λ r. is_null r.sent_at && is_since r.claimed_at stale) rs (λ r h. ground arith),
  )

  open-busy : count (is_open_event k stale) rs + count (is_busy_event k stale) rs ≤ 1
  open-busy = omega (
    arith,
    v k,
    count-and_disjoint (has_event k) (λ r. is_null r.sent_at && not (is_since r.claimed_at stale))
        (λ r. is_null r.sent_at && is_since r.claimed_at stale) rs (λ r h. ground arith),
  )

  sent-le-id : count (is_sent_event k) rs ≤ count_id delivery_id k rs
  sent-le-id = count-and_left_le (has_event k) (λ r. not (is_null r.sent_at)) rs

  busy-le-id : count (is_busy_event k stale) rs ≤ count_id delivery_id k rs
  busy-le-id =
      count-and_left_le (has_event k) (λ r. is_null r.sent_at && is_since r.claimed_at stale) rs

module _ (input : NotificationDeliveryInput) (token : String) (now : ℕ)
    (rs rs' : List NotificationDelivery) (v : IsKeyed delivery_id rs) where
  abbrev k : String
  k = input.event_id

  abbrev stale : ℕ
  stale = now - input.lease_duration_ms

  answer_if_sent :
      (a : NotificationDeliveryClaim)
      → 0 < count (is_sent_event k) rs
      → IsAnswer input token now rs a rs'
      → (a ≡ already_sent) × (rs' ≡ rs)
  answer_if_sent (claimed x) h (e, inl (none_there, r)) =
      absurd (omega (arith, sent-le-id k stale rs v))
  answer_if_sent (claimed x) h (e, inr (open_row, r)) =
      absurd (omega (arith, sent-open k stale rs v))
  answer_if_sent already_sent h (same, sent) = (refl, same)
  answer_if_sent in_progress h (same, busy) = absurd (omega (arith, sent-busy k stale rs v))

  answer_if_busy :
      (a : NotificationDeliveryClaim)
      → 0 < count (is_busy_event k stale) rs
      → IsAnswer input token now rs a rs'
      → (a ≡ in_progress) × (rs' ≡ rs)
  answer_if_busy (claimed x) h (e, inl (none_there, r)) =
      absurd (omega (arith, busy-le-id k stale rs v))
  answer_if_busy (claimed x) h (e, inr (open_row, r)) =
      absurd (omega (arith, open-busy k stale rs v))
  answer_if_busy already_sent h (same, sent) = absurd (omega (arith, sent-busy k stale rs v))
  answer_if_busy in_progress h (same, busy) = (refl, same)

  -- A claim that was granted keeps the event busy, until the lease has passed.
  granted-busy :
      (since : ℕ)
      → since ≤ now
      → IsAnswer input token now rs (claimed token) rs'
      → 0 < count (is_busy_event k since) rs'
  granted-busy since early (e, inl (none_there, r)) = rw r (
      ground (
        arith,
        early,
        eq_iff k k,
        count-append (is_busy_event k since) rs (new_delivery input token now ∷ []),
      ))
  granted-busy since early (e, inr (open_row, r)) = rw r (
      omega (
        arith,
        open_row,
        count-le-update_from (is_open_event k stale) (is_busy_event k since) (has_event k)
            (set_claimed token now) rs (λ r h. (ground arith, ground (arith, early))),
      ))

module _ {World : Type 0} (t : Table World NotificationDelivery delivery_id)
    (input : NotificationDeliveryInput) where
  -- A call of `claim` answers so, unless it throws, and in no case changes a row.
  abbrev pub Answers : NotificationDeliveryClaim → String → World → Type 0
  Answers expected token w =
      Ensures (λ answer w'. (answer ≡ expected) × (t.rows w' ≡ t.rows w))
        (λ e w'. t.rows w' ≡ t.rows w) (claim t input token w)

  busy-Answers :
      (token : String) (w : World)
      → IsKeyed delivery_id (t.rows w)
      → 0 < count (is_busy_event input.event_id (t.clock w - input.lease_duration_ms)) (t.rows w)
      → Answers in_progress token w
  busy-Answers token w v busy =
      Ensures-weaken
        (λ a w' h. answer_if_busy input token (t.clock w) (t.rows w) (t.rows w') v a busy h)
        (λ e w' same. same) (claim-IsAnswer t input token w v)

  -- Nobody claims an event twice at a time, on a table whose event ids are unique. A call of `claim`
  -- for an event that is unsent and was claimed within the lease answers `in_progress`, unless it
  -- throws, and one for an event that is sent answers `already_sent`; neither changes a row. So once a
  -- call has answered `claimed`, a further call with any token, on the same rows and while the lease
  -- has not passed, answers `in_progress`, unless it throws, and changes no row.
  pub claim_excluded :
      (token : String) (w : World)
      → IsKeyed delivery_id (t.rows w)
      → (0 < count (is_busy_event input.event_id (t.clock w - input.lease_duration_ms)) (t.rows w)
          → Answers in_progress token w)
        × (0 < count (is_sent_event input.event_id) (t.rows w) → Answers already_sent token w)
        × ((other : String) (w₁ w₂ : World)
            → claim t input token w ≡ (ok (claimed token), w₁)
            → t.rows w₂ ≡ t.rows w₁
            → IsKeyed delivery_id (t.rows w₂)
            → t.clock w₂ - input.lease_duration_ms ≤ t.clock w
            → Answers in_progress other w₂)
  claim_excluded token w v = (
    busy-Answers token w v,
    (λ sent.
        Ensures-weaken
          (λ a w' h. answer_if_sent input token (t.clock w) (t.rows w) (t.rows w') v a sent h)
          (λ e w' same. same) (claim-IsAnswer t input token w v)),
    λ other w₁ w₂ granted same v₂ early. busy-Answers other w₂ v₂ (
        subst
          (λ rs. 0 < count (is_busy_event input.event_id (t.clock w₂ - input.lease_duration_ms)) rs)
          (sym same)
          (granted-busy input token (t.clock w) (t.rows w) (t.rows w₁) v _ early (
            of_ok (
              subst
                (Ensures
                  (λ answer w'. IsAnswer input token (t.clock w) (t.rows w) answer (t.rows w')) _)
                granted (claim-IsAnswer t input token w v))))),
  )

-- ===== src/Delivery/Claims.antt =====
-- Who may send a notification: `claim` of the delivery repository.
use trams_assignment.Base.{
  ℕ, ◌-◌, ◌<◌, ◌≡◌, refl, sym, ap, ◌∙◌, subst, Bool, true, false, ◌&&◌, not, ◌⊎◌, inl, inr,
  Bool-cases, Option, none, some, List, [], ◌∷◌, ◌++◌, String, str_eq, eq_iff, count, count-congr,
  arith, if◌then◌else◌, is_null, is_since, is_text_iff, ret, Ensures, returns, throws,
  and_then-Ensures, or_else-Ensures,
}
use trams_assignment.Database.{Table, IsFound, unique_violation}
use trams_assignment.Database.Rows.{update, count_id, IsKeyed}
use trams_assignment.Database.Keyed.{update_many-IsUpdated}
use trams_assignment.Delivery.{
  NotificationDelivery, delivery_id, NotificationDeliveryInput, NotificationDeliveryClaim, claimed,
  already_sent, in_progress, new_delivery, is_open, set_claimed, is_sent, is_unique_event_id_error,
  insert_new, claim_existing, claim,
}

abbrev pub has_event : String → NotificationDelivery → Bool
has_event k r = str_eq r.event_id k

-- The notification of the event is sent.
abbrev pub is_sent_event : String → NotificationDelivery → Bool
is_sent_event k r = str_eq r.event_id k && not (is_null r.sent_at)

-- It is unsent, and claimed at `stale_before` or later.
abbrev pub is_busy_event : String → ℕ → NotificationDelivery → Bool
is_busy_event k stale_before r =
    str_eq r.event_id k && (is_null r.sent_at && is_since r.claimed_at stale_before)

-- It is unsent, and not claimed or claimed before `stale_before`.
abbrev pub is_open_event : String → ℕ → NotificationDelivery → Bool
is_open_event k stale_before r =
    str_eq r.event_id k && (is_null r.sent_at && not (is_since r.claimed_at stale_before))

count-is_open :
    (k : String) (stale : ℕ) (rs : List NotificationDelivery)
    → count (is_open_event k stale) rs ≡ count (λ r. str_eq r.event_id k && is_open stale r) rs
count-is_open k stale rs =
    count-congr (is_open_event k stale) (λ r. str_eq r.event_id k && is_open stale r) rs
      (λ r. ground arith)

-- What each answer to a claim at the time `now` says of the rows, and does to them.
abbrev pub IsAnswer :
    NotificationDeliveryInput
    → String
    → ℕ
    → List NotificationDelivery
    → NotificationDeliveryClaim
    → List NotificationDelivery
    → Type 0
IsAnswer input token now rs (claimed claim_token) rs' =
    (claim_token ≡ token)
    × (((count_id delivery_id input.event_id rs ≡ 0)
          × (rs' ≡ rs ++ new_delivery input token now ∷ []))
        ⊎ ((count (is_open_event input.event_id (now - input.lease_duration_ms)) rs ≡ 1)
            × (rs' ≡ update (has_event input.event_id) (set_claimed token now) rs)))
IsAnswer input token now rs already_sent rs' =
    (rs' ≡ rs) × (0 < count (is_sent_event input.event_id) rs)
IsAnswer input token now rs in_progress rs' =
    (rs' ≡ rs) × (0 < count (is_busy_event input.event_id (now - input.lease_duration_ms)) rs)

abbrev IsInserted :
    NotificationDeliveryInput
    → String
    → ℕ
    → List NotificationDelivery
    → Bool
    → List NotificationDelivery
    → Type 0
IsInserted input token now rs true rs' =
    (count_id delivery_id input.event_id rs ≡ 0) × (rs' ≡ rs ++ new_delivery input token now ∷ [])
IsInserted input token now rs false rs' = (rs' ≡ rs) × (0 < count_id delivery_id input.event_id rs)

found_sent :
    (k : String) (rs : List NotificationDelivery) (o : Option NotificationDelivery)
    → IsFound delivery_id k rs o
    → is_sent o ≡ true
    → 0 < count (is_sent_event k) rs
found_sent k rs none h e = cc
found_sent k rs (some r) (at, seen) e =
    seen (is_sent_event k) (ground (arith, eq_iff r.event_id k, at))

found_busy :
    (k : String) (stale : ℕ) (rs : List NotificationDelivery) (o : Option NotificationDelivery)
    → IsFound delivery_id k rs o
    → 0 < count_id delivery_id k rs
    → is_sent o ≡ false
    → count (is_open_event k stale) rs ≡ 0
    → 0 < count (is_busy_event k stale) rs
found_busy k stale rs none h there e closed = absurd (omega (arith, h))
found_busy k stale rs (some r) (at, seen) there e closed =
    elim (Bool-cases (is_open_event k stale r)) [
      | inl open_row ↦ absurd (omega (arith, seen (is_open_event k stale) open_row))
      | inr busy ↦ seen (is_busy_event k stale) (ground (arith, eq_iff r.event_id k, at))
    ]

module _ {World : Type 0} (t : Table World NotificationDelivery delivery_id)
    (input : NotificationDeliveryInput) (token : String) where
  insert_new-Ensures :
      (w : World)
      → Ensures
          (λ is_new w'. IsInserted input token (t.clock w) (t.rows w) is_new (t.rows w'))
          (λ e w'. t.rows w' ≡ t.rows w)
          (insert_new t input token w)
  unfolding insert_new
  insert_new-Ensures w =
      or_else-Ensures
        {P = λ b w'. (b ≡ true) × IsInserted input token (t.clock w) (t.rows w) true (t.rows w')} _
        (and_then-Ensures _ (t.create_law (new_delivery input token (t.clock w)) w)
          (λ _ w₁ p. returns (refl, p)) (λ e w₁ q. q))
        (λ b w₁ (e, p). rw e p)
        (λ e w₁ (same, taken, code). elim (Bool-cases (is_unique_event_id_error e)) [
          | inl u ↦ rw u (returns (same, taken ((is_text_iff e.code unique_violation).0 u)))
          | inr n ↦ rw n (throws same)
        ])

  claim_existing-Ensures :
      (now : ℕ) (w : World)
      → IsKeyed delivery_id (t.rows w)
      → 0 < count_id delivery_id input.event_id (t.rows w)
      → Ensures
          (λ answer w'. IsAnswer input token now (t.rows w) answer (t.rows w'))
          (λ e w'. t.rows w' ≡ t.rows w)
          (claim_existing t input token now w)
  unfolding claim_existing
  claim_existing-Ensures now w v there =
      let k = input.event_id in
      let stale = now - input.lease_duration_ms in
      and_then-Ensures _ (t.find_unique_law k w)
        (λ existing w₁ (same, found). elim (Bool-cases (is_sent existing)) [
          | inl sent ↦ rw sent (returns (same, found_sent k (t.rows w) existing found sent))
          | inr unsent ↦ rw unsent (
              and_then-Ensures _
                (update_many-IsUpdated t k (is_open stale) (set_claimed token now) w₁ (rw same v))
                (λ n w₂ met. elim met [
                  | inl (one, open_rows, r) ↦ rw one (
                      returns (
                        refl,
                        inr (
                          ap (count (is_open_event k stale)) (sym same)
                              ∙ count-is_open k stale (t.rows w₁)
                              ∙ open_rows,
                          r ∙ ap (update (has_event k) (set_claimed token now)) same,
                        ),
                      ))
                  | inr (zero, closed, r) ↦ rw zero (
                      and_then-Ensures _ (t.find_unique_law k w₂)
                        (λ current w₃ (same₃, found₃).
                          let again : t.rows w₂ ≡ t.rows w = r ∙ same in
                          let at : IsFound delivery_id k (t.rows w) current =
                            subst (λ rs. IsFound delivery_id k rs current) again found₃ in
                          elim (Bool-cases (is_sent current)) [
                            | inl sent ↦
                                rw sent
                                  (returns (same₃ ∙ again, found_sent k (t.rows w) current at sent))
                            | inr waiting ↦ rw waiting (
                                returns (
                                  same₃ ∙ again,
                                  found_busy k stale (t.rows w) current at there waiting (
                                      ap (count (is_open_event k stale)) (sym same)
                                      ∙ count-is_open k stale (t.rows w₁)
                                      ∙ closed),
                                ))
                          ])
                        (λ e w₃ same₃. same₃ ∙ r ∙ same))
                ])
                (λ e w₂ same₂. same₂ ∙ same))
        ])
        (λ e w₁ same. same)

  -- A call of `claim` on a table whose event ids are unique. If it answers `claimed`, with the
  -- token drawn for the call, either the event had no row and has a new one now, claimed with one
  -- attempt; or its row was unsent and open, and that row alone is claimed now. It answers
  -- `already_sent` only if the event's notification is sent, and `in_progress` only if it is unsent
  -- and claimed within the lease; then, and if it throws, no row has changed.
  pub claim-IsAnswer :
      (w : World)
      → IsKeyed delivery_id (t.rows w)
      → Ensures
          (λ answer w'. IsAnswer input token (t.clock w) (t.rows w) answer (t.rows w'))
          (λ e w'. t.rows w' ≡ t.rows w)
          (claim t input token w)
  unfolding claim
  claim-IsAnswer w v =
      and_then-Ensures _ (insert_new-Ensures w) (λ is_new w₁ h. answer is_new w₁ h)
        (λ e w₁ same. same)
    where
      answer :
          (is_new : Bool) (w₁ : World)
          → IsInserted input token (t.clock w) (t.rows w) is_new (t.rows w₁)
          → Ensures
              (λ answer w'. IsAnswer input token (t.clock w) (t.rows w) answer (t.rows w'))
              (λ e w'. t.rows w' ≡ t.rows w)
              ((if is_new then ret (claimed token) else claim_existing t input token (t.clock w))
                w₁)
      answer true w₁ h = returns (refl, inl h)
      answer false w₁ (same, there) =
          subst
            (λ rs.
              Ensures (λ answer w'. IsAnswer input token (t.clock w) rs answer (t.rows w'))
                (λ e w'. t.rows w' ≡ rs) (claim_existing t input token (t.clock w) w₁))
            same (claim_existing-Ensures (t.clock w) w₁ (rw same v) (rw same there))

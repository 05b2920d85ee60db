-- ===== src/Outbox/Histories.antt =====
-- What a call of the repository does to the table, as a history of the statements of
-- Outbox/Replicas: the methods refine them, whether a call returns or throws.
use trams_assignment.Base.{
  ℕ, ◌-◌, ◌≡◌, refl, sym, ap, ◌∙◌, inl, inr, Bool-cases, List, [], ◌∷◌, ◌++◌, map, length, ◌==◌,
  String, All, All-append, Result, Ensures, returns, throws, and_then-Ensures, Ensures-weaken,
  take_text,
}
use trams_assignment.Database.{Fault, Table}
use trams_assignment.Outbox.{
  OutboxEvent, ClaimedOutboxEvent, outbox_id, outbox_select, take_lease, set_published, set_failed,
  published_before, published_order, claim_each, claim_batch, mark_published, mark_failed,
  delete_published_before, get_operational_snapshot, assert_lease_was_owned,
}
use trams_assignment.Outbox.Replicas.{
  Statement, inserts, claims, publishes, fails, deletes, apply, run,
}

run-append :
    (ss ss' : List Statement) (rs : List OutboxEvent) → run (ss ++ ss') rs ≡ run ss' (run ss rs)
unfolding run
run-append [] ss' rs = refl
run-append (s ∷ ss) ss' rs = run-append ss ss' (apply s rs)

-- A statement of the relay of `worker`: it inserts nothing, and leases and ends leases only for
-- that worker.
abbrev pub IsBy : String → Statement → Type 0
IsBy worker (inserts row) = ⊥
IsBy worker (claims other id now lock_timeout) = other ≡ worker
IsBy worker (publishes other id now) = other ≡ worker
IsBy worker (fails other id retry_at message) = other ≡ worker
IsBy worker (deletes ids cutoff) = Unit {0}

-- A history of the worker leads from the one table to the other.
pub record IsHistory (worker : String) (rs rs' : List OutboxEvent) : Type 0 where
  pub statements : List Statement
  pub by : All (IsBy worker) statements
  pub effect : rs' ≡ run statements rs

pub IsHistory-none :
    {worker : String} {rs rs' : List OutboxEvent} → rs' ≡ rs → IsHistory worker rs rs'
unfolding run
IsHistory-none same = record { statements = []; by = tt; effect = same }

IsHistory-one :
    {worker : String} {rs rs' : List OutboxEvent} (s : Statement)
    → IsBy worker s
    → rs' ≡ apply s rs
    → IsHistory worker rs rs'
unfolding run
IsHistory-one s by e = record { statements = s ∷ []; by = (by, tt); effect = e }

pub IsHistory-trans :
    {worker : String} {rs rs₁ rs₂ : List OutboxEvent}
    → IsHistory worker rs rs₁
    → IsHistory worker rs₁ rs₂
    → IsHistory worker rs rs₂
IsHistory-trans {rs = rs} h k = record {
  statements = h.statements ++ k.statements;
  by = All-append _ h.statements k.statements h.by k.by;
  effect =
      k.effect ∙ ap (run k.statements) h.effect ∙ sym (run-append h.statements k.statements rs);
}

module _ {World : Type 0} (t : Table World OutboxEvent outbox_id) (worker : String) where
  -- The call has the effect of a history of the worker, whether it returns or throws.
  abbrev pub Refines : {A : Type 0} → World → Result Fault A × World → Type 0
  Refines w x =
      Ensures (λ _ w'. IsHistory worker (t.rows w) (t.rows w'))
        (λ e w'. IsHistory worker (t.rows w) (t.rows w')) x

  claim_each-Refines :
      (now lock_timeout : ℕ) (cs : List ClaimedOutboxEvent) (w : World)
      → Refines w (claim_each t worker now (now - lock_timeout) cs w)
  unfolding claim_each apply
  claim_each-Refines now lock_timeout [] w = returns (IsHistory-none refl)
  claim_each-Refines now lock_timeout (c ∷ cs) w =
      and_then-Ensures _ (t.update_many_law _ (take_lease now worker) w)
        (λ n w₁ (counted, changed).
          let one : IsHistory worker (t.rows w) (t.rows w₁) =
            IsHistory-one (claims worker c.id now lock_timeout) refl changed in
          and_then-Ensures _ (claim_each-Refines now lock_timeout cs w₁)
            (λ claimed w₂ h. returns (IsHistory-trans one h)) (λ e w₂ h. IsHistory-trans one h))
        (λ e w₁ same. IsHistory-none same)

  pub claim_batch-Refines :
      (batch_size lock_timeout : ℕ) (w : World)
      → Refines w (claim_batch t worker batch_size lock_timeout w)
  unfolding claim_batch
  claim_batch-Refines batch_size lock_timeout w =
      and_then-Ensures _ (t.find_many_law _ _ batch_size w)
        (λ found w₁ (same, page).
          Ensures-weaken (λ _ w₂ h. IsHistory-trans (IsHistory-none same) h)
            (λ e w₂ h. IsHistory-trans (IsHistory-none same) h)
            (claim_each-Refines (t.clock w) lock_timeout (map outbox_select found) w₁))
        (λ e w₁ same. IsHistory-none same)

  assert-Refines :
      (n : ℕ) (event_id : String) (w w₁ : World)
      → IsHistory worker (t.rows w) (t.rows w₁)
      → Refines w (assert_lease_was_owned n event_id w₁)
  unfolding assert_lease_was_owned
  assert-Refines n event_id w w₁ h = elim (Bool-cases (n == 1)) [
    | inl one ↦ rw one (returns h)
    | inr other ↦ rw other (throws h)
  ]

  pub mark_published-Refines :
      (event_id : String) (w : World) → Refines w (mark_published t event_id worker w)
  unfolding mark_published apply
  mark_published-Refines event_id w =
      and_then-Ensures _ (t.update_many_law _ (set_published (t.clock w)) w)
        (λ n w₁ (counted, changed).
          assert-Refines n event_id w w₁
            (IsHistory-one (publishes worker event_id (t.clock w)) refl changed))
        (λ e w₁ same. IsHistory-none same)

  pub mark_failed-Refines :
      (event_id : String) (retry_at : ℕ) (message : String) (w : World)
      → Refines w (mark_failed t event_id worker retry_at message w)
  unfolding mark_failed apply
  mark_failed-Refines event_id retry_at message w =
      and_then-Ensures _ (t.update_many_law _ (set_failed retry_at (take_text 2000 message)) w)
        (λ n w₁ (counted, changed).
          assert-Refines n event_id w w₁
            (IsHistory-one (fails worker event_id retry_at message) refl changed))
        (λ e w₁ same. IsHistory-none same)

  pub delete_published_before-Refines :
      (cutoff batch_size : ℕ) (w : World)
      → Refines w (delete_published_before t cutoff batch_size w)
  unfolding delete_published_before apply
  delete_published_before-Refines cutoff batch_size w =
      and_then-Ensures _ (t.find_many_law (published_before cutoff) published_order batch_size w)
        (λ expired w₁ (same, page). elim (Bool-cases (length (map outbox_id expired) == 0)) [
          | inl empty ↦ rw empty (returns (IsHistory-none same))
          | inr some_ids ↦ rw some_ids (
              Ensures-weaken
                (λ n w₂ (counted, left).
                  IsHistory-trans (IsHistory-none same)
                    (IsHistory-one (deletes (map outbox_id expired) cutoff) tt left))
                (λ e w₂ same₂. IsHistory-none (same₂ ∙ same)) (t.delete_many_law _ w₁))
        ])
        (λ e w₁ same. IsHistory-none same)

  -- A query has no effect.
  reads :
      {A : Type 0} {P : A → World → Type 0} {w : World} {x : Result Fault A × World}
      → Ensures (λ a w'. (t.rows w' ≡ t.rows w) × P a w') (λ e w'. t.rows w' ≡ t.rows w) x
      → Refines w x
  reads = Ensures-weaken (λ _ w' (same, p). IsHistory-none same) (λ e w' same. IsHistory-none same)

  after :
      {A : Type 0} {w w₁ : World} {x : Result Fault A × World}
      → IsHistory worker (t.rows w) (t.rows w₁)
      → Refines w₁ x
      → Refines w x
  after h = Ensures-weaken (λ _ w' k. IsHistory-trans h k) (λ e w' k. IsHistory-trans h k)

  pub get_operational_snapshot-Refines : (w : World) → Refines w (get_operational_snapshot t w)
  unfolding get_operational_snapshot
  get_operational_snapshot-Refines w =
      and_then-Ensures _ (reads (t.count_where_law _ w))
        (λ _ w₁ h₁.
          and_then-Ensures _ (after h₁ (reads (t.count_where_law _ w₁)))
            (λ _ w₂ h₂.
              and_then-Ensures _ (after h₂ (reads (t.count_where_law _ w₂)))
                (λ _ w₃ h₃.
                  and_then-Ensures _ (after h₃ (reads (t.find_many_law _ _ 1 w₃)))
                    (λ _ w₄ h₄. returns h₄) (λ e w₄ h₄. h₄))
                (λ e w₃ h₃. h₃))
            (λ e w₂ h₂. h₂))
        (λ e w₁ h₁. h₁)

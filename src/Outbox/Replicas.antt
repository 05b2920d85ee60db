-- ===== src/Outbox/Replicas.antt =====
-- Several replicas of the user service on one outbox table. PostgreSQL runs each statement as a
-- whole, and those of different replicas follow one another in any order: a history is a list of
-- statements, each written by the `where` and `data` that the repository gives it.
use trams_assignment.Base.{
  ℕ, ◌-◌, ◌≤◌, ◌<◌, ◌≡◌, ◌≢◌, refl, sym, ◌∙◌, Bool, false, ◌&&◌, none, some, List, [], ◌∷◌, ◌++◌,
  String, str_eq, eq_iff, count, count-append, All, arith, if◌then◌else◌, ◌==◌, ltb, is_null,
  is_text, is_text_iff, is_since, take_text, inl, inr, Bool-cases,
}
use trams_assignment.Database.Rows.{
  update, reject, count_id, IsKeyed, update-IsKeyed, reject-IsKeyed, count-le-update,
  count-le-reject, insert-IsKeyed,
}
use trams_assignment.Outbox.{
  OutboxEvent, outbox_id, is_claimable, take_lease, owns_lease, set_published, set_failed, listed,
  published_before,
}

-- The statements that change the table: the insert of `createUser`, the claim of one candidate
-- with the time that `claimBatch` has read, the ends of a lease, and the deletion of a page.
pub data Statement : Type 0 where
  inserts : OutboxEvent → Statement
  claims : (worker : String) (id : String) (now lock_timeout : ℕ) → Statement
  publishes : (worker : String) (id : String) (now : ℕ) → Statement
  fails : (worker : String) (id : String) (retry_at : ℕ) (message : String) → Statement
  deletes : (ids : List String) (cutoff : ℕ) → Statement

unfoldable pub apply : Statement → List OutboxEvent → List OutboxEvent
apply (inserts row) rs = if ltb 0 (count_id outbox_id row.id rs) then rs else rs ++ row ∷ []
apply (claims worker id now lock_timeout) rs =
    update (λ r. is_claimable now (now - lock_timeout) r && str_eq r.id id) (take_lease now worker)
      rs
apply (publishes worker id now) rs = update (owns_lease id worker) (set_published now) rs
apply (fails worker id retry_at message) rs =
    update (owns_lease id worker) (set_failed retry_at (take_text 2000 message)) rs
apply (deletes ids cutoff) rs = reject (λ r. listed r.id ids && published_before cutoff r) rs

unfoldable pub run : List Statement → List OutboxEvent → List OutboxEvent
run [] rs = rs
run (s ∷ ss) rs = run ss (apply s rs)

-- The primary key stays one, whatever the replicas do.
apply-IsKeyed :
    (s : Statement) (rs : List OutboxEvent) → IsKeyed outbox_id rs → IsKeyed outbox_id (apply s rs)
unfolding apply
apply-IsKeyed (inserts row) rs v = elim (Bool-cases (ltb 0 (count_id outbox_id row.id rs))) [
  | inl taken ↦ rw taken v
  | inr free ↦ rw free (insert-IsKeyed outbox_id row rs (ground arith) v)
]
apply-IsKeyed (claims worker id now lock_timeout) rs v =
    update-IsKeyed outbox_id _ (take_lease now worker) rs (λ r. refl) v
apply-IsKeyed (publishes worker id now) rs v =
    update-IsKeyed outbox_id _ (set_published now) rs (λ r. refl) v
apply-IsKeyed (fails worker id retry_at message) rs v =
    update-IsKeyed outbox_id _ (set_failed retry_at (take_text 2000 message)) rs (λ r. refl) v
apply-IsKeyed (deletes ids cutoff) rs v = reject-IsKeyed outbox_id _ rs v

-- `worker` holds the unpublished row `id` by a lease taken at `time` or later.
abbrev pub is_held : String → String → ℕ → OutboxEvent → Bool
is_held worker id time r =
    str_eq r.id id
    && (is_text r.locked_by worker && (is_null r.published_at && is_since r.locked_at time))

-- A statement that may not end a lease that `worker` has since `time`: any but the worker's own
-- `markPublished` and `markFailed`, and a claim only before the lease runs out.
abbrev pub Respects : String → ℕ → Statement → Type 0
Respects worker time (inserts row) = Unit {0}
Respects worker time (claims other id now lock_timeout) = now - lock_timeout ≤ time
Respects worker time (publishes other id now) = other ≢ worker
Respects worker time (fails other id retry_at message) = other ≢ worker
Respects worker time (deletes ids cutoff) = Unit {0}

apply-held :
    (worker id : String) (time : ℕ) (s : Statement) (rs : List OutboxEvent)
    → Respects worker time s
    → count (is_held worker id time) rs ≤ count (is_held worker id time) (apply s rs)
unfolding apply
apply-held worker id time (inserts row) rs h =
    ground (arith, count-append (is_held worker id time) rs (row ∷ []))
apply-held worker id time (claims other k now lock_timeout) rs h =
    count-le-update (is_held worker id time)
      (λ r. is_claimable now (now - lock_timeout) r && str_eq r.id k) (take_lease now other) rs
      λ r c o. ground arith
apply-held worker id time (publishes other k now) rs h =
    count-le-update (is_held worker id time) (owns_lease k other) (set_published now) rs
      λ r c o. ground (arith, is_text_iff r.locked_by worker, is_text_iff r.locked_by other)
apply-held worker id time (fails other k retry_at message) rs h =
    count-le-update (is_held worker id time) (owns_lease k other)
      (set_failed retry_at (take_text 2000 message)) rs
      λ r c o. ground (arith, is_text_iff r.locked_by worker, is_text_iff r.locked_by other)
apply-held worker id time (deletes ids cutoff) rs h =
    count-le-reject (is_held worker id time) (λ r. listed r.id ids && published_before cutoff r) rs
      λ r o. ground arith

-- While a history holds only statements that respect it, a lease stays with its worker: a row that
-- the worker holds since `time` is still held after statements of other workers, inserts,
-- deletions, and claims before `lock_timeout` has passed. So the worker's own end of the lease
-- meets it.
pub run-held :
    (worker id : String) (time : ℕ) (ss : List Statement) (rs : List OutboxEvent)
    → All (Respects worker time) ss
    → count (is_held worker id time) rs ≤ count (is_held worker id time) (run ss rs)
unfolding run
run-held worker id time [] rs h = omega arith
run-held worker id time (s ∷ ss) rs (h, hs) =
    omega (arith, apply-held worker id time s rs h, run-held worker id time ss (apply s rs) hs)

-- The event `id`, not yet published.
abbrev pub is_pending_event : String → OutboxEvent → Bool
is_pending_event id r = str_eq r.id id && is_null r.published_at

-- The event `id`, published at `time`, in a row with the property `q`.
abbrev pub is_published_event : String → ℕ → (OutboxEvent → Bool) → OutboxEvent → Bool
is_published_event id time q r =
    q r && (str_eq r.id id && elim r.published_at [ none ↦ false | some at ↦ at == time ])

abbrev pub Publishes : String → Statement → Type 0
Publishes id (publishes worker k now) = k ≡ id
Publishes id _ = ⊥

abbrev pub Deletes : ℕ → Statement → Type 0
Deletes time (deletes ids cutoff) = time < cutoff
Deletes time _ = ⊥

apply-pending :
    (id : String) (s : Statement) (rs : List OutboxEvent)
    → ¬ Publishes id s
    → count (is_pending_event id) rs ≤ count (is_pending_event id) (apply s rs)
unfolding apply
apply-pending id (inserts row) rs h =
    ground (arith, count-append (is_pending_event id) rs (row ∷ []))
apply-pending id (claims worker k now lock_timeout) rs h =
    count-le-update (is_pending_event id)
      (λ r. is_claimable now (now - lock_timeout) r && str_eq r.id k) (take_lease now worker) rs
      λ r c o. o
apply-pending id (publishes worker k now) rs h =
    count-le-update (is_pending_event id) (owns_lease k worker) (set_published now) rs λ r c o.
      absurd (h (sym ((eq_iff r.id k).0 (ground arith)) ∙ (eq_iff r.id id).0 (ground arith)))
apply-pending id (fails worker k retry_at message) rs h =
    count-le-update (is_pending_event id) (owns_lease k worker)
      (set_failed retry_at (take_text 2000 message)) rs λ r c o. o
apply-pending id (deletes ids cutoff) rs h =
    count-le-reject (is_pending_event id) (λ r. listed r.id ids && published_before cutoff r) rs
      λ r o. ground arith

-- No event is lost: however the statements of the replicas interleave, failures and deletions
-- included, a pending event stays in the table, pending, until a statement publishes it.
pub run-pending :
    (id : String) (ss : List Statement) (rs : List OutboxEvent)
    → All (λ s. ¬ Publishes id s) ss
    → count (is_pending_event id) rs ≤ count (is_pending_event id) (run ss rs)
unfolding run
run-pending id [] rs h = omega arith
run-pending id (s ∷ ss) rs (h, hs) =
    omega (arith, apply-pending id s rs h, run-pending id ss (apply s rs) hs)

apply-published :
    (id : String) (time : ℕ) (q : OutboxEvent → Bool) (s : Statement) (rs : List OutboxEvent)
    → ¬ Deletes time s
    → count (is_published_event id time q) rs ≤ count (is_published_event id time q) (apply s rs)
unfolding apply
apply-published id time q (inserts row) rs h =
    ground (arith, count-append (is_published_event id time q) rs (row ∷ []))
apply-published id time q (claims worker k now lock_timeout) rs h =
    count-le-update (is_published_event id time q)
      (λ r. is_claimable now (now - lock_timeout) r && str_eq r.id k) (take_lease now worker) rs
      λ r c o. absurd (ground arith)
apply-published id time q (publishes worker k now) rs h =
    count-le-update (is_published_event id time q) (owns_lease k worker) (set_published now) rs
      λ r c o. absurd (ground arith)
apply-published id time q (fails worker k retry_at message) rs h =
    count-le-update (is_published_event id time q) (owns_lease k worker)
      (set_failed retry_at (take_text 2000 message)) rs λ r c o. absurd (ground arith)
apply-published id time q (deletes ids cutoff) rs h =
    count-le-reject (is_published_event id time q)
      (λ r. listed r.id ids && published_before cutoff r) rs λ r o. ground (arith, h)

-- An event is published once: in every history that deletes nothing published at its time, claims,
-- publications and failures of any worker included, its row is not changed in any column. Whatever
-- property `q` the row has, a row published then with that id has it after the history.
pub run-published :
    (id : String) (time : ℕ) (q : OutboxEvent → Bool) (ss : List Statement) (rs : List OutboxEvent)
    → All (λ s. ¬ Deletes time s) ss
    → count (is_published_event id time q) rs ≤ count (is_published_event id time q) (run ss rs)
unfolding run
run-published id time q [] rs h = omega arith
run-published id time q (s ∷ ss) rs (h, hs) =
    omega (arith, apply-published id time q s rs h, run-published id time q ss (apply s rs) hs)

-- The primary key stays one in every history.
pub run-IsKeyed :
    (ss : List Statement) (rs : List OutboxEvent)
    → IsKeyed outbox_id rs
    → IsKeyed outbox_id (run ss rs)
unfolding run
run-IsKeyed [] rs v = v
run-IsKeyed (s ∷ ss) rs v = run-IsKeyed ss (apply s rs) (apply-IsKeyed s rs v)

-- ===== src/Outbox/Claiming.antt =====
-- What a claimed batch is: `claimBatch` of the outbox repository.
use trams_assignment.Base.{
  ℕ, ◌-◌, ◌≡◌, refl, sym, ap, ◌∙◌, Bool, false, ◌&&◌, List, [], ◌∷◌, ◌++◌, map, String, str_eq,
  eq_iff, eq_refl, count, count-and-le, count-map, All, All-map, All-map₂, All-map_of, All-counted,
  All-of_count_zero, arith, Ensures, returns, and_then-Ensures, Ensures-weaken, ◌⊎◌, inl, inr,
}
use trams_assignment.Database.{Table, IsPage}
use trams_assignment.Database.Rows.{
  update, IsKeyed, update-and, update-update, update-IsKeyed, count-update,
}
use trams_assignment.Outbox.{
  OutboxEvent, ClaimedOutboxEvent, outbox_select, outbox_id, is_claimable, take_lease, listed,
  claim_each, claim_batch,
}

abbrev names : ℕ → ℕ → String → OutboxEvent → Bool
names now stale k r = is_claimable now stale r && str_eq r.id k

-- The rows whose id is listed, leased to the worker.
abbrev pub lease_all : ℕ → String → List String → List OutboxEvent → List OutboxEvent
lease_all now worker ids = update (λ r. listed r.id ids) (take_lease now worker)

abbrev pub claimed_id : ClaimedOutboxEvent → String
claimed_id c = c.id

-- The rows that can be claimed under an id.
abbrev pub count_claimable : ℕ → ℕ → List OutboxEvent → String → ℕ
count_claimable now stale rs k = count (λ r. is_claimable now stale r && str_eq r.id k) rs

module _ (now stale : ℕ) (worker : String) where
  lease_one :
      (k : String) (rs : List OutboxEvent)
      → IsKeyed outbox_id rs
      → count_claimable now stale rs k ≡ 1
      → update (names now stale k) (take_lease now worker) rs
        ≡ update (λ r. str_eq r.id k) (take_lease now worker) rs
  lease_one k rs v e =
      update-and (is_claimable now stale) (λ r. str_eq r.id k) _ rs (omega (arith, v k))

  -- A lease on one id leaves the others claimable.
  claimable-update :
      (k j : String) (rs : List OutboxEvent)
      → str_eq j k ≡ false
      → count_claimable now stale (update (names now stale k) (take_lease now worker) rs) j
        ≡ count_claimable now stale rs j
  claimable-update k j rs ne =
      count-update (names now stale j) (names now stale k) (take_lease now worker) rs
        λ r h. ground (arith, eq_iff r.id k, eq_iff r.id j, eq_iff j k)

  lease_all-cons :
      (k : String) (ks : List String) (rs : List OutboxEvent)
      → IsKeyed outbox_id rs
      → count_claimable now stale rs k ≡ 1
      → lease_all now worker ks (update (names now stale k) (take_lease now worker) rs)
        ≡ lease_all now worker (k ∷ ks) rs
  lease_all-cons k ks rs v e =
      ap (lease_all now worker ks) (lease_one k rs v e)
      ∙ update-update (λ r. str_eq r.id k) (λ r. listed r.id ks) (take_lease now worker) rs
          (λ r. refl) (λ r. refl)

  lease_all-nil : (rs : List OutboxEvent) → rs ≡ lease_all now worker [] rs
  lease_all-nil [] = refl
  lease_all-nil (r ∷ rs) = ap (◌∷◌ r) (lease_all-nil rs)

-- The ids after the first differ from it.
pub tail_ne :
    (c : ClaimedOutboxEvent) (cs : List ClaimedOutboxEvent)
    → IsKeyed claimed_id (c ∷ cs)
    → All (λ d. str_eq d.id c.id ≡ false) cs
tail_ne c cs v =
    All-of_count_zero (λ d. str_eq d.id c.id) cs (ground (arith, v c.id, eq_iff c.id c.id))

pub IsKeyed-tail :
    (c : ClaimedOutboxEvent) (cs : List ClaimedOutboxEvent)
    → IsKeyed claimed_id (c ∷ cs)
    → IsKeyed claimed_id cs
IsKeyed-tail c cs v k = omega (arith, v k)

module _ {World : Type 0} (t : Table World OutboxEvent outbox_id) (now stale : ℕ)
    (worker : String) where
  -- What a failed loop leaves: the candidates before the failed statement are leased already.
  abbrev pub IsPartlyLeased : List String → World → World → Type 0
  IsPartlyLeased ids w w' =
      (leased left : List String) × (leased ++ left ≡ ids)
      × (t.rows w' ≡ lease_all now worker leased (t.rows w))

  claim_each-Ensures :
      (cs : List ClaimedOutboxEvent) (w : World)
      → IsKeyed outbox_id (t.rows w)
      → IsKeyed claimed_id cs
      → All (λ c. count_claimable now stale (t.rows w) c.id ≡ 1) cs
      → Ensures
          (λ claimed w'.
            (claimed ≡ cs) × (t.rows w' ≡ lease_all now worker (map claimed_id cs) (t.rows w)))
          (λ e w'. IsPartlyLeased (map claimed_id cs) w w')
          (claim_each t worker now stale cs w)
  unfolding claim_each
  claim_each-Ensures [] w v u h = returns (refl, lease_all-nil now stale worker (t.rows w))
  claim_each-Ensures (c ∷ cs) w v u (one, h) =
      and_then-Ensures _ (t.update_many_law (names now stale c.id) (take_lease now worker) w)
        (λ n w₁ (en, er).
          let leased : t.rows w₁
              ≡ update (names now stale c.id) (take_lease now worker) (t.rows w) =
            er in
          and_then-Ensures _
            (claim_each-Ensures cs w₁
              (rw leased (
                update-IsKeyed outbox_id (names now stale c.id) (take_lease now worker) (t.rows w)
                  (λ r. refl) v))
              (IsKeyed-tail c cs u)
              (rw leased (
                All-map₂ (λ d ne e. claimable-update now stale worker c.id d.id (t.rows w) ne ∙ e)
                  cs (tail_ne c cs u) h)))
            (λ claimed w₂ (ec, e₂). returns (
              ground (arith, en, one, ec),
              e₂
                  ∙ ap (lease_all now worker (map claimed_id cs)) leased
                  ∙ lease_all-cons now stale worker c.id (map claimed_id cs) (t.rows w) v one,
            ))
            (λ e w₂ (ks, left, parts, e₂). (
              c.id ∷ ks,
              left,
              ap (◌∷◌ c.id) parts,
              e₂
                  ∙ ap (lease_all now worker ks) leased
                  ∙ lease_all-cons now stale worker c.id ks (t.rows w) v one,
            )))
        (λ e w₁ er.
          ([], map claimed_id (c ∷ cs), refl, er ∙ lease_all-nil now stale worker (t.rows w)))

-- A row of the page is the only row under its id, and it can be claimed.
pub page_claimable :
    (now stale n : ℕ) (rs found : List OutboxEvent)
    → IsKeyed outbox_id rs
    → IsPage (is_claimable now stale) (λ r. r.created_at) n rs found
    → All (λ c. count_claimable now stale rs c.id ≡ 1) (map outbox_select found)
page_claimable now stale n rs found v page = All-map_of outbox_select _ found (
    All-map
      (λ r seen. omega (
        arith,
        v r.id,
        count-and-le (is_claimable now stale) (λ s. str_eq s.id r.id) rs,
        page.parts (λ s. str_eq s.id r.id),
        seen (λ s. str_eq s.id r.id) (eq_refl r.id),
      ))
      found (All-counted found))

pub page-IsKeyed :
    (now stale n : ℕ) (rs found : List OutboxEvent)
    → IsKeyed outbox_id rs
    → IsPage (is_claimable now stale) (λ r. r.created_at) n rs found
    → IsKeyed claimed_id (map outbox_select found)
page-IsKeyed now stale n rs found v page k = omega (
  arith,
  v k,
  count-map outbox_select (λ c. str_eq c.id k) found,
  count-and-le (is_claimable now stale) (λ s. str_eq s.id k) rs,
  page.parts (λ s. str_eq s.id k),
)

pub claim_batch-claims :
    {World : Type 0} (t : Table World OutboxEvent outbox_id) (worker : String)
    (batch_size lock_timeout : ℕ) (w : World)
    → IsKeyed outbox_id (t.rows w)
    → let now = t.clock w in
      let stale = now - lock_timeout in
      let IsCandidates =
        IsPage (is_claimable now stale) (λ r. r.created_at) batch_size (t.rows w) in
      Ensures
        (λ claimed w'.
          (found : List OutboxEvent) × IsCandidates found
          × (claimed ≡ map outbox_select found)
          × (t.rows w' ≡ lease_all now worker (map claimed_id claimed) (t.rows w)))
        (λ e w'.
          (leased : List String) × (t.rows w' ≡ lease_all now worker leased (t.rows w))
          × ((leased ≡ [])
              ⊎ ((found : List OutboxEvent) × (left : List String) × IsCandidates found
                  × (leased ++ left ≡ map claimed_id (map outbox_select found)))))
        (claim_batch t worker batch_size lock_timeout w)
unfolding claim_batch
claim_batch-claims t worker batch_size lock_timeout w v =
    let now = t.clock w in
    let stale = now - lock_timeout in
    and_then-Ensures _ (t.find_many_law (is_claimable now stale) (λ r. r.created_at) batch_size w)
      (λ found w₁ (same, page).
        Ensures-weaken
          (λ claimed w' (e, r). (
            found,
            page,
            e,
            r
                ∙ ap (lease_all now worker (map claimed_id (map outbox_select found))) same
                ∙ ap (λ cs. lease_all now worker (map claimed_id cs) (t.rows w)) (sym e),
          ))
          (λ e w' (leased, left, parts, r).
            (leased, r ∙ ap (lease_all now worker leased) same, inr (found, left, page, parts)))
          (claim_each-Ensures t now stale worker (map outbox_select found) w₁ (rw same v)
            (page-IsKeyed now stale batch_size (t.rows w) found v page)
            (rw same (page_claimable now stale batch_size (t.rows w) found v page))))
      (λ e w₁ same. ([], same ∙ lease_all-nil now stale worker (t.rows w), inl refl))

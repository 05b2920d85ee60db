-- ===== src/Outbox/Snapshot.antt =====
-- The counts of `getOperationalSnapshot`. The program sends its four queries at once; here they
-- run one after the other.
use trams_assignment.Base.{
  ℕ, ◌+◌, ◌≤◌, ◌<◌, ◌≡◌, ap, ◌∙◌, subst, Bool, true, ◌&&◌, not, none, some, List, [], ◌∷◌, length,
  count, count-true, count-not, count-congr, count-zero_of_All, All, All-map, arith, Ensures,
  returns, and_then-Ensures, ltb, is_null, count-and_left_le,
}
use trams_assignment.Database.{Table, IsPage}
use trams_assignment.Outbox.{
  OutboxEvent, OutboxOperationalSnapshot, outbox_id, first_created, get_operational_snapshot,
}

abbrev is_pending : OutboxEvent → Bool
is_pending r = is_null r.published_at

abbrev created : OutboxEvent → ℕ
created r = r.created_at

module _ (rs found : List OutboxEvent) (page : IsPage is_pending created 1 rs found) where
  page-pending : length found + length page.rest ≡ count is_pending rs
  page-pending = omega (
    arith,
    count-congr (λ r. is_pending r && true) is_pending rs (λ r. and-true (is_pending r)),
    page.parts (λ r. true),
    count-true found,
    count-true page.rest,
  )
    where
      and-true : (b : Bool) → (b && true) ≡ b
      and-true b = ground arith

-- The first row of a page is the oldest.
first-oldest :
    (rs found : List OutboxEvent) (page : IsPage is_pending created 1 rs found) (time : ℕ)
    → first_created found ≡ some time
    → (0 < count is_pending rs) × (count (λ r. is_pending r && ltb r.created_at time) rs ≡ 0)
first-oldest rs [] page time e = cc
first-oldest rs (r ∷ more) page time e =
    let at : r.created_at ≡ time = ground arith in
    let none_before : (xs : List OutboxEvent)
        → All (λ s. r.created_at ≤ s.created_at) xs
        → count (λ s. ltb s.created_at time) xs ≡ 0 =
      λ xs h.
        count-zero_of_All (λ s. ltb s.created_at time) xs
          (All-map (λ s (l : r.created_at ≤ s.created_at). ground arith) xs h) in
    (
      omega (arith, page-pending rs (r ∷ more) page),
      ground (
        arith,
        page.parts (λ s. ltb s.created_at time),
        none_before more page.sorted.0,
        none_before page.rest page.first.0,
      ),
    )

first-idle :
    (rs found : List OutboxEvent) (page : IsPage is_pending created 1 rs found)
    → first_created found ≡ none
    → count is_pending rs ≡ 0
first-idle rs [] page e = omega (arith, page-pending rs [] page, page.size)
first-idle rs (r ∷ more) page e = cc

-- The snapshot of an unchanged table: the pending and the published rows are all the rows, the
-- retrying ones are among the pending, and the age is null exactly if nothing is pending; otherwise
-- no pending row is older.
pub record IsSnapshot (rs : List OutboxEvent) (s : OutboxOperationalSnapshot) : Type 0 where
  pub all_rows : s.pending + s.published_retained ≡ length rs
  pub retrying_pending : s.retrying ≤ s.pending
  pub idle : s.oldest_pending_at ≡ none → s.pending ≡ 0
  pub oldest :
      (time : ℕ)
      → s.oldest_pending_at ≡ some time
      → (0 < s.pending) × (count (λ r. is_null r.published_at && ltb r.created_at time) rs ≡ 0)

-- `getOperationalSnapshot` changes no row, and what it returns is a snapshot of the table.
pub get_operational_snapshot-IsSnapshot :
    {World : Type 0} (t : Table World OutboxEvent outbox_id) (w : World)
    → Ensures
        (λ s w'. (t.rows w' ≡ t.rows w) × IsSnapshot (t.rows w) s)
        (λ e w'. t.rows w' ≡ t.rows w)
        (get_operational_snapshot t w)
unfolding get_operational_snapshot
get_operational_snapshot-IsSnapshot t w =
    and_then-Ensures _ (t.count_where_law is_pending w)
      (λ pending w₁ (e₁, p).
        and_then-Ensures _ (t.count_where_law (λ r. is_pending r && ltb 0 r.attempts) w₁)
          (λ retrying w₂ (e₂, q).
            and_then-Ensures _ (t.count_where_law (λ r. not (is_pending r)) w₂)
              (λ retained w₃ (e₃, k).
                and_then-Ensures _ (t.find_many_law is_pending created 1 w₃)
                  (λ found w₄ (e₄, page).
                    let r₁ : t.rows w₁ ≡ t.rows w = e₁ in
                    let r₂ : t.rows w₂ ≡ t.rows w = e₂ ∙ r₁ in
                    let r₃ : t.rows w₃ ≡ t.rows w = e₃ ∙ r₂ in
                    let same : IsPage is_pending created 1 (t.rows w) found =
                      subst (λ rs. IsPage is_pending created 1 rs found) r₃ page in
                    returns (
                      e₄ ∙ r₃,
                      record {
                        all_rows = omega (
                          arith,
                          p,
                          k,
                          ap (count (λ r. not (is_pending r))) r₂,
                          count-not is_pending (t.rows w),
                        );
                        retrying_pending = omega (
                          arith,
                          p,
                          q,
                          ap (count (λ r. is_pending r && ltb 0 r.attempts)) r₁,
                          count-and_left_le is_pending (λ r. ltb 0 r.attempts) (t.rows w),
                        );
                        idle = λ h. p ∙ first-idle (t.rows w) found same h;
                        oldest = λ time h. (
                          omega (arith, p, (first-oldest (t.rows w) found same time h).0),
                          (first-oldest (t.rows w) found same time h).1,
                        );
                      },
                    ))
                  (λ e w₄ e₄. e₄ ∙ e₃ ∙ e₂ ∙ e₁))
              (λ e w₃ e₃. e₃ ∙ e₂ ∙ e₁))
          (λ e w₂ e₂. e₂ ∙ e₁))
      (λ e w₁ e₁. e₁)

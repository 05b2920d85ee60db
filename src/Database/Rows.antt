-- ===== src/Database/Rows.antt =====
-- The effect of statements on the rows of a table.
use trams_assignment.Base.{
  ℕ, ◌+◌, ◌≤◌, ◌≡◌, refl, ap, Bool, true, false, ◌&&◌, ◌||◌, List, [], ◌∷◌, ◌++◌, count-append,
  eq_iff, Bool-cases, inl, inr, String, str_eq, length, count, count-and-le, count-and_left_le,
  arith, if◌then◌else◌,
}

module _ {ℓ} {Row : Type ℓ} where
  -- `updateMany({ where: p, data: f })`
  abbrev pub update : (Row → Bool) → (Row → Row) → List Row → List Row
  update p f [] = []
  update p f (r ∷ rs) = (if p r then f r else r) ∷ update p f rs

  -- `deleteMany({ where: p })`
  abbrev pub reject : (Row → Bool) → List Row → List Row
  reject p [] = []
  reject p (r ∷ rs) = if p r then reject p rs else r ∷ reject p rs

  -- How many rows have the key.
  abbrev pub count_id : (Row → String) → String → List Row → ℕ
  count_id key k rs = count (λ r. str_eq (key r) k) rs

  -- The primary key: no two rows share it.
  abbrev pub IsKeyed : (Row → String) → List Row → Type 0
  IsKeyed key rs = (k : String) → count_id key k rs ≤ 1

module _ {ℓ} {Row : Type ℓ} where
  pub length-update :
      (p : Row → Bool) (f : Row → Row) (rs : List Row) → length (update p f rs) ≡ length rs
  length-update p f [] = refl
  length-update p f (r ∷ rs) = omega (arith, length-update p f rs)

  -- An update that matches no row changes nothing.
  pub update_none :
      (p : Row → Bool) (f : Row → Row) (rs : List Row) → count p rs ≡ 0 → update p f rs ≡ rs
  update_none p f [] h = refl
  update_none p f (r ∷ rs) h = ground (arith, update_none p f rs)

  -- Tests that agree up to the data give the same table.
  pub update_congr :
      (p q : Row → Bool) (f : Row → Row) (rs : List Row)
      → ((r : Row) → p r ≡ q r)
      → update p f rs ≡ update q f rs
  update_congr p q f [] h = refl
  update_congr p q f (r ∷ rs) h = ground (arith, h r, update_congr p q f rs h)

  -- A test on the key alone may replace a narrower one where that meets every row with the key.
  pub update-and :
      (p q : Row → Bool) (f : Row → Row) (rs : List Row)
      → count q rs ≤ count (λ r. p r && q r) rs
      → update (λ r. p r && q r) f rs ≡ update q f rs
  update-and p q f [] h = refl
  update-and p q f (r ∷ rs) h = ground (arith, count-and-le p q rs, update-and p q f rs)

  -- An update that keeps the answer of a test keeps its count.
  pub count-update :
      (q p : Row → Bool) (f : Row → Row) (rs : List Row)
      → ((r : Row) → p r ≡ true → q (f r) ≡ q r)
      → count q (update p f rs) ≡ count q rs
  count-update q p f [] h = refl
  count-update q p f (r ∷ rs) h = ground (arith, h r, count-update q p f rs h)

  -- An update that keeps a test true where it is true loses no row that passes it.
  pub count-le-update :
      (q p : Row → Bool) (f : Row → Row) (rs : List Row)
      → ((r : Row) → p r ≡ true → q r ≡ true → q (f r) ≡ true)
      → count q rs ≤ count q (update p f rs)
  count-le-update q p f [] h = omega arith
  count-le-update q p f (r ∷ rs) h = ground (arith, h r, count-le-update q p f rs h)

  -- The same of a deletion: it loses no row that fails its test.
  pub count-le-reject :
      (q p : Row → Bool) (rs : List Row)
      → ((r : Row) → q r ≡ true → p r ≡ false)
      → count q rs ≤ count q (reject p rs)
  count-le-reject q p [] h = omega arith
  count-le-reject q p (r ∷ rs) h = ground (arith, h r, count-le-reject q p rs h)

  -- After an update whose data passes the test, the updated rows are counted.
  pub count-update_all :
      (q p : Row → Bool) (f : Row → Row) (rs : List Row)
      → ((r : Row) → p r ≡ true → q (f r) ≡ true)
      → count p rs ≤ count q (update p f rs)
  count-update_all q p f [] h = omega arith
  count-update_all q p f (r ∷ rs) h = ground (arith, h r, count-update_all q p f rs h)

  -- An update of rows that pass a test to rows that do not.
  pub count-update_off :
      (q p : Row → Bool) (f : Row → Row) (rs : List Row)
      → ((r : Row) → p r ≡ true → (q r ≡ true) × (q (f r) ≡ false))
      → count q (update p f rs) + count p rs ≡ count q rs
  count-update_off q p f [] h = omega arith
  count-update_off q p f (r ∷ rs) h = ground (arith, h r, count-update_off q p f rs h)

  -- Rows that pass one test are updated to rows that pass another.
  pub count-le-update_from :
      (o q p : Row → Bool) (f : Row → Row) (rs : List Row)
      → ((r : Row) → o r ≡ true → (p r ≡ true) × (q (f r) ≡ true))
      → count o rs ≤ count q (update p f rs)
  count-le-update_from o q p f [] h = omega arith
  count-le-update_from o q p f (r ∷ rs) h = ground (arith, h r, count-le-update_from o q p f rs h)

  -- Two updates by an idempotent change make one.
  pub update-update :
      (p q : Row → Bool) (f : Row → Row) (rs : List Row)
      → ((r : Row) → q (f r) ≡ q r)
      → ((r : Row) → f (f r) ≡ f r)
      → update q f (update p f rs) ≡ update (λ r. p r || q r) f rs
  update-update p q f [] h k = refl
  update-update p q f (r ∷ rs) h k = ground (arith, h r, k r, update-update p q f rs h k)

  pub length-reject :
      (p : Row → Bool) (rs : List Row) → length (reject p rs) + count p rs ≡ length rs
  length-reject p [] = omega arith
  length-reject p (r ∷ rs) = ground (arith, length-reject p rs)

  -- A deletion keeps each row that fails its test.
  pub count-reject :
      (q p : Row → Bool) (rs : List Row)
      → count q (reject p rs) + count (λ r. p r && q r) rs ≡ count q rs
  count-reject q p [] = omega arith
  count-reject q p (r ∷ rs) = ground (arith, count-reject q p rs)

  module _ (key : Row → String) where
    pub update-IsKeyed :
        (p : Row → Bool) (f : Row → Row) (rs : List Row)
        → ((r : Row) → key (f r) ≡ key r)
        → IsKeyed key rs
        → IsKeyed key (update p f rs)
    update-IsKeyed p f rs h v k =
        omega (
          arith,
          v k,
          count-update (λ r. str_eq (key r) k) p f rs λ r _. ap (λ x. str_eq x k) (h r),
        )

    -- So does an insert under a free key.
    pub insert-IsKeyed :
        (row : Row) (rs : List Row)
        → count_id key (key row) rs ≡ 0
        → IsKeyed key rs
        → IsKeyed key (rs ++ row ∷ [])
    insert-IsKeyed row rs free v k = elim (Bool-cases (str_eq (key row) k)) [
      | inl e ↦ omega (
        arith,
        count-append (λ r. str_eq (key r) k) rs (row ∷ []),
        ap (λ j. count_id key j rs) ((eq_iff (key row) k).0 e),
        one_more e,
      )
      | inr e ↦ omega (arith, count-append (λ r. str_eq (key r) k) rs (row ∷ []), v k, none_more e)
    ]
      where
        one_more : str_eq (key row) k ≡ true → count_id key k (row ∷ []) ≡ 1
        one_more e = ground arith

        none_more : str_eq (key row) k ≡ false → count_id key k (row ∷ []) ≡ 0
        none_more e = ground arith

    pub reject-IsKeyed :
        (p : Row → Bool) (rs : List Row) → IsKeyed key rs → IsKeyed key (reject p rs)
    reject-IsKeyed p rs v k = omega (arith, v k, count-reject (λ r. str_eq (key r) k) p rs)

module _ {Row : Type 0} where
  -- The same with the test on the key written first.
  pub update-and_left :
      (q p : Row → Bool) (f : Row → Row) (rs : List Row)
      → count q rs ≤ count (λ r. q r && p r) rs
      → update (λ r. q r && p r) f rs ≡ update q f rs
  update-and_left q p f [] h = refl
  update-and_left q p f (r ∷ rs) h =
      ground (arith, count-and_left_le q p rs, update-and_left q p f rs)

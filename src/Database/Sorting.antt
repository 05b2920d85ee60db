-- ===== src/Database/Sorting.antt =====
-- A search with an order and a limit, computed: the matching rows, sorted, and the first of them.
use trams_assignment.Base.{
  ℕ, zero, suc, ◌+◌, ◌≤◌, ◌≡◌, refl, Bool, ◌&&◌, inl, inr, Bool-cases, List, [], ◌∷◌, length, count,
  take, drop, count-take-drop, All, arith, if◌then◌else◌, leb, min, All-map,
}
use trams_assignment.Database.{IsSorted, IsPage}

module _ {Row : Type 0} where
  abbrev pub kept : (Row → Bool) → List Row → List Row
  kept p [] = []
  kept p (r ∷ rs) = if p r then r ∷ kept p rs else kept p rs

  count-kept : (p q : Row → Bool) (rs : List Row) → count q (kept p rs) ≡ count (λ r. p r && q r) rs
  count-kept p q [] = refl
  count-kept p q (r ∷ rs) = ground (arith, count-kept p q rs)

module _ {Row : Type 0} (by : Row → ℕ) where
  abbrev pub insert : Row → List Row → List Row
  insert x [] = x ∷ []
  insert x (y ∷ ys) = if leb (by x) (by y) then x ∷ y ∷ ys else y ∷ insert x ys

  abbrev pub sort : List Row → List Row
  sort [] = []
  sort (x ∷ xs) = insert x (sort xs)

  count-insert :
      (q : Row → Bool) (x : Row) (xs : List Row) → count q (insert x xs) ≡ count q (x ∷ xs)
  count-insert q x [] = refl
  count-insert q x (y ∷ ys) = ground (arith, count-insert q x ys)

  count-sort : (q : Row → Bool) (xs : List Row) → count q (sort xs) ≡ count q xs
  count-sort q [] = refl
  count-sort q (x ∷ xs) = omega (arith, count-insert q x (sort xs), count-sort q xs)

  All-insert : (P : Row → Type 0) (x : Row) (xs : List Row) → P x → All P xs → All P (insert x xs)
  All-insert P x [] p h = (p, tt)
  All-insert P x (y ∷ ys) p (q, h) = elim (Bool-cases (leb (by x) (by y))) [
    | inl e ↦ rw e (p, (q, h))
    | inr e ↦ rw e (q, All-insert P x ys p h)
  ]

  insert-IsSorted : (x : Row) (xs : List Row) → IsSorted by xs → IsSorted by (insert x xs)
  insert-IsSorted x [] s = (tt, tt)
  insert-IsSorted x (y ∷ ys) (h, s) = elim (Bool-cases (leb (by x) (by y))) [
    | inl e ↦ rw e ((ground arith, All-map (λ z (l : by y ≤ by z). ground arith) ys h), (h, s))
    | inr e ↦ rw e (All-insert (λ z. by y ≤ by z) x ys (ground arith) h, insert-IsSorted x ys s)
  ]

  sort-IsSorted : (xs : List Row) → IsSorted by (sort xs)
  sort-IsSorted [] = tt
  sort-IsSorted (x ∷ xs) = insert-IsSorted x (sort xs) (sort-IsSorted xs)

  All-take : (P : Row → Type 0) (n : ℕ) (xs : List Row) → All P xs → All P (take n xs)
  All-take P zero xs h = tt
  All-take P (suc n) [] h = tt
  All-take P (suc n) (x ∷ xs) (p, h) = (p, All-take P n xs h)

  All-drop : (P : Row → Type 0) (n : ℕ) (xs : List Row) → All P xs → All P (drop n xs)
  All-drop P zero xs h = h
  All-drop P (suc n) [] h = tt
  All-drop P (suc n) (x ∷ xs) (p, h) = All-drop P n xs h

  take-IsSorted : (n : ℕ) (xs : List Row) → IsSorted by xs → IsSorted by (take n xs)
  take-IsSorted zero xs s = tt
  take-IsSorted (suc n) [] s = tt
  take-IsSorted (suc n) (x ∷ xs) (h, s) = (All-take _ n xs h, take-IsSorted n xs s)

  take-first :
      (n : ℕ) (xs : List Row)
      → IsSorted by xs
      → All (λ r. All (λ s. by r ≤ by s) (drop n xs)) (take n xs)
  take-first zero xs s = tt
  take-first (suc n) [] s = tt
  take-first (suc n) (x ∷ xs) (h, s) = (All-drop _ n xs h, take-first n xs s)

  take-size :
      (n : ℕ) (xs : List Row) → length (take n xs) ≡ min n (length (take n xs) + length (drop n xs))
  take-size zero xs = omega arith
  take-size (suc n) [] = omega arith
  take-size (suc n) (x ∷ xs) = omega (arith, take-size n xs)

  pub page : (p : Row → Bool) (n : ℕ) (rs : List Row) → IsPage p by n rs (take n (sort (kept p rs)))
  page p n rs = record {
    rest = drop n (sort (kept p rs));
    parts = λ q. omega (
      arith,
      count-take-drop q n (sort (kept p rs)),
      count-sort q (kept p rs),
      count-kept p q rs,
    );
    sorted = take-IsSorted n _ (sort-IsSorted (kept p rs));
    first = take-first n _ (sort-IsSorted (kept p rs));
    size = take-size n (sort (kept p rs));
  }

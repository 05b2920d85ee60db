-- ===== src/Base/Lists.antt =====
-- Lists measured by native numbers and filtered by Boolean tests.
use Prim.Native.Nat.{ℕ, zero, suc, ◌+◌, ◌≤◌, ◌<◌, min}
use mathlib.Core.Path.{◌≡◌, refl, ap}
use mathlib.Core.Bool.{Bool, true, false, ◌&&◌, not}
use mathlib.Core.Logic.{inl, inr}
use mathlib.Core.List.{List, [], ◌∷◌, ◌++◌, map}
use mathlib.Core.Option.{Option, none, some}
use native.Mathlib.Omega.{arith}
use trams_assignment.Base.Tests.{if◌then◌else◌, Bool-cases}

module _ {ℓ} {A : Type ℓ} where
  abbrev pub length : List A → ℕ
  length [] = 0
  length (x ∷ xs) = suc (length xs)

  abbrev pub get_elem? : List A → ℕ → Option A
  get_elem? [] i = none
  get_elem? (x ∷ xs) zero = some x
  get_elem? (x ∷ xs) (suc i) = get_elem? xs i

  abbrev pub take : ℕ → List A → List A
  take zero xs = []
  take (suc n) [] = []
  take (suc n) (x ∷ xs) = x ∷ take n xs

  abbrev pub drop : ℕ → List A → List A
  drop zero xs = xs
  drop (suc n) [] = []
  drop (suc n) (x ∷ xs) = drop n xs

  abbrev pub all : (A → Bool) → List A → Bool
  all p [] = true
  all p (x ∷ xs) = p x && all p xs

  -- How many elements pass the test.
  abbrev pub count : (A → Bool) → List A → ℕ
  count p [] = 0
  count p (x ∷ xs) = (if p x then 1 else 0) + count p xs

  pub length-append : (xs ys : List A) → length (xs ++ ys) ≡ length xs + length ys
  length-append [] ys = omega arith
  length-append (x ∷ xs) ys = omega (arith, length-append xs ys)

  pub length-take : (n : ℕ) (xs : List A) → length (take n xs) ≡ min n (length xs)
  length-take zero xs = omega arith
  length-take (suc n) [] = omega arith
  length-take (suc n) (x ∷ xs) = omega (arith, length-take n xs)

  pub count-append : (p : A → Bool) (xs ys : List A) → count p (xs ++ ys) ≡ count p xs + count p ys
  count-append p [] ys = omega arith
  count-append p (x ∷ xs) ys = omega (arith, count-append p xs ys)

  pub count-le-length : (p : A → Bool) (xs : List A) → count p xs ≤ length xs
  count-le-length p [] = omega arith
  count-le-length p (x ∷ xs) = ground (arith, count-le-length p xs)

  pub count-take-drop :
      (p : A → Bool) (n : ℕ) (xs : List A) → count p (take n xs) + count p (drop n xs) ≡ count p xs
  count-take-drop p zero xs = omega arith
  count-take-drop p (suc n) [] = omega arith
  count-take-drop p (suc n) (x ∷ xs) = omega (arith, count-take-drop p n xs)

  pub count-and-le : (p q : A → Bool) (xs : List A) → count (λ x. p x && q x) xs ≤ count q xs
  count-and-le p q [] = omega arith
  count-and-le p q (x ∷ xs) = ground (arith, count-and-le p q xs)

  pub count-and_left_le : (q p : A → Bool) (xs : List A) → count (λ x. q x && p x) xs ≤ count q xs
  count-and_left_le q p [] = omega arith
  count-and_left_le q p (x ∷ xs) = ground (arith, count-and_left_le q p xs)

  -- Two tests that exclude each other count different elements.
  pub count-and_disjoint :
      (q a b : A → Bool) (xs : List A)
      → ((x : A) → a x ≡ true → b x ≡ false)
      → count (λ x. q x && a x) xs + count (λ x. q x && b x) xs ≤ count q xs
  count-and_disjoint q a b [] h = omega arith
  count-and_disjoint q a b (x ∷ xs) h = ground (arith, h x, count-and_disjoint q a b xs h)

  pub count-and_comm :
      (p q : A → Bool) (xs : List A) → count (λ x. p x && q x) xs ≡ count (λ x. q x && p x) xs
  count-and_comm p q [] = refl
  count-and_comm p q (x ∷ xs) = ground (arith, count-and_comm p q xs)

  pub count-true : (xs : List A) → count (λ x. true) xs ≡ length xs
  count-true [] = refl
  count-true (x ∷ xs) = omega (arith, count-true xs)

  pub count-not : (p : A → Bool) (xs : List A) → count p xs + count (λ x. not (p x)) xs ≡ length xs
  count-not p [] = omega arith
  count-not p (x ∷ xs) = ground (arith, count-not p xs)

  pub count-congr : (p q : A → Bool) (xs : List A) → ((x : A) → p x ≡ q x) → count p xs ≡ count q xs
  count-congr p q [] h = refl
  count-congr p q (x ∷ xs) h = ground (arith, h x, count-congr p q xs h)

module _ {ℓ κ} {A : Type ℓ} (P : A → Type κ) where
  -- Every element has the property.
  abbrev pub All : List A → Type κ
  All [] = Unit
  All (x ∷ xs) = P x × All xs

  pub All-append : (xs ys : List A) → All xs → All ys → All (xs ++ ys)
  All-append [] ys h k = k
  All-append (x ∷ xs) ys (p, h) k = (p, All-append xs ys h k)

module _ {ℓ} {A : Type ℓ} where
  pub All-map {κ μ} :
      {P : A → Type κ} {Q : A → Type μ} (f : (a : A) → P a → Q a) (xs : List A)
      → All P xs
      → All Q xs
  All-map f [] h = tt
  All-map f (x ∷ xs) (p, h) = (f x p, All-map f xs h)

  -- Counting ones says that the test holds of every element.
  pub All-of_count :
      (p : A → Bool) (xs : List A) → count p xs ≡ length xs → All (λ x. p x ≡ true) xs
  All-of_count p [] e = tt
  All-of_count p (x ∷ xs) e = elim (Bool-cases (p x)) [
    | inl h ↦ (h, All-of_count p xs (ground arith))
    | inr h ↦ absurd (ground (arith, count-le-length p xs))
  ]

  pub count_of_All :
      (p : A → Bool) (xs : List A) → All (λ x. p x ≡ true) xs → count p xs ≡ length xs
  count_of_All p [] h = refl
  count_of_All p (x ∷ xs) (h, k) = ground (arith, h, count_of_All p xs k)

  pub count-zero_of_All : (p : A → Bool) (xs : List A) → All (λ x. p x ≡ false) xs → count p xs ≡ 0
  count-zero_of_All p [] h = refl
  count-zero_of_All p (x ∷ xs) (h, k) = ground (arith, h, count-zero_of_All p xs k)

  pub All-of_count_zero : (p : A → Bool) (xs : List A) → count p xs ≡ 0 → All (λ x. p x ≡ false) xs
  All-of_count_zero p [] e = tt
  All-of_count_zero p (x ∷ xs) e = elim (Bool-cases (p x)) [
    | inl h ↦ absurd (ground arith)
    | inr h ↦ (h, All-of_count_zero p xs (ground arith))
  ]

module _ {ℓ} {A : Type ℓ} where
  pub All-map₂ {κ μ ν} :
      {P : A → Type κ} {Q : A → Type μ} {R : A → Type ν} (f : (a : A) → P a → Q a → R a)
      (xs : List A)
      → All P xs
      → All Q xs
      → All R xs
  All-map₂ f [] h k = tt
  All-map₂ f (x ∷ xs) (p, h) (q, k) = (f x p q, All-map₂ f xs h k)

  -- Each element of a list is met by every test that it passes.
  pub All-counted : (xs : List A) → All (λ x. (q : A → Bool) → q x ≡ true → 0 < count q xs) xs
  All-counted [] = tt
  All-counted (x ∷ xs) =
      (λ q e. ground arith, All-map (λ y h q e. ground (arith, h q e)) xs (All-counted xs))

module _ {ℓ κ} {A : Type ℓ} {B : Type κ} (f : A → B) where
  pub count-map : (q : B → Bool) (xs : List A) → count q (map f xs) ≡ count (λ x. q (f x)) xs
  count-map q [] = refl
  count-map q (x ∷ xs) = omega (arith, count-map q xs)

  pub length-map : (xs : List A) → length (map f xs) ≡ length xs
  length-map [] = refl
  length-map (x ∷ xs) = ap suc (length-map xs)

  pub All-map_of {μ} : (P : B → Type μ) (xs : List A) → All (λ x. P (f x)) xs → All P (map f xs)
  All-map_of P [] h = tt
  All-map_of P (x ∷ xs) (p, h) = (p, All-map_of P xs h)

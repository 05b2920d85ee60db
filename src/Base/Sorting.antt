-- ===== src/Base/Sorting.antt =====
-- The sorting of a list by a test for "not after": `[...list].sort()`.
use Prim.Native.Nat.{ℕ}
use Prim.Native.Char.{code}
use Prim.Native.String.{String}
use mathlib.Core.Path.{◌≡◌, refl, sym, ap, ap₂, ◌∙◌}
use mathlib.Core.Logic.{◌↔◌, inl, inr}
use mathlib.Core.Bool.{Bool, true, false, ◌&&◌, ◌||◌, not}
use mathlib.Core.List.{List, [], ◌∷◌}
use native.Mathlib.Omega.{arith}
use text.Mathlib.TextEquality.{Char-path}
use trams_assignment.Base.Tests.{ltb, ◌==◌, if◌then◌else◌, Bool-cases}
use trams_assignment.Base.Lists.{count, All, All-map, count-zero_of_All}

-- An order that a list is sorted by: two elements are in some order, and only equal ones in both.
pub record TotalOrder {ℓ} {A : Type ℓ} (le : A → A → Bool) : Type ℓ where
  pub total : (a b : A) → le a b ≡ false → le b a ≡ true
  pub trans : (a b c : A) → le a b ≡ true → le b c ≡ true → le a c ≡ true
  pub antisym : (a b : A) → le a b ≡ true → le b a ≡ true → a ≡ b

module _ {ℓ} {A : Type ℓ} (le : A → A → Bool) where
  abbrev pub insert : A → List A → List A
  insert x [] = x ∷ []
  insert x (y ∷ ys) = if le x y then x ∷ y ∷ ys else y ∷ insert x ys

  abbrev pub sort : List A → List A
  sort [] = []
  sort (x ∷ xs) = insert x (sort xs)

  abbrev IsOrdered : List A → Type 0
  IsOrdered [] = Unit
  IsOrdered (x ∷ xs) = All (λ y. le x y ≡ true) xs × IsOrdered xs

  count-insert : (q : A → Bool) (x : A) (ys : List A) → count q (insert x ys) ≡ count q (x ∷ ys)
  count-insert q x [] = refl
  count-insert q x (y ∷ ys) = ground (arith, count-insert q x ys)

  -- Sorting keeps each element as often as it occurs.
  pub count-sort : (q : A → Bool) (xs : List A) → count q (sort xs) ≡ count q xs
  count-sort q [] = refl
  count-sort q (x ∷ xs) = omega (arith, count-insert q x (sort xs), count-sort q xs)

module _ {ℓ} {A : Type ℓ} (le : A → A → Bool) (order : TotalOrder le) where
  All-insert {κ} : (P : A → Type κ) (x : A) (ys : List A) → P x → All P ys → All P (insert le x ys)
  All-insert P x [] p h = (p, tt)
  All-insert P x (y ∷ ys) p (q, h) = elim (Bool-cases (le x y)) [
    | inl e ↦ rw e ((p, (q, h)))
    | inr e ↦ rw e ((q, All-insert P x ys p h))
  ]

  IsOrdered-insert : (x : A) (ys : List A) → IsOrdered le ys → IsOrdered le (insert le x ys)
  IsOrdered-insert x [] h = (tt, tt)
  IsOrdered-insert x (y ∷ ys) (first, h) = elim (Bool-cases (le x y)) [
    | inl e ↦ rw e (((e, All-map (λ z k. order.trans x y z e k) ys first), (first, h)))
    | inr e ↦
        rw e (
          (All-insert (λ z. le y z ≡ true) x ys (order.total x y e) first, IsOrdered-insert x ys h))
  ]

  IsOrdered-sort : (xs : List A) → IsOrdered le (sort le xs)
  IsOrdered-sort [] = tt
  IsOrdered-sort (x ∷ xs) = IsOrdered-insert x (sort le xs) (IsOrdered-sort xs)

  le_self : (x : A) → le x x ≡ true
  le_self x = elim (Bool-cases (le x x)) [ inl e ↦ e | inr e ↦ order.total x x e ]

  -- The first of an ordered list is not after the first of a list with the same elements.
  first_le :
      (x y : A) (xs ys : List A)
      → ((q : A → Bool) → count q (x ∷ xs) ≡ count q (y ∷ ys))
      → All (λ z. le y z ≡ true) ys
      → le y x ≡ true
  first_le x y xs ys same first = elim (Bool-cases (le y x)) [
    | inl e ↦ e
    | inr e ↦ absurd (
        ground (
          arith,
          e,
          le_self y,
          same (λ z. not (le y z)),
          count-zero_of_All (λ z. not (le y z)) ys (All-map (λ z k. ap not k) ys first),
        ))
  ]

  -- Ordered lists with the same elements are equal.
  ordered_unique :
      (xs ys : List A)
      → IsOrdered le xs
      → IsOrdered le ys
      → ((q : A → Bool) → count q xs ≡ count q ys)
      → xs ≡ ys
  ordered_unique [] [] h k same = refl
  ordered_unique [] (y ∷ ys) h k same = absurd (omega (arith, same (λ _. true)))
  ordered_unique (x ∷ xs) [] h k same = absurd (omega (arith, same (λ _. true)))
  ordered_unique (x ∷ xs) (y ∷ ys) (f, h) (g, k) same =
      let e : x ≡ y =
        order.antisym x y (first_le y x ys xs (λ q. sym (same q)) f) (first_le x y xs ys same g) in
      ap₂ (◌∷◌) e (
        ordered_unique xs ys h k
          λ q. omega (arith, same q, ap {B = ℕ} (λ z. if q z then 1 else 0) e))

  -- Two lists are sorted to the same list exactly if they hold the same elements as often.
  pub sort-eq_iff :
      (xs ys : List A) → (sort le xs ≡ sort le ys) ↔ ((q : A → Bool) → count q xs ≡ count q ys)
  sort-eq_iff xs ys = (
    λ e q. sym (count-sort le q xs) ∙ ap (count q) e ∙ count-sort le q ys,
    λ same.
        ordered_unique (sort le xs) (sort le ys) (IsOrdered-sort xs) (IsOrdered-sort ys)
          λ q. count-sort le q xs ∙ same q ∙ sym (count-sort le q ys),
  )

-- `left <= right` of two texts.
abbrev pub text_le : String → String → Bool
text_le String.[] t = true
text_le (String.◌∷◌ c s) String.[] = false
text_le (String.◌∷◌ c s) (String.◌∷◌ d t) =
    ltb (code c) (code d) || (code c == code d && text_le s t)

text_le_total : (s t : String) → text_le s t ≡ false → text_le t s ≡ true
text_le_total String.[] t h = absurd (ground arith)
text_le_total (String.◌∷◌ c s) String.[] h = refl
text_le_total (String.◌∷◌ c s) (String.◌∷◌ d t) h = ground (arith, text_le_total s t)

text_le_trans : (r s t : String) → text_le r s ≡ true → text_le s t ≡ true → text_le r t ≡ true
text_le_trans String.[] s t h k = refl
text_le_trans (String.◌∷◌ b r) String.[] t h k = absurd (ground arith)
text_le_trans (String.◌∷◌ b r) (String.◌∷◌ c s) String.[] h k = absurd (ground arith)
text_le_trans (String.◌∷◌ b r) (String.◌∷◌ c s) (String.◌∷◌ d t) h k =
    ground (arith, text_le_trans r s t)

text_le_antisym : (s t : String) → text_le s t ≡ true → text_le t s ≡ true → s ≡ t
text_le_antisym String.[] String.[] h k = refl
text_le_antisym String.[] (String.◌∷◌ d t) h k = absurd (ground arith)
text_le_antisym (String.◌∷◌ c s) String.[] h k = absurd (ground arith)
text_le_antisym (String.◌∷◌ c s) (String.◌∷◌ d t) h k =
    ap₂ String.◌∷◌ (Char-path c d (ground arith))
      (text_le_antisym s t (ground arith) (ground arith))

pub text_le-order : TotalOrder text_le
text_le-order = record { total = text_le_total; trans = text_le_trans; antisym = text_le_antisym }

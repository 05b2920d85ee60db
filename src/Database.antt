-- ===== src/Database.antt =====
-- What the services use of a Prisma model (a PostgreSQL table): statements that either commit or
-- throw. The client and the database are not part of the repository, so a table is a parameter:
-- its operations, with the documented effect of each statement as laws.
pub mod Rows
pub mod Sorting
pub mod Memory
pub mod Keyed
use trams_assignment.Base.{
  ℕ, ◌+◌, ◌≤◌, ◌<◌, ◌≡◌, Bool, true, ◌&&◌, not, Option, none, some, List, [], ◌∷◌, ◌++◌, String,
  str_eq, length, count, All, M, Ensures, min,
}
use Rows.{update, reject, count_id}

-- A rejected promise: the message of the error, and its `code` if it has one.
pub record Fault : Type 0 where
  pub code : Option String
  pub message : String

-- `new Error(message)`
abbrev pub error : String → Fault
error message = record { code = none; message = message }

-- The code of Prisma for a violated unique constraint.
abbrev pub unique_violation : String
unique_violation = "P2002"

abbrev pub IsSorted {ℓ} : {Row : Type ℓ} → (Row → ℕ) → List Row → Type 0
IsSorted by [] = Unit
IsSorted by (r ∷ rs) = All (λ s. by r ≤ by s) rs × IsSorted by rs

-- The result of `findMany({ where: p, orderBy: { by: "asc" }, take: n })` on `rows`: of the rows
-- that pass the test, the `n` first in the order, each as often as it occurs. Ties are open.
pub record IsPage {ℓ} {Row : Type ℓ} (p : Row → Bool) (by : Row → ℕ) (n : ℕ) (rows found : List Row)
    : Type ℓ where
  pub rest : List Row
  pub parts : (q : Row → Bool) → count q found + count q rest ≡ count (λ r. p r && q r) rows
  pub sorted : IsSorted by found
  pub first : All (λ r. All (λ s. by r ≤ by s) rest) found
  pub size : length found ≡ min n (length found + length rest)

-- The outcome of a search by a unique key.
abbrev pub IsFound : {Row : Type 0} → (Row → String) → String → List Row → Option Row → Type 0
IsFound {Row} key k rows none = count_id key k rows ≡ 0
IsFound {Row} key k rows (some r) = (key r ≡ k) × ((q : Row → Bool) → q r ≡ true → 0 < count q rows)

-- `World` is the state of everything outside the process; `clock` is the time that it shows.
-- A statement that throws leaves the rows as they were.
pub record Table (World Row : Type 0) (key : Row → String) : Type 0 where
  pub rows : World → List Row
  pub clock : World → ℕ
  pub create : Row → M World Fault (Unit {0})
  pub find_many : (Row → Bool) → (Row → ℕ) → ℕ → M World Fault (List Row)
  pub find_unique : String → M World Fault (Option Row)
  pub update_many : (Row → Bool) → (Row → Row) → M World Fault ℕ
  pub delete_many : (Row → Bool) → M World Fault ℕ
  pub count_where : (Row → Bool) → M World Fault ℕ
  -- An insert commits only if the key is free, and throws P2002 exactly if it is taken.
  pub create_law :
      (r : Row) (w : World)
      → Ensures
          (λ _ w'. (count_id key (key r) (rows w) ≡ 0) × (rows w' ≡ rows w ++ r ∷ []))
          (λ e w'.
            (rows w' ≡ rows w)
            × ((e.code ≡ some unique_violation) → 0 < count_id key (key r) (rows w))
            × (0 < count_id key (key r) (rows w) → e.code ≡ some unique_violation))
          (create r w)
  pub find_many_law :
      (p : Row → Bool) (by : Row → ℕ) (n : ℕ) (w : World)
      → Ensures
          (λ found w'. (rows w' ≡ rows w) × IsPage p by n (rows w) found)
          (λ e w'. rows w' ≡ rows w)
          (find_many p by n w)
  pub find_unique_law :
      (k : String) (w : World)
      → Ensures
          (λ found w'. (rows w' ≡ rows w) × IsFound key k (rows w) found)
          (λ e w'. rows w' ≡ rows w)
          (find_unique k w)
  pub update_many_law :
      (p : Row → Bool) (f : Row → Row) (w : World)
      → Ensures
          (λ n w'. (n ≡ count p (rows w)) × (rows w' ≡ update p f (rows w)))
          (λ e w'. rows w' ≡ rows w)
          (update_many p f w)
  pub delete_many_law :
      (p : Row → Bool) (w : World)
      → Ensures
          (λ n w'. (n ≡ count p (rows w)) × (rows w' ≡ reject p (rows w)))
          (λ e w'. rows w' ≡ rows w)
          (delete_many p w)
  pub count_where_law :
      (p : Row → Bool) (w : World)
      → Ensures
          (λ n w'. (rows w' ≡ rows w) × (n ≡ count p (rows w)))
          (λ e w'. rows w' ≡ rows w)
          (count_where p w)

-- ===== src/Database/Memory.antt =====
-- A table in memory that meets the laws of `Table`: it shows that they can hold, and runs the
-- examples. `faults` says of each coming statement whether the connection fails under it, and
-- `log` is what has left the process.
use trams_assignment.Base.{
  ℕ, ◌<◌, ◌≡◌, refl, Bool, false, inl, inr, Bool-cases, Option, none, some, List, [], ◌∷◌, ◌++◌,
  String, str_eq, eq_iff, count, take, arith, if◌then◌else◌, ltb, M, ok, err, Ensures, returns,
  throws,
}
use trams_assignment.Database.{Fault, error, unique_violation, IsPage, IsFound, Table}
use trams_assignment.Database.Sorting.{kept, sort, page}
use trams_assignment.Database.Rows.{update, reject, count_id}

pub record Memory (Row : Type 0) : Type 0 where
  pub rows : List Row
  pub clock : ℕ
  pub faults : List Bool
  pub log : List String

abbrev pub lost : Fault
lost = error "connection lost"

abbrev pub fails : List Bool → Bool
fails [] = false
fails (b ∷ bs) = b

abbrev pub later : List Bool → List Bool
later [] = []
later (b ∷ bs) = bs

module _ {Row : Type 0} where
  -- A statement with its value and the rows that it leaves.
  abbrev pub statement : {A : Type 0} → (List Row → A × List Row) → M (Memory Row) Fault A
  statement f m =
      if fails m.faults
      then (err lost, record m { faults = later m.faults })
      else (ok (f m.rows).0, record m { rows = (f m.rows).1; faults = later m.faults })

  pub statement-Ensures :
      {A : Type 0} (P : A → List Row → Type 0) (f : List Row → A × List Row) (m : Memory Row)
      → P (f m.rows).0 (f m.rows).1
      → Ensures (λ a w. P a w.rows) (λ e w. w.rows ≡ m.rows) (statement f m)
  statement-Ensures P f m h = elim (Bool-cases (fails m.faults)) [
    | inl e ↦ rw e (throws refl)
    | inr e ↦ rw e (returns h)
  ]

module _ {Row : Type 0} (key : Row → String) where
  abbrev pub found : String → List Row → Option Row
  found k [] = none
  found k (r ∷ rs) = if str_eq (key r) k then some r else found k rs

  pub found-IsFound : (k : String) (rs : List Row) → IsFound key k rs (found k rs)
  found-IsFound k [] = refl
  found-IsFound k (r ∷ rs) = elim (Bool-cases (str_eq (key r) k)) [
    | inl e ↦ rw e ((eq_iff (key r) k).0 e, λ q h. ground (arith, h))
    | inr e ↦ rw e (IsFound-cons (found k rs) e (found-IsFound k rs))
  ]
    where
      IsFound-cons :
          (o : Option Row)
          → str_eq (key r) k ≡ false
          → IsFound key k rs o
          → IsFound key k (r ∷ rs) o
      IsFound-cons none e h = ground arith
      IsFound-cons (some x) e (h, g) = (h, λ q c. ground (arith, g q c))

  abbrev pub create : Row → M (Memory Row) Fault (Unit {0})
  create r m =
      if ltb 0 (count_id key (key r) m.rows)
      then (err (record { code = some unique_violation; message = "Unique constraint failed" }), m)
      else statement (λ rs. (tt, rs ++ r ∷ [])) m

  pub create-Ensures :
      (r : Row) (m : Memory Row)
      → Ensures
          (λ _ w. (count_id key (key r) m.rows ≡ 0) × (w.rows ≡ m.rows ++ r ∷ []))
          (λ e w.
            (w.rows ≡ m.rows)
            × ((e.code ≡ some unique_violation) → 0 < count_id key (key r) m.rows)
            × (0 < count_id key (key r) m.rows → e.code ≡ some unique_violation))
          (create r m)
  create-Ensures r m = elim (Bool-cases (ltb 0 (count_id key (key r) m.rows))) [
    | inl taken ↦ rw taken (throws (refl, λ _. ground arith, λ _. refl))
    | inr free ↦ rw free (insert_row (ground arith))
  ]
    where
      insert_row :
          count_id key (key r) m.rows ≡ 0
          → Ensures
              (λ _ w. (count_id key (key r) m.rows ≡ 0) × (w.rows ≡ m.rows ++ r ∷ []))
              (λ e w.
                (w.rows ≡ m.rows)
                × ((e.code ≡ some unique_violation) → 0 < count_id key (key r) m.rows)
                × (0 < count_id key (key r) m.rows → e.code ≡ some unique_violation))
              (statement {A = Unit {0}} (λ rs. (tt, rs ++ r ∷ [])) m)
      insert_row free = elim (Bool-cases (fails m.faults)) [
        | inl e ↦ rw e (throws (refl, λ c. cc, λ l. absurd (omega arith)))
        | inr e ↦ rw e (returns (free, refl))
      ]

  abbrev pub memory_table : Table (Memory Row) Row key
  memory_table = record {
    rows = λ m. m.rows;
    clock = λ m. m.clock;
    create = create;
    find_many = λ p by n. statement (λ rs. (take n (sort by (kept p rs)), rs));
    find_unique = λ k. statement (λ rs. (found k rs, rs));
    update_many = λ p f. statement (λ rs. (count p rs, update p f rs));
    delete_many = λ p. statement (λ rs. (count p rs, reject p rs));
    count_where = λ p. statement (λ rs. (count p rs, rs));
    create_law = create-Ensures;
    find_many_law = λ p by n w.
        statement-Ensures (λ a rs. (rs ≡ w.rows) × IsPage p by n w.rows a)
          (λ rs. (take n (sort by (kept p rs)), rs)) w (refl, page by p n w.rows);
    find_unique_law = λ k w.
        statement-Ensures (λ a rs. (rs ≡ w.rows) × IsFound key k w.rows a) (λ rs. (found k rs, rs))
          w (refl, found-IsFound k w.rows);
    update_many_law = λ p f w.
        statement-Ensures (λ a rs. (a ≡ count p w.rows) × (rs ≡ update p f w.rows))
          (λ rs. (count p rs, update p f rs)) w (refl, refl);
    delete_many_law = λ p w.
        statement-Ensures (λ a rs. (a ≡ count p w.rows) × (rs ≡ reject p w.rows))
          (λ rs. (count p rs, reject p rs)) w (refl, refl);
    count_where_law = λ p w.
        statement-Ensures (λ a rs. (rs ≡ w.rows) × (a ≡ count p w.rows)) (λ rs. (count p rs, rs)) w
          (refl, refl);
  }

-- ===== src/Database/Keyed.antt =====
-- An update that names its row by the primary key, and reports whether it met it.
use trams_assignment.Base.{
  ℕ, ◌≡◌, ◌∙◌, Bool, ◌&&◌, ◌⊎◌, inl, inr, Bool-cases, String, str_eq, count, count-and_left_le,
  arith, ◌==◌, Ensures, Ensures-weaken,
}
use trams_assignment.Database.{Table}
use trams_assignment.Database.Rows.{update, IsKeyed, update-and_left, update_none}

module _ {World Row : Type 0} {key : Row → String} (t : Table World Row key) where
  -- It meets one row, and changes that row and no other; or it meets none, and changes nothing.
  abbrev pub IsUpdated : String → (Row → Bool) → (Row → Row) → World → ℕ → World → Type 0
  IsUpdated k p f w n w' =
      ((n ≡ 1)
        × (count (λ r. str_eq (key r) k && p r) (t.rows w) ≡ 1)
        × (t.rows w' ≡ update (λ r. str_eq (key r) k) f (t.rows w)))
      ⊎ ((n ≡ 0) × (count (λ r. str_eq (key r) k && p r) (t.rows w) ≡ 0) × (t.rows w' ≡ t.rows w))

  pub update_many-IsUpdated :
      (k : String) (p : Row → Bool) (f : Row → Row) (w : World)
      → IsKeyed key (t.rows w)
      → Ensures
          (IsUpdated k p f w)
          (λ e w'. t.rows w' ≡ t.rows w)
          (t.update_many (λ r. str_eq (key r) k && p r) f w)
  update_many-IsUpdated k p f w v =
      Ensures-weaken
        (λ n w' (en, er). elim (Bool-cases (n == 1)) [
          | inl one ↦ inl (
            ground arith,
            ground (arith, en),
            er ∙ update-and_left (λ r. str_eq (key r) k) p f (t.rows w) (ground (arith, en, v k)),
          )
          | inr other ↦
              let zero : count (λ r. str_eq (key r) k && p r) (t.rows w) ≡ 0 =
                ground (arith, en, v k, count-and_left_le (λ r. str_eq (key r) k) p (t.rows w)) in
              inr
                (en ∙ zero, zero, er ∙ update_none (λ r. str_eq (key r) k && p r) f (t.rows w) zero)
        ])
        (λ e w' same. same) (t.update_many_law (λ r. str_eq (key r) k && p r) f w)

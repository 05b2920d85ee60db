-- ===== src/Base/Effects.antt =====
-- Asynchronous methods that may throw: a state is passed on, and a failure keeps the state that it
-- was met in. `Ensures` says what holds after a call, of its value or of what it throws.
use mathlib.Core.Path.{◌≡◌, refl}
use mathlib.Core.Logic.{◌⊎◌, inl, inr}

pub data Result {ℓ κ} (E : Type ℓ) (A : Type κ) : Type (ℓ ⊔ κ) where
  ok : A → Result E A
  err : E → Result E A

pub Result-cases {ℓ κ} :
    {E : Type ℓ} {A : Type κ} (r : Result E A) → ((a : A) × (r ≡ ok a)) ⊎ ((e : E) × (r ≡ err e))
Result-cases (ok a) = inl (a, refl)
Result-cases (err e) = inr (e, refl)

-- A call of a method on a state `S`.
abbrev pub M {ℓ κ μ} : Type ℓ → Type κ → Type μ → Type (ℓ ⊔ κ ⊔ μ)
M S E A = S → Result E A × S

module _ {ℓ κ μ ν} {S : Type ℓ} {E : Type κ} {A : Type μ} {B : Type ν} where
  abbrev pub and_then : Result E A × S → (A → M S E B) → Result E B × S
  and_then (ok a, s) k = k a s
  and_then (err e, s) k = (err e, s)

  infixl 5 ◌>>=◌
  abbrev pub ◌>>=◌ : M S E A → (A → M S E B) → M S E B
  ◌>>=◌ m k s = and_then (m s) k

module _ {ℓ κ μ} {S : Type ℓ} {E : Type κ} {A : Type μ} where
  abbrev pub ret : A → M S E A
  ret a s = (ok a, s)

  abbrev pub throw : E → M S E A
  throw e s = (err e, s)

module _ {ℓ κ ν} {S : Type ℓ} {E : Type κ} {B : Type ν} where
  infixl 5 ◌>>◌
  abbrev pub ◌>>◌ : M S E (Unit {0}) → M S E B → M S E B
  m >> k = m >>= λ _. k

module _ {ℓ κ ρ μ} {S : Type ℓ} {E : Type κ} {F : Type ρ} {A : Type μ} where
  abbrev pub or_else : Result E A × S → (E → M S F A) → Result F A × S
  or_else (ok a, s) k = (ok a, s)
  or_else (err e, s) k = k e s

  -- `try { m } catch (error) { k(error) }`
  abbrev pub try_catch : M S E A → (E → M S F A) → M S F A
  try_catch m k s = or_else (m s) k

pub data Ensures {ℓ κ μ ν} {S : Type ℓ} {E : Type κ} {A : Type μ} (P : A → S → Type ν)
    (Q : E → S → Type ν) : Result E A × S → Type (ℓ ⊔ κ ⊔ μ ⊔ ν) where
  returns : {a : A} {s : S} → P a s → Ensures P Q (ok a, s)
  throws : {e : E} {s : S} → Q e s → Ensures P Q (err e, s)

module _ {ℓ κ μ ν} {S : Type ℓ} {E : Type κ} {A : Type μ} where
  pub Ensures-weaken :
      {P P' : A → S → Type ν} {Q Q' : E → S → Type ν} {x : Result E A × S}
      → ((a : A) (s : S) → P a s → P' a s)
      → ((e : E) (s : S) → Q e s → Q' e s)
      → Ensures P Q x
      → Ensures P' Q' x
  Ensures-weaken f g (returns p) = returns (f _ _ p)
  Ensures-weaken f g (throws q) = throws (g _ _ q)

  -- What is known of a call once its outcome is.
  pub of_ok :
      {P : A → S → Type ν} {Q : E → S → Type ν} {a : A} {s : S} → Ensures P Q (ok a, s) → P a s
  of_ok (returns p) = p

  pub of_err :
      {P : A → S → Type ν} {Q : E → S → Type ν} {e : E} {s : S} → Ensures P Q (err e, s) → Q e s
  of_err (throws q) = q

  pub and_then-Ensures {ρ} :
      {B : Type ρ} {P : A → S → Type ν} {Q Q' : E → S → Type ν} {R : B → S → Type ν}
      {x : Result E A × S} (k : A → M S E B)
      → Ensures P Q x
      → ((a : A) (s : S) → P a s → Ensures R Q' (k a s))
      → ((e : E) (s : S) → Q e s → Q' e s)
      → Ensures R Q' (and_then x k)
  and_then-Ensures k (returns p) f g = f _ _ p
  and_then-Ensures k (throws q) f g = throws (g _ _ q)

  pub or_else-Ensures {ρ} :
      {F : Type ρ} {P R : A → S → Type ν} {Q : E → S → Type ν} {Q' : F → S → Type ν}
      {x : Result E A × S} (k : E → M S F A)
      → Ensures P Q x
      → ((a : A) (s : S) → P a s → R a s)
      → ((e : E) (s : S) → Q e s → Ensures R Q' (k e s))
      → Ensures R Q' (or_else x k)
  or_else-Ensures k (returns p) f g = returns (f _ _ p)
  or_else-Ensures k (throws q) f g = g _ _ q

module _ {ℓ κ μ ν} {S : Type ℓ} {E : Type κ} {A : Type μ} where
  -- What holds of the state however a call ends.
  pub Ensures-either :
      {P : S → Type ν} {x : Result E A × S} → Ensures (λ _ s. P s) (λ _ s. P s) x → P x.1
  Ensures-either (returns p) = p
  Ensures-either (throws q) = q

module _ {ℓ κ μ} {S : Type ℓ} {E : Type κ} {A : Type μ} where
  -- A call returns or throws.
  pub Ensures-result :
      (x : Result E A × S) → Ensures (λ a s. x ≡ (ok a, s)) (λ e s. x ≡ (err e, s)) x
  Ensures-result (ok a, s) = returns refl
  Ensures-result (err e, s) = throws refl

  -- What is known of a call, with its outcome.
  pub Ensures-known {ν} :
      {P : A → S → Type ν} {Q : E → S → Type ν} {x : Result E A × S}
      → Ensures P Q x
      → Ensures (λ a s. (x ≡ (ok a, s)) × P a s) (λ e s. (x ≡ (err e, s)) × Q e s) x
  Ensures-known (returns p) = returns (refl, p)
  Ensures-known (throws q) = throws (refl, q)

  -- A call that never throws.
  pub Ensures-never :
      {P : A → S → Type 0} {Q : E → S → Type 0} {x : Result E A × S}
      → Ensures P Q x
      → Ensures (λ (_ : A) (_ : S). Unit {0}) (λ (_ : E) (_ : S). ⊥) x
      → Ensures P (λ _ _. ⊥) x
  Ensures-never (returns p) h = returns p
  Ensures-never (throws q) (throws never) = absurd never

module _ {E A S : Type 0} where
  -- A call whose outcome is known.
  pub Ensures-exactly :
      {x : Result E A × S} (a : A) (s : S)
      → x ≡ (ok a, s)
      → Ensures (λ a' s'. (a' ≡ a) × (s' ≡ s)) (λ _ _. ⊥) x
  Ensures-exactly a s is = rw is (returns (refl, refl))

module _ {E A S T : Type 0} where
  -- A call on a part of the state, put back by `f`.
  pub lift-Ensures :
      {P : A → S → Type 0} {Q : E → S → Type 0} (f : S → T) (x : Result E A × S)
      → Ensures P Q x
      → Ensures
          (λ a t. (s : S) × P a s × (t ≡ f s))
          (λ e t. (s : S) × Q e s × (t ≡ f s))
          (x.0, f x.1)
  lift-Ensures f x (returns p) = returns (_, p, refl)
  lift-Ensures f x (throws q) = throws (_, q, refl)

  -- The same for a call that never throws.
  pub lift-Ensures_never :
      {P : A → S → Type 0} (f : S → T) (x : Result E A × S)
      → Ensures P (λ _ _. ⊥) x
      → Ensures (λ a t. (s : S) × P a s × (t ≡ f s)) (λ _ _. ⊥) (x.0, f x.1)
  lift-Ensures_never f x (returns p) = returns (_, p, refl)
  lift-Ensures_never f x (throws q) = absurd q

module _ {ℓ κ ρ μ ν} {S : Type ℓ} {E : Type κ} {F : Type ρ} {A : Type μ} {B : Type ν} where
  -- One continuation for the value of a call and one for its failure. What the first throws is not
  -- caught.
  abbrev pub settle : Result E A × S → (A → M S F B) → (E → M S F B) → Result F B × S
  settle (ok a, s) k h = k a s
  settle (err e, s) k h = h e s

  pub settle-Ensures {π} :
      {P : A → S → Type π} {Q : E → S → Type π} {R : B → S → Type π} {T : F → S → Type π}
      {x : Result E A × S} (k : A → M S F B) (h : E → M S F B)
      → Ensures P Q x
      → ((a : A) (s : S) → P a s → Ensures R T (k a s))
      → ((e : E) (s : S) → Q e s → Ensures R T (h e s))
      → Ensures R T (settle x k h)
  settle-Ensures k h (returns p) f g = f _ _ p
  settle-Ensures k h (throws q) f g = g _ _ q

module _ {ℓ κ μ} {S : Type ℓ} {E : Type κ} {A : Type μ} where
  -- What follows a `try` block in `finally`: its failure takes the place of the block's outcome.
  abbrev pub after_try : Result E A × S → M S E (Unit {0}) → Result E A × S
  after_try (ok a, s) last = and_then (last s) (λ _. ret a)
  after_try (err e, s) last = and_then (last s) (λ _. throw e)

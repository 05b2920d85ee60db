-- ===== src/Contracts/Validating.antt =====
-- What the schemas of libs/contracts/src accept: a text that went through a chain of checks goes
-- through it again unchanged.
use trams_assignment.Base.{
  ◌≡◌, refl, ap, sym, ◌∙◌, subst, inl, inr, true, Bool-cases, Option, none, some, List, [], ◌∷◌,
  String, trim, trim-no_space, trim-trim, leb, Result, ok, err,
}
use trams_assignment.Contracts.Schemas.{
  Check, trimmed, lower_case, email, uuid, datetime, min_length, max_length, ZodString, IsZod,
  passes, changed, email_schema, password_schema, display_name_schema, datetime_schema,
  user_id_schema, optional, ◌>>?◌,
}

pub ok-injective : {A : Type 0} {a b : A} → ◌≡◌ {A = Result String A} (ok a) (ok b) → a ≡ b
ok-injective p = cc

pub bound :
    {A B : Type 0} (r : Result String A) (k : A → Result String B) {b : B}
    → (r >>? k) ≡ ok b
    → (a : A) × (r ≡ ok a) × (k a ≡ ok b)
bound (ok a) k h = (a, refl, h)
bound (err e) k h = absurd cc

module _ {zod : ZodString} (laws : IsZod zod) where
  passed :
      (c : Check) (cs : List Check) (s : String) {o : String}
      → zod.parse (c ∷ cs) s ≡ ok o
      → (passes zod c s ≡ true) × (zod.parse cs (changed zod c s) ≡ ok o)
  passed c cs s {o} h = elim (Bool-cases (passes zod c s)) [
    | inl right ↦ (right, sym (laws.pass_law c cs s right) ∙ h)
    | inr wrong ↦ absurd (laws.fail_law c cs s o wrong h)
  ]

  ended : (s : String) {o : String} → zod.parse [] s ≡ ok o → s ≡ o
  ended s h = ok-injective (sym (laws.end_law s) ∙ h)

  -- A chain whose checks pass and leave the text as it is.
  kept :
      (c : Check) (cs : List Check) (s : String)
      → passes zod c s ≡ true
      → changed zod c s ≡ s
      → zod.parse cs s ≡ ok s
      → zod.parse (c ∷ cs) s ≡ ok s
  kept c cs s passing same rest = laws.pass_law c cs s passing ∙ ap (zod.parse cs) same ∙ rest

  pub email-again :
      (s o : String) → zod.parse email_schema s ≡ ok o → zod.parse email_schema o ≡ ok o
  email-again s o h =
      let (_, h₁) = passed trimmed _ s h in
      let (is, h₂) = passed email _ (trim s) h₁ in
      let (short, h₃) = passed (max_length 254) _ (trim s) h₂ in
      let (_, h₄) = passed lower_case _ (trim s) h₃ in
      let same = ended (zod.to_lower (trim s)) h₄ in
      let low = zod.to_lower (trim s) in
      let is_low = laws.email_lower (trim s) is in
      subst (λ t. zod.parse email_schema t ≡ ok t) same
        (kept trimmed _ low refl (trim-no_space low (laws.email_space low is_low)) (
          kept email _ low is_low refl (
            kept (max_length 254) _ low
              (ap (λ n. leb n 254) (laws.lower_length (trim s) is) ∙ short) refl
              (kept lower_case _ low refl (laws.lower_lower (trim s) is) (laws.end_law low)))))

  pub password-again :
      (s o : String) → zod.parse password_schema s ≡ ok o → zod.parse password_schema o ≡ ok o
  password-again s o h =
      let (_, h₁) = passed (min_length 8) _ s h in
      let (_, h₂) = passed (max_length 128) _ s h₁ in
      subst (λ t. zod.parse password_schema t ≡ ok t) (ended s h₂) (h ∙ ap ok (sym (ended s h₂)))

  pub display_name-again :
      (s o : String)
      → zod.parse display_name_schema s ≡ ok o
      → zod.parse display_name_schema o ≡ ok o
  display_name-again s o h =
      let (_, h₁) = passed trimmed _ s h in
      let (long, h₂) = passed (min_length 1) _ (trim s) h₁ in
      let (short, h₃) = passed (max_length 100) _ (trim s) h₂ in
      subst (λ t. zod.parse display_name_schema t ≡ ok t) (ended (trim s) h₃)
        (kept trimmed _ (trim s) refl (trim-trim s) (
          kept (min_length 1) _ (trim s) long refl
            (kept (max_length 100) _ (trim s) short refl (laws.end_law (trim s)))))

  pub id-kept : (s : String) → zod.is_uuid s ≡ true → zod.parse user_id_schema s ≡ ok s
  id-kept s is = kept uuid _ s is refl (laws.end_law s)

  pub id-again :
      (s o : String) → zod.parse user_id_schema s ≡ ok o → zod.parse user_id_schema o ≡ ok o
  id-again s o h =
      let (is, h₁) = passed uuid _ s h in
      subst (λ t. zod.parse user_id_schema t ≡ ok t) (ended s h₁) (id-kept s is)

  pub datetime-kept : (s : String) → zod.is_datetime s ≡ true → zod.parse datetime_schema s ≡ ok s
  datetime-kept s is = kept datetime _ s is refl (laws.end_law s)

  -- An optional field that was read is read again unchanged.
  pub optional-again :
      (checks : List Check)
      → ((s o : String) → zod.parse checks s ≡ ok o → zod.parse checks o ≡ ok o)
      → (field : Option String) {read : Option String} → optional zod checks field ≡ ok read
      → optional zod checks read ≡ ok read
  optional-again checks again none h =
      subst (λ r. optional zod checks r ≡ ok r) (ok-injective h) refl
  optional-again checks again (some s) h =
      let (o, parsed, is) = bound (zod.parse checks s) _ h in
      subst (λ r. optional zod checks r ≡ ok r) (ok-injective is)
        (ap (λ r. r >>? λ t. ok (some t)) (again s o parsed))

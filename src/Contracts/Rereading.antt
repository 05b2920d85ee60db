-- ===== src/Contracts/Rereading.antt =====
-- The other requests of libs/contracts/src: log-in, update and update over NATS.
use trams_assignment.Base.{
  ◌≡◌, refl, subst, true, false, Bool, ◌&&◌, is_null, ok, err, if◌then◌else◌, String,
}
use trams_assignment.Contracts.Schemas.{
  ZodString, IsZod, email_schema, password_schema, display_name_schema, user_id_schema, optional,
  login_dto, update_fields, refined, update_user_dto, update_user_request,
}
use trams_assignment.Contracts.Validating.{
  ok-injective, bound, email-again, password-again, display_name-again, optional-again, id-again,
}
use trams_assignment.Users.{LoginDto, UpdateUserDto}
use trams_assignment.Rpc.Routes.{UpdateUserRequest}

unrefused :
    {A : Type 0} {value read : A} (message : String) (empty : Bool)
    → (if empty then err message else ok value) ≡ ok read
    → value ≡ read
unrefused message true h = absurd cc
unrefused message false h = ok-injective h

module _ {zod : ZodString} (laws : IsZod zod) where
  -- A log-in that was read is read again unchanged.
  login_dto-again :
      (input dto : LoginDto) → login_dto zod input ≡ ok dto → login_dto zod dto ≡ ok dto
  login_dto-again input dto h =
      let (address, is_email, h₁) = bound (zod.parse email_schema input.email) _ h in
      let (password, is_password, h₂) = bound (zod.parse password_schema input.password) _ h₁ in
      subst (λ d. login_dto zod d ≡ ok d) (ok-injective h₂)
        (rw
          (
            email-again laws input.email address is_email,
            password-again laws input.password password is_password,
          )
          refl)

  update_fields-again :
      (input dto : UpdateUserDto)
      → update_fields zod input ≡ ok dto
      → update_fields zod dto ≡ ok dto
  update_fields-again input dto h =
      let (address, is_email, h₁) = bound (optional zod email_schema input.email) _ h in
      let (password, is_password, h₂) = bound (optional zod password_schema input.password) _ h₁ in
      let (name, is_name, h₃) = bound (optional zod display_name_schema input.name) _ h₂ in
      subst (λ d. update_fields zod d ≡ ok d) (ok-injective h₃)
        (rw
          (
            optional-again laws email_schema (email-again laws) input.email is_email,
            optional-again laws password_schema (password-again laws) input.password is_password,
            optional-again laws display_name_schema (display_name-again laws) input.name is_name,
          )
          refl)

  -- What `refine` lets through it returns, and lets through again.
  refined-again :
      (value dto : UpdateUserDto)
      → refined zod value ≡ ok dto
      → (value ≡ dto) × (refined zod dto ≡ ok dto)
  refined-again value dto h =
      let same =
        unrefused _ (is_null value.email && (is_null value.password && is_null value.name)) h in
      (same, subst (λ d. refined zod d ≡ ok dto) same h)

  -- An update that was read is read again unchanged.
  update_user_dto-again :
      (input dto : UpdateUserDto)
      → update_user_dto zod input ≡ ok dto
      → update_user_dto zod dto ≡ ok dto
  update_user_dto-again input dto h =
      let (fields, are_fields, h₁) = bound (update_fields zod input) _ h in
      let (same, through) = refined-again fields dto h₁ in
      subst (λ d. update_user_dto zod d ≡ ok dto) same
        (rw (update_fields-again input fields are_fields) h₁)

  -- So is an update request.
  update_user_request-again :
      (input request : UpdateUserRequest)
      → update_user_request zod input ≡ ok request
      → update_user_request zod request ≡ ok request
  update_user_request-again input request h =
      let (id, is_id, h₁) = bound (zod.parse user_id_schema input.id) _ h in
      let (fields, are_fields, h₂) = bound (update_fields zod input.update) _ h₁ in
      let (update, is_update, h₃) = bound (refined zod fields) _ h₂ in
      let (same, through) = refined-again fields update is_update in
      subst (λ r. update_user_request zod r ≡ ok r) (ok-injective h₃)
        (rw
          (
            id-again laws input.id id is_id,
            subst (λ d. update_fields zod d ≡ ok d) same
                (update_fields-again input.update fields are_fields),
            through,
          )
          refl)

-- ===== src/Contracts/Announcing.antt =====
-- What a sign-up sends out, against the schemas of libs/contracts/src that its readers apply: the
-- user service to the request, the gateway to the answer and the consumer to the event.
use trams_assignment.Base.{
  ℕ, ◌≡◌, refl, ap, sym, ◌∙◌, subst, true, [], ◌∷◌, ◌++◌, String, ok, Ensures, of_ok,
}
use trams_assignment.Contracts.{UserCreatedEvent, user_created}
use trams_assignment.Contracts.Schemas.{
  ZodString, IsZod, email_schema, password_schema, display_name_schema, optional, create_user_dto,
  user_response_dto, user_created_event,
}
use trams_assignment.Contracts.Validating.{
  ok-injective, bound, email-again, password-again, display_name-again, optional-again, id-kept,
  datetime-kept,
}
use trams_assignment.Users.{
  CreateUserDto, UserResponseDto, to_user_response, to_user_created_event, sign_up,
}
use trams_assignment.Users.Records.{UserRecord, UserDatabase, PasswordHasher, new_outbox_event}
use trams_assignment.Users.SigningUp.{IsRegistered, sign_up-registers}

module _ {zod : ZodString} (laws : IsZod zod) where
  -- Each field is one that its schema has read.
  pub record AreRead (dto : CreateUserDto) : Type 0 where
    pub email : zod.parse email_schema dto.email ≡ ok dto.email
    pub password : zod.parse password_schema dto.password ≡ ok dto.password
    pub name : optional zod display_name_schema dto.name ≡ ok dto.name

  create_user_dto-AreRead :
      (input dto : CreateUserDto) → create_user_dto zod input ≡ ok dto → AreRead dto
  create_user_dto-AreRead input dto h =
      let (address, is_email, h₁) = bound (zod.parse email_schema input.email) _ h in
      let (password, is_password, h₂) = bound (zod.parse password_schema input.password) _ h₁ in
      let (name, is_name, h₃) = bound (optional zod display_name_schema input.name) _ h₂ in
      subst AreRead (ok-injective h₃) (record {
        email = email-again laws input.email address is_email;
        password = password-again laws input.password password is_password;
        name = optional-again laws display_name_schema (display_name-again laws) input.name is_name;
      })

  create_user_dto-again : (dto : CreateUserDto) → AreRead dto → create_user_dto zod dto ≡ ok dto
  create_user_dto-again dto r = rw (r.email, r.password, r.name) refl

  module _ (to_iso_string : ℕ → String)
      (dates : (t : ℕ) → zod.is_datetime (to_iso_string t) ≡ true) where
    user_response_dto-accepts :
        (user : UserRecord)
        → zod.is_uuid user.id ≡ true
        → zod.parse email_schema user.email ≡ ok user.email
        → user_response_dto zod (to_user_response to_iso_string user)
          ≡ ok (to_user_response to_iso_string user)
    user_response_dto-accepts user id email =
        rw
          (
            id-kept laws user.id id,
            email,
            datetime-kept laws _ (dates user.created_at),
            datetime-kept laws _ (dates user.updated_at),
          )
          refl

    user_created_event-accepts :
        (user : UserRecord) (event_id : String) (now : ℕ)
        → zod.is_uuid user.id ≡ true
        → zod.is_uuid event_id ≡ true
        → zod.parse email_schema user.email ≡ ok user.email
        → user_created_event zod (to_user_created_event to_iso_string event_id now user)
          ≡ ok (to_user_created_event to_iso_string event_id now user)
    user_created_event-accepts user event_id now id new_id email =
        rw
          (
            id-kept laws event_id new_id,
            datetime-kept laws _ (dates now),
            id-kept laws user.id id,
            email,
            datetime-kept laws _ (dates user.created_at),
          )
          refl

  -- One event was stored, about the user of the answer, and the readers accept the request, the
  -- answer and the event as they are.
  pub record IsAnnounced {World : Type 0} (db : UserDatabase World) (dto : CreateUserDto)
      (w : World) (response : UserResponseDto) (w' : World) : Type 0 where
    pub event : UserCreatedEvent
    pub made_at : ℕ
    pub stored :
        db.events w'
        ≡ db.events w
          ++ new_outbox_event
              (record { id = event.event_id; subject = user_created; payload = event })
              made_at
            ∷ []
    pub about : event.payload.id ≡ response.id
    pub request : create_user_dto zod dto ≡ ok dto
    pub answer : user_response_dto zod response ≡ ok response
    pub accepted : user_created_event zod event ≡ ok event

  -- A request that the gateway's schema has read goes through the same schema of the user service
  -- unchanged. If the user service then signs the user up, and the new ids are UUIDs and the times
  -- ISO texts, the schema of the gateway accepts the answer as it is, and one event was added to the
  -- outbox, about the same user, that the schema of the consumers accepts as it is.
  pub sign_up-IsAnnounced :
      (to_iso_string : ℕ → String)
      → ((t : ℕ) → zod.is_datetime (to_iso_string t) ≡ true)
      → {World : Type 0} {db : UserDatabase World} (passwords : PasswordHasher db)
      → (input dto : CreateUserDto) (event_id : String) (w w' : World) (response : UserResponseDto)
      → create_user_dto zod input ≡ ok dto
      → sign_up passwords to_iso_string dto event_id w ≡ (ok response, w')
      → zod.is_uuid event_id ≡ true
      → zod.is_uuid response.id ≡ true
      → IsAnnounced db dto w response w'
  sign_up-IsAnnounced to_iso_string dates {db = db} passwords input dto event_id w w' response read
        run new_id id =
      let are = create_user_dto-AreRead input dto read in
      let done = of_ok (
        subst (Ensures (λ r v. IsRegistered passwords to_iso_string dto event_id w r v) _) run
          (sign_up-registers passwords to_iso_string dto event_id w)) in
      let user = done.user in
      let user_id = ap (λ r. zod.is_uuid r.id) (sym done.answered) ∙ id in
      let email = subst (λ t. zod.parse email_schema t ≡ ok t) (sym done.created.email) are.email in
      record {
        event = to_user_created_event to_iso_string event_id done.created.made_at user;
        made_at = done.created.made_at;
        stored = done.created.events;
        about = ap (λ r. r.id) (sym done.answered);
        request = create_user_dto-again dto are;
        answer =
            subst (λ r. user_response_dto zod r ≡ ok r) (sym done.answered)
              (user_response_dto-accepts to_iso_string dates user user_id email);
        accepted =
            user_created_event-accepts to_iso_string dates user event_id done.created.made_at
              user_id new_id email;
      }

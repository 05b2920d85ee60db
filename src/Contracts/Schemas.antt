-- ===== src/Contracts/Schemas.antt =====
-- The schemas of libs/contracts/src: dto/user.dto.ts, dto/auth.dto.ts, events/envelope.ts and
-- events/user-events.ts, on values that have the shape of their type and no further key. What a chain
-- of checks makes of a text belongs to the zod library, a parameter.
use trams_assignment.Base.{
  ℕ, ◌≡◌, ◌≢◌, Bool, true, false, ◌&&◌, Option, none, some, List, [], ◌∷◌, String, count_text, trim,
  no_space, leb, is_null, str_eq, if◌then◌else◌, Result, ok, err,
}
use trams_assignment.Contracts.{UserCreatedPayload, UserCreatedEvent}
use trams_assignment.Users.{
  CreateUserDto, LoginDto, UpdateUserDto, UserResponseDto, AuthenticatedUser,
}
use trams_assignment.Rpc.Routes.{UpdateUserRequest}

-- `.trim()`, `.toLowerCase()`, `.uuid()`, `.email()`, `.datetime()`, `.min(n)` and `.max(n)`
pub data Check : Type 0 where
  trimmed : Check
  lower_case : Check
  uuid : Check
  email : Check
  datetime : Check
  min_length : ℕ → Check
  max_length : ℕ → Check

-- The texts of zod. `parse` runs the checks of a chain in order, each on what the ones before have
-- made of the text.
pub record ZodString : Type 0 where
  pub parse : List Check → String → Result String String
  pub is_uuid : String → Bool
  pub is_email : String → Bool
  pub is_datetime : String → Bool
  pub to_lower : String → String

module _ (zod : ZodString) where
  abbrev pub passes : Check → String → Bool
  passes trimmed s = true
  passes lower_case s = true
  passes uuid s = zod.is_uuid s
  passes email s = zod.is_email s
  passes datetime s = zod.is_datetime s
  passes (min_length n) s = leb n (count_text s)
  passes (max_length n) s = leb (count_text s) n

  abbrev pub changed : Check → String → String
  changed trimmed s = trim s
  changed lower_case s = zod.to_lower s
  changed uuid s = s
  changed email s = s
  changed datetime s = s
  changed (min_length n) s = s
  changed (max_length n) s = s

  -- What the library documents of chains, and of the texts that are email addresses: they hold no white
  -- space, and in lower case they are such texts of the same length.
  pub record IsZod : Type 0 where
    pub end_law : (s : String) → zod.parse [] s ≡ ok s
    pub pass_law :
        (c : Check) (cs : List Check) (s : String)
        → passes c s ≡ true
        → zod.parse (c ∷ cs) s ≡ zod.parse cs (changed c s)
    pub fail_law :
        (c : Check) (cs : List Check) (s o : String)
        → passes c s ≡ false
        → zod.parse (c ∷ cs) s ≢ ok o
    pub email_space : (s : String) → zod.is_email s ≡ true → no_space s ≡ true
    pub email_lower : (s : String) → zod.is_email s ≡ true → zod.is_email (zod.to_lower s) ≡ true
    pub lower_length :
        (s : String) → zod.is_email s ≡ true → count_text (zod.to_lower s) ≡ count_text s
    pub lower_lower :
        (s : String) → zod.is_email s ≡ true → zod.to_lower (zod.to_lower s) ≡ zod.to_lower s

abbrev pub user_id_schema : List Check
user_id_schema = uuid ∷ []

abbrev pub email_schema : List Check
email_schema = trimmed ∷ email ∷ max_length 254 ∷ lower_case ∷ []

abbrev pub password_schema : List Check
password_schema = min_length 8 ∷ max_length 128 ∷ []

abbrev pub display_name_schema : List Check
display_name_schema = trimmed ∷ min_length 1 ∷ max_length 100 ∷ []

abbrev pub datetime_schema : List Check
datetime_schema = datetime ∷ []

infixl 5 ◌>>?◌
abbrev pub ◌>>?◌ : {A B : Type 0} → Result String A → (A → Result String B) → Result String B
ok a >>? k = k a
err e >>? k = err e

module _ (zod : ZodString) where
  -- `.optional()`
  abbrev pub optional : List Check → Option String → Result String (Option String)
  optional checks none = ok none
  optional checks (some s) = zod.parse checks s >>? λ o. ok (some o)

  abbrev pub create_user_dto : CreateUserDto → Result String CreateUserDto
  create_user_dto input = zod.parse email_schema input.email >>? λ address.
      zod.parse password_schema input.password >>? λ password.
      optional display_name_schema input.name >>? λ name.
      ok (record { email = address; password = password; name = name })

  abbrev pub login_dto : LoginDto → Result String LoginDto
  login_dto input = zod.parse email_schema input.email >>? λ address.
      zod.parse password_schema input.password >>? λ password.
      ok (record { email = address; password = password })

  -- The fields of an update, without the `refine` behind them.
  abbrev pub update_fields : UpdateUserDto → Result String UpdateUserDto
  update_fields input = optional email_schema input.email >>? λ address.
      optional password_schema input.password >>? λ password.
      optional display_name_schema input.name >>? λ name.
      ok (record { email = address; password = password; name = name })

  -- `.refine((value) => Object.keys(value).length > 0, …)`, where a key that is there has a value.
  abbrev pub refined : UpdateUserDto → Result String UpdateUserDto
  refined value =
      if is_null value.email && (is_null value.password && is_null value.name)
      then err "Provide at least one field to update"
      else ok value

  abbrev pub update_user_dto : UpdateUserDto → Result String UpdateUserDto
  update_user_dto input = update_fields input >>? refined

  abbrev pub get_user_request : String → Result String String
  get_user_request id = zod.parse user_id_schema id

  -- Of the keys of an update request one is the id.
  abbrev pub update_user_request : UpdateUserRequest → Result String UpdateUserRequest
  update_user_request input = zod.parse user_id_schema input.id >>? λ id.
      update_fields input.update >>? λ fields.
      refined fields >>? λ update. ok (record { id = id; update = update })

  abbrev pub user_response_dto : UserResponseDto → Result String UserResponseDto
  user_response_dto user = zod.parse user_id_schema user.id >>? λ id.
      zod.parse email_schema user.email >>? λ address.
      zod.parse datetime_schema user.created_at >>? λ created_at.
      zod.parse datetime_schema user.updated_at >>? λ updated_at. ok (record {
        id = id;
        email = address;
        name = user.name;
        created_at = created_at;
        updated_at = updated_at;
      })

  abbrev pub authenticated_user : AuthenticatedUser → Result String AuthenticatedUser
  authenticated_user user = zod.parse user_id_schema user.id >>? λ id.
      zod.parse email_schema user.email >>? λ address.
      ok (record { id = id; email = address; name = user.name })

  abbrev pub user_created_payload : UserCreatedPayload → Result String UserCreatedPayload
  user_created_payload value = zod.parse user_id_schema value.id >>? λ id.
      zod.parse email_schema value.email >>? λ address.
      zod.parse datetime_schema value.created_at >>? λ created_at.
      ok (record { id = id; email = address; name = value.name; created_at = created_at })

  -- `eventEnvelopeSchema` with the literal type and the payload of the event.
  abbrev pub user_created_event : UserCreatedEvent → Result String UserCreatedEvent
  user_created_event event = zod.parse user_id_schema event.event_id >>? λ event_id.
      zod.parse datetime_schema event.occurred_at >>? λ occurred_at.
      (if str_eq event.type "user.created" then ok event.type else err "Invalid literal value")
      >>? λ type. user_created_payload event.payload >>? λ value.
          ok (record {
            event_id = event_id;
            occurred_at = occurred_at;
            type = type;
            payload = value;
          })

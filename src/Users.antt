-- ===== src/Users.antt =====
-- The user service: apps/user-service/src/services/user.service.ts and
-- repositories/user.repository.ts. Prisma is the parameter `UserDatabase`, bcrypt the parameter
-- `PasswordHasher`, and `to_iso_string` prints a time.
pub mod Records
pub mod SigningUp
pub mod Accounts
pub mod Passwords
use trams_assignment.Base.{
  ℕ, Bool, true, false, ◌&&◌, not, Option, none, some, String, is_text, is_null, if◌then◌else◌, M,
  Result, ok, err, ret, throw, ◌>>=◌, ◌>>◌, try_catch, and_then, append_text,
}
use trams_assignment.Contracts.{UserCreatedEvent, user_created}
use trams_assignment.Database.{Fault, error, unique_violation}
use Records.{
  UserRecord, CreateUserData, UpdateUserData, OutboxData, UserDatabase, PasswordHasher, is_missing,
}

pub data UserServiceErrorCode : Type 0 where
  email_already_in_use : UserServiceErrorCode
  invalid_credentials : UserServiceErrorCode
  user_not_found : UserServiceErrorCode

-- What the service throws: an error of its own, or one from below.
pub data ServiceFault : Type 0 where
  user_service_error : (message : String) → (code : UserServiceErrorCode) → ServiceFault
  other_error : Fault → ServiceFault

pub record CreateUserDto : Type 0 where
  pub email : String
  pub password : String
  pub name : Option String

pub record LoginDto : Type 0 where
  pub email : String
  pub password : String

pub record UpdateUserDto : Type 0 where
  pub email : Option String
  pub password : Option String
  pub name : Option String

pub record UserResponseDto : Type 0 where
  pub id : String
  pub email : String
  pub name : Option String
  pub created_at : String
  pub updated_at : String

pub record AuthenticatedUser : Type 0 where
  pub id : String
  pub email : String
  pub name : Option String

abbrev pub create_user_data : CreateUserDto → String → CreateUserData
create_user_data input password_hash = record {
  email = input.email;
  password_hash = password_hash;
  name = input.name;
}

abbrev pub update_user_data : UpdateUserDto → Option String → UpdateUserData
update_user_data input password_hash = record {
  email = input.email;
  password_hash = password_hash;
  name = input.name;
}

abbrev pub to_authenticated_user : UserRecord → AuthenticatedUser
to_authenticated_user user = record { id = user.id; email = user.email; name = user.name }

module _ (to_iso_string : ℕ → String) where
  abbrev pub to_user_response : UserRecord → UserResponseDto
  to_user_response user = record {
    id = user.id;
    email = user.email;
    name = user.name;
    created_at = to_iso_string user.created_at;
    updated_at = to_iso_string user.updated_at;
  }

  -- With the new UUID and the time.
  abbrev pub to_user_created_event : String → ℕ → UserRecord → UserCreatedEvent
  to_user_created_event event_id now user = record {
    event_id = event_id;
    occurred_at = to_iso_string now;
    type = "user.created";
    payload = record {
      id = user.id;
      email = user.email;
      name = user.name;
      created_at = to_iso_string user.created_at;
    };
  }

abbrev pub is_unique_email_error : Fault → Bool
is_unique_email_error e = is_text e.code unique_violation

abbrev pub is_record_not_found_error : Fault → Bool
is_record_not_found_error e = is_text e.code is_missing

abbrev pub email_in_use : ServiceFault
email_in_use = user_service_error "A user with this email already exists" email_already_in_use

abbrev pub wrong_credentials : ServiceFault
wrong_credentials = user_service_error "Invalid email or password" invalid_credentials

abbrev pub no_user : ServiceFault
no_user = user_service_error "User not found" user_not_found

-- The repository.
module _ {World : Type 0} (db : UserDatabase World) where
  -- The event is made once the user is there, by `create_event`, at the time of the clock.
  unfoldable pub create_user :
      CreateUserData → (ℕ → UserRecord → UserCreatedEvent) → M World Fault UserRecord
  create_user fields create_event = db.transaction (do
    user ← db.create_user fields
    event ← (λ w. (ok (create_event (db.clock w) user), w))
    _ ← db.create_event (record { id = event.event_id; subject = user_created; payload = event })
    ret user)

  abbrev pub find_user : String → M World Fault (Option UserRecord)
  find_user id = db.find_by_id id

  abbrev pub find_user_by_email : String → M World Fault (Option UserRecord)
  find_user_by_email email = db.find_by_email email

  abbrev pub check_database : M World Fault (Unit {0})
  check_database = db.query_one

  -- `Object.keys(update).length === 0`
  abbrev pub is_empty_update : UpdateUserData → Bool
  is_empty_update fields =
      is_null fields.email && (is_null fields.password_hash && is_null fields.name)

  unfoldable pub update_record : String → UpdateUserData → M World Fault UserRecord
  update_record id fields =
      if is_empty_update fields
      then throw (error "At least one user field is required for an update")
      else db.update_user id fields

-- An error from below that the service does not catch.
abbrev pub passing : {S A : Type 0} → M S Fault A → M S ServiceFault A
passing m = try_catch m (λ e. throw (other_error e))

-- The service.
module _ {World : Type 0} {db : UserDatabase World} (passwords : PasswordHasher db)
    (to_iso_string : ℕ → String) where
  -- `signUp` from where the email is free.
  unfoldable pub register : CreateUserDto → String → M World ServiceFault UserResponseDto
  unfolding create_user
  register input event_id = do
    password_hash ← passing (passwords.hash input.password)
    user ←
        try_catch
          (create_user db (create_user_data input password_hash)
            (to_user_created_event to_iso_string event_id))
          (λ e. if is_unique_email_error e then throw email_in_use else throw (other_error e))
    ret (to_user_response to_iso_string user)

  unfoldable pub sign_up : CreateUserDto → String → M World ServiceFault UserResponseDto
  unfolding register
  sign_up input event_id = do
    existing ← passing (find_user_by_email db input.email)
    if is_null existing then register input event_id else throw email_in_use

  -- `login` with the user that was found.
  unfoldable pub authenticate :
      LoginDto → Option UserRecord → M World ServiceFault AuthenticatedUser
  authenticate input none = throw wrong_credentials
  authenticate input (some user) = do
    matches ← passing (passwords.verify input.password user.password_hash)
    if matches then ret (to_authenticated_user user) else throw wrong_credentials

  unfoldable pub login : LoginDto → M World ServiceFault AuthenticatedUser
  unfolding authenticate
  login input = do user ← passing (find_user_by_email db input.email); authenticate input user

  abbrev pub required : Option UserRecord → M World ServiceFault UserRecord
  required none = throw no_user
  required (some user) = ret user

  unfoldable pub get_user : String → M World ServiceFault UserResponseDto
  get_user id = do
    found ← passing (find_user db id)
    user ← required found
    ret (to_user_response to_iso_string user)

  -- The hash of a password, if there is one.
  abbrev pub hash_optional : Option String → M World Fault (Option String)
  hash_optional none = ret none
  hash_optional (some password) = passwords.hash password >>= (λ h. ret (some h))

  unfoldable pub update_user : String → UpdateUserDto → M World ServiceFault UserResponseDto
  unfolding update_record
  update_user id input = do
    password_hash ← passing (hash_optional input.password)
    user ← try_catch (update_record db id (update_user_data input password_hash)) (λ e.
        if is_unique_email_error e
        then throw email_in_use
        else if is_record_not_found_error e
        then throw no_user
        else throw (other_error e))
    ret (to_user_response to_iso_string user)

  unfoldable pub check_health : M World ServiceFault (Unit {0})
  check_health = passing (check_database db)

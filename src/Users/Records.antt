-- ===== src/Users/Records.antt =====
-- The users of prisma/schema.prisma, and what the user repository and service take from outside:
-- the Prisma client, with the documented effect of its calls, and the hashing of passwords.
use trams_assignment.Base.{
  ℕ, ◌<◌, ◌≡◌, Bool, true, Option, none, some, List, [], ◌∷◌, ◌++◌, String, str_eq, count, M, ok,
  Ensures, or_default,
}
use trams_assignment.Contracts.{UserCreatedEvent}
use trams_assignment.Database.{Fault}
use trams_assignment.Database.Rows.{update}
use trams_assignment.Outbox.{OutboxEvent}

pub record UserRecord : Type 0 where
  pub id : String
  pub email : String
  pub password_hash : String
  pub name : Option String
  pub created_at : ℕ
  pub updated_at : ℕ

pub record CreateUserData : Type 0 where
  pub email : String
  pub password_hash : String
  pub name : Option String

-- A name is only ever changed to a text: the contract has no null.
pub record UpdateUserData : Type 0 where
  pub email : Option String
  pub password_hash : Option String
  pub name : Option String

-- The data of a new outbox event, and its row with the defaults of the schema.
pub record OutboxData : Type 0 where
  pub id : String
  pub subject : String
  pub payload : UserCreatedEvent

abbrev pub new_outbox_event : OutboxData → ℕ → OutboxEvent
new_outbox_event fields now = record {
  id = fields.id;
  subject = fields.subject;
  payload = fields.payload;
  created_at = now;
  next_attempt_at = now;
  published_at = none;
  attempts = 0;
  locked_at = none;
  locked_by = none;
  last_error = none;
}

-- The code of Prisma for an update of a row that is not there.
abbrev pub is_missing : String
is_missing = "P2025"

abbrev pub is_id : String → UserRecord → Bool
is_id id r = str_eq r.id id

abbrev pub is_email : String → UserRecord → Bool
is_email email r = str_eq r.email email

abbrev pub changed_name : Option String → Option String → Option String
changed_name none name = name
changed_name (some name) old = some name

abbrev pub set_user : UpdateUserData → ℕ → UserRecord → UserRecord
set_user fields now r = record r {
  email = or_default fields.email r.email;
  password_hash = or_default fields.password_hash r.password_hash;
  name = changed_name fields.name r.name;
  updated_at = now;
}

-- A user that a search by a unique field has found, or that no row has the field.
abbrev pub IsSearched : (UserRecord → Bool) → List UserRecord → Option UserRecord → Type 0
IsSearched p rs none = count p rs ≡ 0
IsSearched p rs (some user) =
    (p user ≡ true) × ((q : UserRecord → Bool) → q user ≡ true → 0 < count q rs)

pub record UserDatabase (World : Type 0) : Type 0 where
  pub users : World → List UserRecord
  pub events : World → List OutboxEvent
  pub clock : World → ℕ
  pub create_user : CreateUserData → M World Fault UserRecord
  pub create_event : OutboxData → M World Fault (Unit {0})
  pub find_by_id : String → M World Fault (Option UserRecord)
  pub find_by_email : String → M World Fault (Option UserRecord)
  pub update_user : String → UpdateUserData → M World Fault UserRecord
  pub query_one : M World Fault (Unit {0})
  pub transaction : M World Fault UserRecord → M World Fault UserRecord
  -- An insert of a user commits only if the email is free.
  pub create_user_law :
      (fields : CreateUserData) (w : World)
      → Ensures
          (λ user w'.
            (user.email ≡ fields.email)
            × (user.password_hash ≡ fields.password_hash)
            × (user.name ≡ fields.name)
            × (count (is_email fields.email) (users w) ≡ 0)
            × (users w' ≡ users w ++ user ∷ [])
            × (events w' ≡ events w))
          (λ e w'. (users w' ≡ users w) × (events w' ≡ events w))
          (create_user fields w)
  pub create_event_law :
      (fields : OutboxData) (w : World)
      → Ensures
          (λ _ w'.
            (users w' ≡ users w) × (events w' ≡ events w ++ new_outbox_event fields (clock w) ∷ []))
          (λ e w'. (users w' ≡ users w) × (events w' ≡ events w))
          (create_event fields w)
  pub find_by_id_law :
      (id : String) (w : World)
      → Ensures
          (λ found w'.
            IsSearched (is_id id) (users w) found × (users w' ≡ users w) × (events w' ≡ events w))
          (λ e w'. (users w' ≡ users w) × (events w' ≡ events w))
          (find_by_id id w)
  pub find_by_email_law :
      (email : String) (w : World)
      → Ensures
          (λ found w'.
            IsSearched (is_email email) (users w) found
            × (users w' ≡ users w)
            × (events w' ≡ events w))
          (λ e w'. (users w' ≡ users w) × (events w' ≡ events w))
          (find_by_email email w)
  -- An update of one row, which returns the row as it is then.
  pub update_user_law :
      (id : String) (fields : UpdateUserData) (w : World)
      → Ensures
          (λ user w'.
            (users w' ≡ update (is_id id) (set_user fields (clock w)) (users w))
            × ((old : UserRecord) × (old.id ≡ id)
                × ((q : UserRecord → Bool) → q old ≡ true → 0 < count q (users w))
                × (user ≡ set_user fields (clock w) old))
            × (events w' ≡ events w))
          (λ e w'.
            (users w' ≡ users w)
            × (events w' ≡ events w)
            × (e.code ≡ some is_missing → count (is_id id) (users w) ≡ 0))
          (update_user id fields w)
  -- A transaction that returns has the effect of its body; one that throws has none.
  pub transaction_law :
      (body : M World Fault UserRecord) (w : World)
      → Ensures
          (λ user w'.
            (v : World) × (body w ≡ (ok user, v)) × (users w' ≡ users v) × (events w' ≡ events v))
          (λ e w'. (users w' ≡ users w) × (events w' ≡ events w))
          (transaction body w)

-- Hashing leaves the database alone.
pub record PasswordHasher {World : Type 0} (db : UserDatabase World) : Type 0 where
  pub hash : String → M World Fault String
  pub verify : String → String → M World Fault Bool
  pub hash_law :
      (password : String) (w : World)
      → Ensures
          (λ _ w'. (db.users w' ≡ db.users w) × (db.events w' ≡ db.events w))
          (λ e w'. (db.users w' ≡ db.users w) × (db.events w' ≡ db.events w))
          (hash password w)
  pub verify_law :
      (password hashed : String) (w : World)
      → Ensures
          (λ _ w'. (db.users w' ≡ db.users w) × (db.events w' ≡ db.events w))
          (λ e w'. (db.users w' ≡ db.users w) × (db.events w' ≡ db.events w))
          (verify password hashed w)

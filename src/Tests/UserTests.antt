-- ===== src/Tests/UserTests.antt =====
-- The user service on two tables in memory, and a hash that keeps the password.
use trams_assignment.Base.{
  ℕ, ◌<◌, ◌≡◌, refl, inl, inr, Bool, true, false, Bool-cases, Option, none, some, List, [], ◌∷◌,
  ◌++◌, String, str_eq, eq_iff, if◌then◌else◌, ◌==◌, ==_iff, count, Result, ok, err, of_ok, M, ret,
  Ensures, returns, throws, arith,
}
use trams_assignment.Database.{Fault, unique_violation}
use trams_assignment.Database.Rows.{update}
use trams_assignment.Outbox.{OutboxEvent}
use trams_assignment.Users.{
  user_service_error, email_already_in_use, CreateUserDto, LoginDto, UpdateUserDto,
  wrong_credentials, no_user, sign_up, login, get_user, update_user, create_user, update_record,
}
use trams_assignment.Users.Records.{
  UserRecord, CreateUserData, UpdateUserData, UserDatabase, PasswordHasher, IsSearched, is_id,
  is_email, is_missing, new_outbox_event, set_user,
}
use trams_assignment.Users.SigningUp.{IsRegistered, sign_up-registers}
use trams_assignment.Users.Accounts.{IsLoggedIn, login-IsLoggedIn, IsUpdated, update_user-IsUpdated}

pub record Store : Type 0 where
  users : List UserRecord
  events : List OutboxEvent
  clock : ℕ

abbrev search : (UserRecord → Bool) → List UserRecord → Option UserRecord
search p [] = none
search p (r ∷ rs) = if p r then some r else search p rs

searched_later :
    (p : UserRecord → Bool) (r : UserRecord) (rs : List UserRecord) (o : Option UserRecord)
    → p r ≡ false
    → IsSearched p rs o
    → IsSearched p (r ∷ rs) o
searched_later p r rs none h s = ground (arith, s)
searched_later p r rs (some user) h (e, s) = (e, λ q l. ground (arith, s q l))

pub search-IsSearched :
    (p : UserRecord → Bool) (rs : List UserRecord) → IsSearched p rs (search p rs)
search-IsSearched p [] = refl
search-IsSearched p (r ∷ rs) = elim (Bool-cases (p r)) [
  | inl e ↦ rw e (e, λ q h. ground (arith, h))
  | inr e ↦ rw e (searched_later p r rs (search p rs) e (search-IsSearched p rs))
]

abbrev user_of : CreateUserData → ℕ → UserRecord
user_of fields now = record {
  id = "u1";
  email = fields.email;
  password_hash = fields.password_hash;
  name = fields.name;
  created_at = now;
  updated_at = now;
}

abbrev taken : Fault
taken = record { code = some unique_violation; message = "Unique constraint failed" }

abbrev missing : Fault
missing = record { code = some is_missing; message = "Record not found" }

abbrev insert : CreateUserData → M Store Fault UserRecord
insert fields w =
    if count (is_email fields.email) w.users == 0
    then (ok (user_of fields w.clock), record w { users = w.users ++ user_of fields w.clock ∷ [] })
    else (err taken, w)

abbrev change : String → UpdateUserData → Option UserRecord → M Store Fault UserRecord
change id fields none w = (err missing, w)
change id fields (some old) w = (
  ok (set_user fields w.clock old),
  record w { users = update (is_id id) (set_user fields w.clock) w.users },
)

-- A transaction that fails is rolled back.
abbrev roll_back : Store → Result Fault UserRecord × Store → Result Fault UserRecord × Store
roll_back w (ok user, v) = (ok user, v)
roll_back w (err e, v) = (err e, w)

pub insert-Ensures :
    (fields : CreateUserData) (w : Store)
    → Ensures
        (λ user w'.
          (user.email ≡ fields.email)
          × (user.password_hash ≡ fields.password_hash)
          × (user.name ≡ fields.name)
          × (count (is_email fields.email) w.users ≡ 0)
          × (w'.users ≡ w.users ++ user ∷ [])
          × (w'.events ≡ w.events))
        (λ (e : Fault) w'. (w'.users ≡ w.users) × (w'.events ≡ w.events))
        (insert fields w)
insert-Ensures fields w = elim (Bool-cases (count (is_email fields.email) w.users == 0)) [
  | inl free ↦ rw free (returns (refl, refl, refl, (==_iff _ 0).0 free, refl, refl))
  | inr busy ↦ rw busy (throws (refl, refl))
]

pub change-Ensures :
    (id : String) (fields : UpdateUserData) (found : Option UserRecord) (w : Store)
    → IsSearched (is_id id) w.users found
    → Ensures
        (λ user w'.
          (w'.users ≡ update (is_id id) (set_user fields w.clock) w.users)
          × ((old : UserRecord) × (old.id ≡ id)
              × ((q : UserRecord → Bool) → q old ≡ true → 0 < count q w.users)
              × (user ≡ set_user fields w.clock old))
          × (w'.events ≡ w.events))
        (λ (e : Fault) w'.
          (w'.users ≡ w.users)
          × (w'.events ≡ w.events)
          × (e.code ≡ some is_missing → count (is_id id) w.users ≡ 0))
        (change id fields found w)
change-Ensures id fields none w s = throws (refl, refl, λ h. s)
change-Ensures id fields (some old) w (is, listed) =
    returns (refl, (old, (eq_iff old.id id).0 is, listed, refl), refl)

pub roll_back-Ensures :
    (w : Store) (r : Result Fault UserRecord × Store)
    → Ensures
        (λ user w'.
          (v : Store) × (r ≡ (ok user, v)) × (w'.users ≡ v.users) × (w'.events ≡ v.events))
        (λ (e : Fault) w'. (w'.users ≡ w.users) × (w'.events ≡ w.events))
        (roll_back w r)
roll_back-Ensures w (ok user, v) = returns (v, refl, refl, refl)
roll_back-Ensures w (err e, v) = throws (refl, refl)

abbrev pub store : UserDatabase Store
store = record {
  users = λ w. w.users;
  events = λ w. w.events;
  clock = λ w. w.clock;
  create_user = insert;
  create_event =
      λ fields w. (ok tt, record w { events = w.events ++ new_outbox_event fields w.clock ∷ [] });
  find_by_id = λ id w. (ok (search (is_id id) w.users), w);
  find_by_email = λ email w. (ok (search (is_email email) w.users), w);
  update_user = λ id fields w. change id fields (search (is_id id) w.users) w;
  query_one = ret tt;
  transaction = λ body w. roll_back w (body w);
  create_user_law = insert-Ensures;
  create_event_law = λ fields w. returns (refl, refl);
  find_by_id_law = λ id w. returns (search-IsSearched (is_id id) w.users, refl, refl);
  find_by_email_law = λ email w. returns (search-IsSearched (is_email email) w.users, refl, refl);
  update_user_law = λ id fields w.
      change-Ensures id fields (search (is_id id) w.users) w (search-IsSearched (is_id id) w.users);
  transaction_law = λ body w. roll_back-Ensures w (body w);
}

abbrev pub open_hash : PasswordHasher store
open_hash = record {
  hash = λ password. ret password;
  verify = λ password hashed. ret (str_eq password hashed);
  hash_law = λ password w. returns (refl, refl);
  verify_law = λ password hashed w. returns (refl, refl);
}

abbrev pub iso : ℕ → String
iso n = "2026-08-12T00:00:00.000Z"

abbrev ada : CreateUserDto
ada = record { email = "ada@example.com"; password = "correct horse"; name = some "Ada" }

abbrev pub nobody : Store
nobody = record { users = []; events = []; clock = 1000 }

abbrev with_ada : Store
with_ada = (sign_up open_hash iso ada "e1" nobody).1

sign_up-registers_example :
    IsRegistered open_hash iso ada "e1" nobody
      (record {
        id = "u1";
        email = "ada@example.com";
        name = some "Ada";
        created_at = iso 1000;
        updated_at = iso 1000;
      })
      with_ada
unfolding sign_up create_user
sign_up-registers_example = of_ok (sign_up-registers open_hash iso ada "e1" nobody)

-- A second sign-up with the email is refused, and changes nothing.
sign_up_run : sign_up open_hash iso ada "e2" with_ada ≡ (
  err (user_service_error "A user with this email already exists" email_already_in_use),
  with_ada,
)
unfolding sign_up create_user
sign_up_run = refl

abbrev ada_again : LoginDto
ada_again = record { email = "ada@example.com"; password = "correct horse" }

login-IsLoggedIn_example :
    IsLoggedIn open_hash ada_again with_ada
      (record { id = "u1"; email = "ada@example.com"; name = some "Ada" })
      with_ada
unfolding sign_up create_user login
login-IsLoggedIn_example = of_ok (login-IsLoggedIn open_hash ada_again iso with_ada)

login_run :
    (login open_hash iso (record ada_again { password = "wrong horse" }) with_ada).0
    ≡ err wrong_credentials
unfolding sign_up create_user login
login_run = refl

abbrev rename : UpdateUserDto
rename = record { email = none; password = some "staple battery"; name = some "Ada L." }

update_user-IsUpdated_example :
    IsUpdated open_hash iso "u1" rename with_ada
      (record {
        id = "u1";
        email = "ada@example.com";
        name = some "Ada L.";
        created_at = iso 1000;
        updated_at = iso 1000;
      })
      (update_user open_hash iso "u1" rename with_ada).1
unfolding sign_up create_user update_user update_record
update_user-IsUpdated_example = of_ok (update_user-IsUpdated open_hash iso "u1" rename with_ada)

update_user_run : (update_user open_hash iso "u2" rename with_ada).0 ≡ err no_user
unfolding sign_up create_user update_user update_record
update_user_run = refl

get_user_run : (get_user open_hash iso "u2" with_ada).0 ≡ err no_user
unfolding sign_up create_user get_user
get_user_run = refl

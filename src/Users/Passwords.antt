-- ===== src/Users/Passwords.antt =====
-- apps/user-service/src/utils/password.ts: the password hasher. The bcrypt library is a parameter, as
-- the hasher that it gives for each number of rounds.
use trams_assignment.Base.{
  ℕ, Bool, true, false, not, ◌||◌, Option, ltb, if◌then◌else◌, Number, whole, negative, not_whole,
  is_safe_integer, or_default, M, ret, throw,
}
use trams_assignment.Database.{Fault, error}
use trams_assignment.Messaging.Publisher.{to_natural}
use trams_assignment.Users.Records.{UserDatabase, PasswordHasher}

abbrev pub default_salt_rounds : Number
default_salt_rounds = whole 12

-- `saltRounds < 10`
abbrev pub is_below_ten : Number → Bool
is_below_ten (whole n) = ltb n 10
is_below_ten (negative n) = true
is_below_ten not_whole = false

-- `saltRounds > 15`
abbrev pub is_above_fifteen : Number → Bool
is_above_fifteen (whole n) = ltb 15 n
is_above_fifteen (negative n) = false
is_above_fifteen not_whole = false

-- The constructor of `BcryptPasswordHasher`
unfoldable pub create_password_hasher :
    {World S : Type 0}
    → (db : UserDatabase World) → (ℕ → PasswordHasher db)
    → Option Number
    → M S Fault (PasswordHasher db)
create_password_hasher db bcrypt option =
    let salt_rounds = or_default option default_salt_rounds in
    if not (is_safe_integer salt_rounds)
      || (is_below_ten salt_rounds || is_above_fifteen salt_rounds)
    then throw (error "bcrypt salt rounds must be an integer between 10 and 15")
    else ret (bcrypt (to_natural salt_rounds))

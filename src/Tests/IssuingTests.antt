-- ===== src/Tests/IssuingTests.antt =====
-- The log-in of the gateway with a token library that signs for one user.
use trams_assignment.Base.{
  ℕ, ◌+◌, ◌≡◌, refl, sym, ap, ap₂, ◌∙◌, Bool, true, false, ◌&&◌, Bool-cases, inl, inr, none, some,
  List, [], ◌∷◌, String, str_eq, eq_iff, M, Result, ok, err, ret, of_ok, arith,
}
use trams_assignment.Database.{Fault, error}
use trams_assignment.Rpc.{AppError}
use trams_assignment.Users.{LoginDto, UpdateUserDto}
use trams_assignment.Gateway.{get_route, read_bearer_token, caught}
use trams_assignment.Gateway.Tokens.{Jwt, JwtServiceConfig, SignOptions, payload, sign, verify}
use trams_assignment.Gateway.Accounts.{Answer, LoginResponseDto, login_route}
use trams_assignment.Gateway.Issuing.{IsIssued, login_route-IsIssued, get_route-IsIssued}
use trams_assignment.Tests.GatewayTests.{users}

abbrev is_ada : String → SignOptions → Bool
is_ada email options = str_eq options.subject "u1" && str_eq email "ada@example.com"

abbrev only_token : Bool → Result Fault String
only_token true = ok "t1"
only_token false = err (error "secretOrPrivateKey must have a value")

abbrev is_signed : Result Fault String → Bool
is_signed (ok token) = true
is_signed (err e) = false

pub ada_signed :
    (email token : String) (options : SignOptions)
    → only_token (is_ada email options) ≡ ok token
    → (options.subject ≡ "u1") × (email ≡ "ada@example.com")
ada_signed email token options signed = elim (Bool-cases (is_ada email options)) [
  | inl is ↦ (
    (eq_iff options.subject "u1").0 (ground arith),
    (eq_iff email "ada@example.com").0 (ground arith),
  )
  | inr other ↦ absurd (ground (arith, ap is_signed (ap only_token (sym other) ∙ signed)))
]

abbrev jwt : Jwt
jwt = record {
  sign = λ now email secret options. only_token (is_ada email options);
  verify = λ now token secret options. ok (payload (some "u1") (some "ada@example.com"));
  expiry = λ now duration. now + 900000;
  verify_law = λ now later email secret token options signed fresh.
      let (subject, mail) = ada_signed email token options signed in
      ap₂ (λ s e. ok (payload (some s) (some e))) (sym subject) (sym mail);
}

abbrev config : JwtServiceConfig
config = record {
  secret = "0123456789abcdef0123456789abcdef";
  expires_in = "15m";
  issuer = none;
  audience = none;
}

abbrev clock : List String → ℕ
clock log = 1000

abbrev check : LoginResponseDto → Result Fault LoginResponseDto
check r = ok r

abbrev body_or : LoginResponseDto → Result Fault LoginResponseDto → LoginResponseDto
body_or r (ok s) = s
body_or r (err e) = r

abbrev no_limit : M (List String) AppError (Unit {0})
no_limit = ret tt

abbrev parse_body : LoginDto → Result String LoginDto
parse_body body = ok body

abbrev credentials : LoginDto
credentials = record { email = "ada@example.com"; password = "correct horse" }

abbrev answer : Answer LoginResponseDto
answer = record {
  status = 200;
  body = record {
    access_token = "t1";
    token_type = "Bearer";
    expires_in = "15m";
    user = record { id = "u1"; email = "ada@example.com"; name = none };
  };
}

login_route-IsIssued_example :
    IsIssued users jwt config clock check no_limit parse_body credentials none answer
unfolding login_route sign
login_route-IsIssued_example =
    of_ok
      (login_route-IsIssued users jwt config clock check no_limit parse_body credentials none [])

issued : IsIssued users jwt config clock check no_limit parse_body credentials none answer
unfolding sign
issued = record {
  input = credentials;
  before = [];
  after = "login" ∷ [];
  user = answer.body.user;
  token = "t1";
  valid = refl;
  accepted = refl;
  signs = refl;
  checks = refl;
  status = refl;
}

abbrev parse_params : String → Result String String
parse_params id = ok id

abbrev parse_update : UpdateUserDto → Result String UpdateUserDto
parse_update body = ok body

get_route-IsIssued_example :
    get_route users
      (verify jwt config 2000)
      parse_params
      parse_update
      (some "Bearer t1")
      "u1"
      none
      []
    ≡ caught users (users.get_user "u1" none) []
unfolding read_bearer_token
get_route-IsIssued_example =
    get_route-IsIssued users jwt config clock check no_limit parse_body credentials none
      parse_params parse_update answer (some "Bearer t1") none "u1" 2000 [] issued
      (λ r s is. sym (ap (body_or r) is)) (omega arith) refl refl

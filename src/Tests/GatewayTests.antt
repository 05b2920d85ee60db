-- ===== src/Tests/GatewayTests.antt =====
-- The user routes with a token service that knows one token and a client that lists its calls.
use trams_assignment.Base.{
  ◌≡◌, refl, Option, none, some, List, [], ◌∷◌, String, str_eq, if◌then◌else◌, Result, ok, err,
  of_ok,
}
use trams_assignment.Database.{Fault, error}
use trams_assignment.Rpc.{AppError, to_app_error, app_error, nothing}
use trams_assignment.Users.{UserResponseDto, UpdateUserDto}
use trams_assignment.Gateway.{AccessTokenClaims, read_bearer_token, UserServiceRpcClient, get_route}
use trams_assignment.Gateway.Access.{IsReached, get_route-IsReached}

abbrev pub response : UserResponseDto
response = record {
  id = "u1";
  email = "ada@example.com";
  name = none;
  created_at = "2026-08-12T00:00:00.000Z";
  updated_at = "2026-08-12T00:00:00.000Z";
}

abbrev pub users : UserServiceRpcClient (List String)
users = record {
  sign_up = λ input request_id log. (ok response, "signup" ∷ log);
  login = λ input request_id log.
      (ok (record { id = "u1"; email = input.email; name = none }), "login" ∷ log);
  health = λ options log. (ok tt, log);
  get_user = λ id request_id log. (ok response, id ∷ log);
  update_user = λ id input request_id log. (ok response, id ∷ log);
}

abbrev pub verify : String → Result Fault AccessTokenClaims
verify token =
    if str_eq token "t1"
    then ok (record { sub = "u1"; email = "ada@example.com" })
    else err (error "jwt malformed")

abbrev parse_params : String → Result String String
parse_params id = ok id

abbrev parse_body : UpdateUserDto → Result String UpdateUserDto
parse_body body = ok body

abbrev rename : UpdateUserDto
rename = record { email = none; password = none; name = some "Ada L." }

abbrev get : Option String → String → Result AppError UserResponseDto × List String
get authorization id = get_route users verify parse_params parse_body authorization id none []

-- One's own account is read; another's, or any without a token, is not.
get_route_run :
    (get (some "Bearer t1") "u1" ≡ (ok response, "u1" ∷ []))
    × (get (some "Bearer t1") "u2"
        ≡ (err (app_error "You cannot access another user" 403 nothing), []))
    × (get (some "Basic t1") "u1" ≡ (err (app_error "A bearer token is required" 401 nothing), []))
unfolding get_route read_bearer_token to_app_error
get_route_run = (refl, refl, refl)

get_route-IsReached_example :
    IsReached users verify parse_params parse_body
      (some "Bearer t1")
      "u1"
      none
      (λ id. users.get_user id none)
      []
      response
      ("u1" ∷ [])
unfolding get_route read_bearer_token to_app_error
get_route-IsReached_example =
    of_ok (get_route-IsReached users verify parse_params parse_body (some "Bearer t1") "u1" none [])

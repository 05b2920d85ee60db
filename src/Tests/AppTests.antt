-- ===== src/Tests/AppTests.antt =====
-- The application of the gateway on requests, with a client that lists its calls.
use trams_assignment.Base.{
  ℕ, ◌≡◌, refl, ap, is_null, arith, true, Option, none, some, List, [], ◌∷◌, String, str_eq,
  if◌then◌else◌, Result, ok, err, M, ret, trim,
}
use trams_assignment.Database.{Fault, error}
use trams_assignment.Rpc.{AppError, app, app_error, other, nothing}
use trams_assignment.Gateway.{read_bearer_token, require_auth, get_route}
use trams_assignment.Gateway.Tokens.{JwtUser}
use trams_assignment.Gateway.Accounts.{LoginResponseDto, error_handler}
use trams_assignment.Gateway.App.{
  Method, http_get, http_put, http_post, http_options, http_other, Request, Response,
  library_response, Cors, json, error_response, is_request_id, gen_req_id, handle,
}
use trams_assignment.Gateway.Serving.{IsHandled, handle-IsHandled}
use trams_assignment.Tests.GatewayTests.{users, verify, response}

abbrev uuid : String
uuid = "5a0c8f2e-7c1d-4d39-9d33-0d6a3e1b9c11"

-- A new UUID has the form of an id.
uuid_fits : is_request_id uuid ≡ true
unfolding is_request_id
uuid_fits = refl

-- The white space round an id is dropped; a value with a line end inside is replaced.
gen_req_id_run :
    (gen_req_id (some " req-1 ") uuid ≡ "req-1") × (gen_req_id (some "req 1") uuid ≡ uuid)
unfolding gen_req_id is_request_id trim
gen_req_id_run = (refl, refl)

abbrev sign : List String → JwtUser → Result Fault String
sign log user = ok "t1"

abbrev check : LoginResponseDto → Result Fault LoginResponseDto
check r = ok r

abbrev no_limit : M (List String) AppError (Unit {0})
no_limit = ret tt

-- A body is a text, and the empty one is no JSON.
abbrev parse_json : String → Result Fault String
parse_json raw = if str_eq raw "" then err (error "Unexpected end of JSON input") else ok raw

abbrev parse_id : String → Result String String
parse_id id = ok id

abbrev refuse : {A : Type 0} → String → Result String A
refuse body = err "Required"

abbrev preflight : Option (List String) → Method → Option ℕ
preflight (some origins) http_options = some 204
preflight origin method = none

preflight-only :
    (origin : Option (List String)) (method : Method) (status : ℕ)
    → preflight origin method ≡ some status
    → (method ≡ http_options) × (status ≡ 204)
preflight-only none method status h = absurd (ground (arith, ap is_null h))
preflight-only (some origins) http_get status h = absurd (ground (arith, ap is_null h))
preflight-only (some origins) http_put status h = absurd (ground (arith, ap is_null h))
preflight-only (some origins) http_post status h = absurd (ground (arith, ap is_null h))
preflight-only (some origins) http_options status h = (refl, cc)
preflight-only (some origins) http_other status h = absurd (ground (arith, ap is_null h))

abbrev cors : Cors String
cors = record {
  answers = λ origin r. preflight origin r.method;
  preflight_law = λ origin r status h. preflight-only origin r.method status h;
  disabled_law = λ r. refl;
}

abbrev run_with : List String → Request String → Response × List String
run_with origins r =
    handle users verify sign check "15m" no_limit str_eq parse_json parse_id refuse refuse refuse
      cors origins r uuid []

abbrev run : Request String → Response × List String
run r = run_with ("https://a.example" ∷ []) r

abbrev request : Method → List String → Option String → String → Request String
request method path authorization body = record {
  method = method;
  path = path;
  authorization = authorization;
  incoming_id = none;
  body = body;
}

-- An account is read with a token; any other path is not found; and a body that is no JSON is
-- answered as if the gateway had failed.
handle_run :
    (run (request http_get ("api" ∷ "users" ∷ "u1" ∷ []) (some "Bearer t1") "{}")
      ≡ (json response, "u1" ∷ []))
    × (run (request http_get ("api" ∷ "admin" ∷ []) none "{}")
        ≡ (error_response (error_handler (app (app_error "Route not found" 404 nothing))), []))
    × (run (request http_other ("api" ∷ "users" ∷ []) none "{}") ≡ (
      error_response (error_handler (app (app_error "A bearer token is required" 401 nothing))),
      [],
    ))
    × (run (request http_post ("api" ∷ "auth" ∷ "login" ∷ []) none "")
        ≡ (error_response (error_handler (other (error "Unexpected end of JSON input"))), []))
unfolding handle get_route read_bearer_token
handle_run = (refl, refl, refl, refl)

-- OPTIONS is answered by the CORS library where origins are allowed, and else by Express on the path
-- of a route.
options_run :
    (run (request http_options ("api" ∷ "admin" ∷ []) none "") ≡ (library_response 204, []))
    × (run_with [] (request http_options ("api" ∷ "auth" ∷ "login" ∷ []) none "{}")
        ≡ (library_response 200, []))
    × (run_with [] (request http_options ("api" ∷ "users" ∷ "u1" ∷ []) none "{}") ≡ (
      error_response (error_handler (app (app_error "A bearer token is required" 401 nothing))),
      [],
    ))
unfolding handle read_bearer_token require_auth
options_run = (refl, refl, refl)

handle-IsHandled_example :
    IsHandled users verify sign check "15m" no_limit str_eq parse_json parse_id refuse refuse refuse
      ("https://a.example" ∷ [])
      (request http_get ("api" ∷ "users" ∷ "u1" ∷ []) (some "Bearer t1") "{}")
      []
      (run (request http_get ("api" ∷ "users" ∷ "u1" ∷ []) (some "Bearer t1") "{}"))
handle-IsHandled_example =
    handle-IsHandled users verify sign check "15m" no_limit str_eq parse_json parse_id refuse refuse
      refuse cors ("https://a.example" ∷ [])
      (request http_get ("api" ∷ "users" ∷ "u1" ∷ []) (some "Bearer t1") "{}") uuid []

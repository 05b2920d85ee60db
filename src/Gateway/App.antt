-- ===== src/Gateway/App.antt =====
-- apps/api-gateway/src/app.ts with routes/index.ts, routes/user.routes.ts and routes/auth.routes.ts: the
-- id of a request, and the way of a request through the application. What a schema of a route makes of
-- a body, the CORS and the JSON middleware and the test by which Express compares a segment of the path
-- with one of a route are parameters; a HEAD request goes the way of GET. A router of Express answers
-- OPTIONS by itself where one of its routes has the path.
use Prim.Native.Char.{code}
use trams_assignment.Base.{
  ℕ, ◌≡◌, Bool, true, ◌||◌, ◌&&◌, Option, none, some, List, [], ◌∷◌, String, count_text, trim, leb,
  ◌==◌, if◌then◌else◌, M, Result, ok, err, throw, ◌>>=◌,
}
use trams_assignment.Database.{Fault}
use trams_assignment.Rpc.{AppError, app, app_error, other, nothing}
use trams_assignment.Users.{UserResponseDto, UpdateUserDto, CreateUserDto, LoginDto}
use trams_assignment.Gateway.{
  AccessTokenClaims, UserServiceRpcClient, require_auth, get_route, put_route,
}
use trams_assignment.Gateway.Tokens.{JwtUser}
use trams_assignment.Gateway.Accounts.{
  Answer, LoginResponseDto, ErrorBody, error_handler, Probe, liveness, readiness, sign_up_route,
  login_route,
}

-- The class `[A-Za-z0-9._:-]`, by the code of a character.
abbrev pub is_id_code : ℕ → Bool
is_id_code c =
    (leb b'A' c && leb c b'Z')
    || (leb b'a' c && leb c b'z')
    || (leb b'0' c && leb c b'9')
    || (c == b'.')
    || (c == b'_')
    || (c == b':')
    || (c == b'-')

abbrev pub all_id_codes : String → Bool
all_id_codes String.[] = true
all_id_codes (String.◌∷◌ c s) = is_id_code (code c) && all_id_codes s

-- The test of the regular expression.
unfoldable pub is_request_id : String → Bool
is_request_id s = leb 1 (count_text s) && (leb (count_text s) 128 && all_id_codes s)

-- `genReqId`, with the header `x-request-id` and a new UUID.
unfoldable pub gen_req_id : Option String → String → String
gen_req_id none uuid = uuid
gen_req_id (some incoming) uuid = if is_request_id (trim incoming) then trim incoming else uuid

pub data Method : Type 0 where
  http_get : Method
  http_put : Method
  http_post : Method
  http_options : Method
  http_other : Method

pub record Request (Raw : Type 0) : Type 0 where
  pub method : Method
  pub path : List String
  pub authorization : Option String
  pub incoming_id : Option String
  pub body : Raw

pub data Response : Type 0 where
  user_response : Answer UserResponseDto → Response
  login_response : Answer LoginResponseDto → Response
  probe_response : Answer Probe → Response
  error_response : Answer ErrorBody → Response
  library_response : (status : ℕ) → Response

abbrev pub status_of : Response → ℕ
status_of (user_response a) = a.status
status_of (login_response a) = a.status
status_of (probe_response a) = a.status
status_of (error_response a) = a.status
status_of (library_response status) = status

-- The CORS library. It is given the allowed origins, or none for `false`, and answers some requests
-- itself, with a status: only preflight requests, with 204, and none at all for `false`.
pub record Cors (Raw : Type 0) : Type 0 where
  pub answers : Option (List String) → Request Raw → Option ℕ
  pub preflight_law :
      (origin : Option (List String)) (r : Request Raw) (status : ℕ)
      → answers origin r ≡ some status
      → (r.method ≡ http_options) × (status ≡ 204)
  pub disabled_law : (r : Request Raw) → answers none r ≡ none

-- `corsOrigins.length > 0 ? corsOrigins : false`
abbrev pub cors_origin : List String → Option (List String)
cors_origin [] = none
cors_origin (origin ∷ origins) = some (origin ∷ origins)

-- The answer of Express to OPTIONS on a route.
abbrev pub allowed : {A : Type 0} → A → Response
allowed a = library_response 200

abbrev pub json : UserResponseDto → Response
json user = user_response (record { status = 200; body = user })

module _ {World : Type 0} where
  -- The handlers of a route, with the error handler behind them.
  abbrev pub answered : {A : Type 0} → (A → Response) → Result AppError A × World → Response × World
  answered f (ok a, w) = (f a, w)
  answered f (err e, w) = (error_response (error_handler (app e)), w)

  abbrev pub route_not_found : {A : Type 0} → M World AppError A
  route_not_found = throw (app_error "Route not found" 404 nothing)

  abbrev pub not_found : World → Response × World
  not_found w = answered json (route_not_found w)

  abbrev pub probed : Result ⊥ (Answer Probe) × World → Response × World
  probed (ok a, w) = (probe_response a, w)
  probed (err e, w) = absurd e

  -- A request behind `/users` that no route of it takes.
  abbrev pub no_user_route :
      (String → Result Fault AccessTokenClaims) → Option String → World → Response × World
  no_user_route verify authorization w =
      answered json ((require_auth verify authorization >>= λ _. route_not_found) w)

module _ {World Raw Body : Type 0} (users : UserServiceRpcClient World)
    (verify : String → Result Fault AccessTokenClaims)
    (sign : World → JwtUser → Result Fault String)
    (check : LoginResponseDto → Result Fault LoginResponseDto) (token_expires_in : String)
    (rate_limit : M World AppError (Unit {0})) (same : String → String → Bool)
    (parse_json : Raw → Result Fault Body) (parse_id : String → Result String String)
    (parse_update : Body → Result String UpdateUserDto)
    (parse_sign_up : Body → Result String CreateUserDto)
    (parse_login : Body → Result String LoginDto) where
  -- `createUserRouter`, behind `/users`
  unfoldable pub user_router :
      Method → List String → Option String → Body → String → World → Response × World
  user_router http_get (id ∷ []) authorization body request_id w =
      answered json
        (get_route users verify parse_id parse_update authorization id (some request_id) w)
  user_router http_put (id ∷ []) authorization body request_id w =
      answered json
        (put_route users verify parse_id parse_update authorization id body (some request_id) w)
  user_router http_options (id ∷ []) authorization body request_id w =
      answered allowed (require_auth verify authorization w)
  user_router method path authorization body request_id w = no_user_route verify authorization w

  -- `createAuthRouter`, behind `/auth`
  unfoldable pub auth_router : Method → List String → Body → String → World → Response × World
  auth_router http_post (name ∷ []) body request_id w =
      if same name "signup"
      then answered user_response (
          sign_up_route users sign check token_expires_in rate_limit parse_sign_up body
            (some request_id) w)
      else if same name "login"
      then answered login_response (
          login_route users sign check token_expires_in rate_limit parse_login body
            (some request_id) w)
      else not_found w
  auth_router http_options (name ∷ []) body request_id w =
      if same name "signup"
      then (allowed tt, w)
      else if same name "login"
      then (allowed tt, w)
      else not_found w
  auth_router method path body request_id w = not_found w

  unfoldable pub health_router : Method → List String → String → World → Response × World
  health_router http_get [] request_id w = probed (readiness users (some request_id) w)
  health_router http_get (name ∷ []) request_id w =
      if same name "live"
      then (probe_response (liveness users), w)
      else if same name "ready"
      then probed (readiness users (some request_id) w)
      else not_found w
  health_router http_options [] request_id w = (allowed tt, w)
  health_router http_options (name ∷ []) request_id w =
      if same name "live"
      then (allowed tt, w)
      else if same name "ready"
      then (allowed tt, w)
      else not_found w
  health_router method path request_id w = not_found w

  -- `createRoutes`, behind `/api`
  unfoldable pub api_routes :
      Method → List String → Option String → Body → String → World → Response × World
  unfolding user_router auth_router health_router
  api_routes method [] authorization body request_id w = not_found w
  api_routes method (name ∷ path) authorization body request_id w =
      if same name "health"
      then health_router method path request_id w
      else if same name "auth"
      then auth_router method path body request_id w
      else if same name "users"
      then user_router method path authorization body request_id w
      else not_found w

  abbrev pub routed :
      Method → List String → Option String → Body → String → World → Response × World
  routed method [] authorization body request_id w = not_found w
  routed method (name ∷ path) authorization body request_id w =
      if same name "api"
      then api_routes method path authorization body request_id w
      else not_found w

  abbrev pub with_body : Request Raw → String → Result Fault Body → World → Response × World
  with_body r request_id (ok body) w = routed r.method r.path r.authorization body request_id w
  with_body r request_id (err e) w = (error_response (error_handler (other e)), w)

  -- What is behind the CORS middleware, unless that answers itself.
  abbrev pub with_cors : Request Raw → String → Option ℕ → World → Response × World
  with_cors r request_id (some status) w = (library_response status, w)
  with_cors r request_id none w = with_body r request_id (parse_json r.body) w

  -- What `createApp` does with a request, given the allowed origins and a new UUID.
  unfoldable pub handle : Cors Raw → List String → Request Raw → String → World → Response × World
  unfolding api_routes gen_req_id
  handle cors origins r uuid w =
      with_cors r (gen_req_id r.incoming_id uuid) (cors.answers (cors_origin origins) r) w

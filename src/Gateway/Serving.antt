-- ===== src/Gateway/Serving.antt =====
-- Which requests the application of the gateway serves: apps/api-gateway/src/app.ts and its routes.
use trams_assignment.Base.{
  ℕ, ◌≡◌, refl, ap, sym, ◌∙◌, inl, inr, Bool, true, Bool-cases, Option, none, some, is_null, arith,
  List, [], ◌∷◌, String, M, Result, ok, err,
}
use trams_assignment.Database.{Fault}
use trams_assignment.Rpc.{AppError}
use trams_assignment.Users.{UpdateUserDto, CreateUserDto, LoginDto}
use trams_assignment.Gateway.{AccessTokenClaims, UserServiceRpcClient}
use trams_assignment.Gateway.Tokens.{JwtUser}
use trams_assignment.Gateway.Accounts.{LoginResponseDto}
use trams_assignment.Gateway.App.{
  Method, http_options, Request, Cors, cors_origin, with_cors, Response, status_of, api_routes,
  routed, with_body, gen_req_id, handle,
}
use trams_assignment.Gateway.Routing.{IsAnswered, unrouted}
use trams_assignment.Gateway.Routers.{
  user_router-IsAnswered, auth_router-IsAnswered, health_router-IsAnswered,
}

module _ {World Raw Body : Type 0} (users : UserServiceRpcClient World)
    (verify : String → Result Fault AccessTokenClaims)
    (sign : World → JwtUser → Result Fault String)
    (check : LoginResponseDto → Result Fault LoginResponseDto) (token_expires_in : String)
    (rate_limit : M World AppError (Unit {0})) (same : String → String → Bool)
    (parse_json : Raw → Result Fault Body) (parse_id : String → Result String String)
    (parse_update : Body → Result String UpdateUserDto)
    (parse_sign_up : Body → Result String CreateUserDto)
    (parse_login : Body → Result String LoginDto) where
  api_routes-IsAnswered :
      {api : String} (below : same api "api" ≡ true) (method : Method) (path : List String)
      (authorization : Option String) (body : Body) (request_id : String) (w : World)
      → IsAnswered verify same w method (api ∷ path) authorization (
          api_routes users verify sign check token_expires_in rate_limit same parse_json parse_id
            parse_update parse_sign_up parse_login method path authorization body request_id w)
  unfolding api_routes
  api_routes-IsAnswered below method [] authorization body request_id w = unrouted refl refl
  api_routes-IsAnswered below method (name ∷ path) authorization body request_id w =
      elim (Bool-cases (same name "health")) [
        | inl at_health ↦ rw at_health (
            health_router-IsAnswered users verify sign check token_expires_in rate_limit same
              parse_json parse_id parse_update parse_sign_up parse_login below request_id w method
              path authorization at_health)
        | inr no_health ↦ elim (Bool-cases (same name "auth")) [
          | inl at_auth ↦
              rw (no_health, at_auth)
                (auth_router-IsAnswered users verify sign check token_expires_in rate_limit same
                  parse_json parse_id parse_update parse_sign_up parse_login below request_id w
                  method path authorization body at_auth)
          | inr no_auth ↦ elim (Bool-cases (same name "users")) [
            | inl at_users ↦
                rw (no_health, no_auth, at_users)
                  (user_router-IsAnswered users verify sign check token_expires_in rate_limit same
                    parse_json parse_id parse_update parse_sign_up parse_login below request_id w
                    method path authorization body at_users)
            | inr no_users ↦ rw (no_health, no_auth, no_users) (unrouted refl refl)
          ]
        ]
      ]

  routed-IsAnswered :
      (method : Method) (path : List String) (authorization : Option String) (body : Body)
      (request_id : String) (w : World)
      → IsAnswered verify same w method path authorization (
          routed users verify sign check token_expires_in rate_limit same parse_json parse_id
            parse_update parse_sign_up parse_login method path authorization body request_id w)
  routed-IsAnswered method [] authorization body request_id w = unrouted refl refl
  routed-IsAnswered method (api ∷ path) authorization body request_id w =
      elim (Bool-cases (same api "api")) [
        | inl below ↦
            rw below (api_routes-IsAnswered below method path authorization body request_id w)
        | inr other ↦ rw other (unrouted refl refl)
      ]

  -- What becomes of a request, with the allowed origins.
  pub data IsHandled (origins : List String) (r : Request Raw) (w : World) (x : Response × World)
      : Type 0 where
    preflight :
        (origin : String) (more : List String)
        → origins ≡ origin ∷ more
        → r.method ≡ http_options
        → status_of x.0 ≡ 204
        → x.1 ≡ w
        → IsHandled origins r w x
    unreadable :
        (e : Fault)
        → parse_json r.body ≡ err e
        → status_of x.0 ≡ 500
        → x.1 ≡ w
        → IsHandled origins r w x
    readable :
        (body : Body)
        → parse_json r.body ≡ ok body
        → IsAnswered verify same w r.method r.path r.authorization x
        → IsHandled origins r w x

  with_body-IsHandled :
      (origins : List String) (r : Request Raw) (request_id : String) (w : World)
      (read : Result Fault Body)
      → parse_json r.body ≡ read
      → IsHandled origins r w (
          with_body users verify sign check token_expires_in rate_limit same parse_json parse_id
            parse_update parse_sign_up parse_login r request_id read w)
  with_body-IsHandled origins r request_id w (err e) h = unreadable e h refl refl
  with_body-IsHandled origins r request_id w (ok body) h =
      readable body h (routed-IsAnswered r.method r.path r.authorization body request_id w)

  with_cors-IsHandled :
      (cors : Cors Raw) (origins : List String) (r : Request Raw) (request_id : String) (w : World)
      (o : Option ℕ)
      → cors.answers (cors_origin origins) r ≡ o
      → IsHandled origins r w (
          with_cors users verify sign check token_expires_in rate_limit same parse_json parse_id
            parse_update parse_sign_up parse_login r request_id o w)
  with_cors-IsHandled cors origins r request_id w none h =
      with_body-IsHandled origins r request_id w (parse_json r.body) refl
  with_cors-IsHandled cors [] r request_id w (some status) h =
      absurd (ground (arith, ap is_null (sym (cors.disabled_law r) ∙ h)))
  with_cors-IsHandled cors (origin ∷ more) r request_id w (some status) h =
      let (options, success) = cors.preflight_law (some (origin ∷ more)) r status h in
      preflight origin more refl options success refl

  -- The application answers every request. Where origins are allowed, the CORS library answers some
  -- OPTIONS requests, with 204. Of the others, a request changes something outside the gateway, or has
  -- an answer other than an error 401, 404 or 500 of the gateway itself, only if it is one of the
  -- routes, GET of the three probes, POST of a sign-up or log-in, and GET or PUT of an account, these
  -- two only with a token that the token service has verified; or OPTIONS of the path of such a route,
  -- with such a token where it is an account's, which Express answers with 200. Any other request is
  -- answered by 404, or below `/api/users` by 401 or 404. Where the JSON middleware refuses the body,
  -- the answer is 500 on every route. No answer but that of a route changes anything.
  pub handle-IsHandled :
      (cors : Cors Raw) (origins : List String) (r : Request Raw) (uuid : String) (w : World)
      → IsHandled origins r w (
          handle users verify sign check token_expires_in rate_limit same parse_json parse_id
            parse_update parse_sign_up parse_login cors origins r uuid w)
  unfolding handle
  handle-IsHandled cors origins r uuid w =
      with_cors-IsHandled cors origins r (gen_req_id r.incoming_id uuid) w
        (cors.answers (cors_origin origins) r) refl

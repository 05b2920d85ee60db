-- ===== src/Gateway/Access.antt =====
-- Who may reach an account through the gateway.
use trams_assignment.Base.{
  ◌≡◌, refl, ◌⊎◌, inl, inr, Bool-cases, Option, none, some, String, str_eq, eq_iff, M, Result, ok,
  err, Ensures, returns, throws, and_then-Ensures, or_else-Ensures, Ensures-weaken, Ensures-result,
  ◌>>◌,
}
use trams_assignment.Database.{Fault}
use trams_assignment.Rpc.{AppError, Thrown, to_app_error}
use trams_assignment.Users.{UserResponseDto, UpdateUserDto}
use trams_assignment.Gateway.{
  AccessTokenClaims, read_bearer_token, verified, require_token, require_auth, require_self,
  validate_params, validate_body, UserServiceRpcClient, get_route, put_route, caught,
}

module _ {World Params Body : Type 0} (users : UserServiceRpcClient World)
    (verify : String → Result Fault AccessTokenClaims)
    (parse_params : Params → Result String String) (parse_body : Body → Result String UpdateUserDto)
    (authorization : Option String) (params : Params) (request_id : Option String) where
  -- The request carries a bearer token that the token service has verified.
  pub record IsAuthenticated (auth : AccessTokenClaims) : Type 0 where
    pub token : String
    pub sent : read_bearer_token authorization ≡ some token
    pub valid : verify token ≡ ok auth

  -- The token was issued for the account that the route names.
  pub record IsAllowed (id : String) : Type 0 where
    pub auth : AccessTokenClaims
    pub authenticated : IsAuthenticated auth
    pub named : parse_params params ≡ ok id
    pub own : auth.sub ≡ id

  verified-Ensures :
      (token : String) (r : Result Fault AccessTokenClaims) (w : World)
      → read_bearer_token authorization ≡ some token
      → verify token ≡ r
      → Ensures (λ auth w'. IsAuthenticated auth × (w' ≡ w)) (λ e w'. w' ≡ w) (verified verify r w)
  verified-Ensures token (ok claims) w at valid =
      returns (record { token = token; sent = at; valid = valid }, refl)
  verified-Ensures token (err e) w at valid = throws refl

  require_token-Ensures :
      (token : Option String) (w : World)
      → read_bearer_token authorization ≡ token
      → Ensures
          (λ auth w'. IsAuthenticated auth × (w' ≡ w))
          (λ e w'. w' ≡ w)
          (require_token verify token w)
  require_token-Ensures none w at = throws refl
  require_token-Ensures (some token) w at = verified-Ensures token (verify token) w at refl

  require_auth-Ensures :
      (w : World)
      → Ensures
          (λ auth w'. IsAuthenticated auth × (w' ≡ w))
          (λ e w'. w' ≡ w)
          (require_auth verify authorization w)
  unfolding require_auth
  require_auth-Ensures w = require_token-Ensures (read_bearer_token authorization) w refl

  validate_params-Ensures :
      (r : Result String String) (w : World)
      → parse_params params ≡ r
      → Ensures
          (λ id w'. (parse_params params ≡ ok id) × (w' ≡ w))
          (λ e w'. w' ≡ w)
          (validate_params r w)
  validate_params-Ensures (ok id) w at = returns (at, refl)
  validate_params-Ensures (err issues) w at = throws refl

  validate_body-Ensures :
      {body : Body} (r : Result String UpdateUserDto) (w : World)
      → parse_body body ≡ r
      → Ensures
          (λ input w'. (parse_body body ≡ ok input) × (w' ≡ w))
          (λ e w'. w' ≡ w)
          (validate_body r w)
  validate_body-Ensures (ok input) w at = returns (at, refl)
  validate_body-Ensures (err issues) w at = throws refl

  -- The call of the client was made from `w`, for an account that the token allows.
  abbrev pub IsReached :
      (String → M World Thrown UserResponseDto) → World → UserResponseDto → World → Type 0
  IsReached rpc_call w response w' =
      (id : String) × IsAllowed id × (rpc_call id w ≡ (ok response, w'))

  -- The client was left alone; or it was called for an account that the token allows, and has
  -- thrown what is passed on.
  abbrev pub IsStopped :
      (String → M World Thrown UserResponseDto) → World → AppError → World → Type 0
  IsStopped rpc_call w e w' =
      (w' ≡ w)
      ⊎ ((id : String) × IsAllowed id
          × ((x : Thrown) × (rpc_call id w ≡ (err x, w')) × (e ≡ to_app_error x)))

  -- The part of a controller that both methods share.
  controlled-Ensures :
      (rpc_call : String → M World Thrown UserResponseDto) (auth : AccessTokenClaims) (id : String)
      (w : World)
      → IsAuthenticated auth
      → parse_params params ≡ ok id
      → Ensures
          (λ r w'. IsReached rpc_call w r w')
          (λ e w'. IsStopped rpc_call w e w')
          (caught users (require_self auth id >> rpc_call id) w)
  controlled-Ensures rpc_call auth id w h named = elim (Bool-cases (str_eq auth.sub id)) [
    | inl own ↦
        let allowed : IsAllowed id = record {
          auth = auth;
          authenticated = h;
          named = named;
          own = (eq_iff auth.sub id).0 own;
        } in
        rw own (
          or_else-Ensures _ (Ensures-result (rpc_call id w)) (λ r w' ran. (id, allowed, ran))
            (λ x w' ran. throws (inr (id, allowed, (x, ran, refl)))))
    | inr foreign ↦ rw foreign (throws (inl refl))
  ]

  -- GET /users/:id. The account is read only if the request has a valid bearer token whose subject
  -- is the id in the route, and then the answer, or the error turned into its HTTP form, is the one
  -- of the user service. In every other case the user service is not called.
  pub get_route-IsReached :
      (w : World)
      → Ensures
          (λ r w'. IsReached (λ id. users.get_user id request_id) w r w')
          (λ e w'. IsStopped (λ id. users.get_user id request_id) w e w')
          (get_route users verify parse_params parse_body authorization params request_id w)
  unfolding get_route
  get_route-IsReached w =
      and_then-Ensures _ (require_auth-Ensures w)
        (λ auth w₁ (h, same). rw same (
          and_then-Ensures _ (validate_params-Ensures (parse_params params) w refl)
            (λ id w₂ (named, same₂).
              rw same₂ (controlled-Ensures (λ id. users.get_user id request_id) auth id w h named))
            (λ e w₂ same₂. inl same₂)))
        (λ e w₁ same. inl same)

  -- PUT /users/:id. The account is updated only if the request has a valid bearer token whose
  -- subject is the id in the route, and a body that its schema accepts; then the user service is
  -- called with that body. In every other case it is not called.
  pub put_route-IsReached :
      (body : Body) (w : World)
      → Ensures
          (λ r w'.
            (input : UpdateUserDto) × (parse_body body ≡ ok input)
            × IsReached (λ id. users.update_user id input request_id) w r w')
          (λ e w'.
            (w' ≡ w)
            ⊎ ((input : UpdateUserDto) × (parse_body body ≡ ok input)
                × IsStopped (λ id. users.update_user id input request_id) w e w'))
          (put_route users verify parse_params parse_body authorization params body request_id w)
  unfolding put_route
  put_route-IsReached body w =
      and_then-Ensures _ (require_auth-Ensures w)
        (λ auth w₁ (h, same). rw same (
          and_then-Ensures _ (validate_params-Ensures (parse_params params) w refl)
            (λ id w₂ (named, same₂). rw same₂ (
              and_then-Ensures _ (validate_body-Ensures (parse_body body) w refl)
                (λ input w₃ (parsed, same₃). rw same₃ (
                  Ensures-weaken (λ r w' p. (input, parsed, p)) (λ e w' q. inr (input, parsed, q))
                    (controlled-Ensures (λ id. users.update_user id input request_id) auth id w h
                      named)))
                (λ e w₃ same₃. inl same₃)))
            (λ e w₂ same₂. inl same₂)))
        (λ e w₁ same. inl same)

-- ===== src/Gateway/Issuing.antt =====
-- The tokens that a log-in at the gateway issues, and what they open.
use trams_assignment.Base.{
  ℕ, ◌<◌, ◌≡◌, refl, sym, ap, ◌∙◌, Option, some, String, eq_refl, M, Result, ok, err, Ensures,
  returns, throws, inl, inr, and_then-Ensures, or_else-Ensures, Ensures-result, Result-cases,
}
use trams_assignment.Database.{Fault}
use trams_assignment.Rpc.{AppError}
use trams_assignment.Users.{UpdateUserDto, LoginDto, AuthenticatedUser}
use trams_assignment.Gateway.{
  UserServiceRpcClient, read_bearer_token, require_auth, get_user, get_route, caught,
}
use trams_assignment.Gateway.Tokens.{Jwt, JwtServiceConfig, JwtUser, sign, verify, verify-sign}
use trams_assignment.Gateway.Accounts.{
  Answer, LoginResponseDto, login_response, called, login_controller, login_route,
}

module _ {World Body : Type 0} (users : UserServiceRpcClient World) (jwt : Jwt)
    (config : JwtServiceConfig) (clock : World → ℕ)
    (check : LoginResponseDto → Result Fault LoginResponseDto)
    (rate_limit : M World AppError (Unit {0})) (parse_body : Body → Result String LoginDto)
    (body : Body) (request_id : Option String) where
  abbrev sign_now : World → JwtUser → Result Fault String
  sign_now w user = sign jwt config (clock w) user

  -- The user service has accepted the credentials of the request, and the token was signed for the
  -- user that it has returned, at the time `now`.
  pub record IsIssued (a : Answer LoginResponseDto) : Type 0 where
    pub input : LoginDto
    pub before : World
    pub after : World
    pub user : AuthenticatedUser
    pub token : String
    pub valid : parse_body body ≡ ok input
    pub accepted : users.login input request_id before ≡ (ok user, after)
    pub signs :
        sign jwt config (clock after) (record { id = user.id; email = user.email }) ≡ ok token
    pub checks :
        check (login_response users sign_now check config.expires_in token user) ≡ ok a.body
    pub status : a.status ≡ 200

  called-Ensures :
      {A : Type 0} (r : Result Fault A) (w : World)
      → Ensures
          (λ a w'. (r ≡ ok a) × (w' ≡ w))
          (λ e w'. Unit {0})
          (called users sign_now check config.expires_in r w)
  called-Ensures (ok a) w = returns (refl, refl)
  called-Ensures (err e) w = throws tt

  login_controller-IsIssued :
      (input : LoginDto) (w : World)
      → parse_body body ≡ ok input
      → Ensures
          (λ a w'. IsIssued a)
          (λ e w'. Unit {0})
          (login_controller users sign_now check config.expires_in input request_id w)
  unfolding login_controller
  login_controller-IsIssued input w valid =
      or_else-Ensures {P = λ a w'. IsIssued a} {Q = λ e w'. Unit {0}} _
        (and_then-Ensures _ (Ensures-result (users.login input request_id w))
          (λ user w₁ accepted.
            and_then-Ensures _
              (called-Ensures (sign_now w₁ (record { id = user.id; email = user.email })) w₁)
              (λ token w₂ (signs, _).
                and_then-Ensures _
                  (called-Ensures
                    (check (login_response users sign_now check config.expires_in token user)) w₂)
                  (λ response w₃ (checks, _). returns (record {
                    input = input;
                    before = w;
                    after = w₁;
                    user = user;
                    token = token;
                    valid = valid;
                    accepted = accepted;
                    signs = signs;
                    checks = checks;
                    status = refl;
                  }))
                  (λ e w₃ _. tt))
              (λ e w₂ _. tt))
          (λ e w₁ _. tt))
        (λ a w' issued. issued) (λ e w' _. throws tt)

  -- POST /auth/login answers with a token only if the body is valid, the user service has accepted
  -- its credentials for this request, and the token was signed, at that time, for the user that the
  -- service has returned; the response has passed its schema.
  pub login_route-IsIssued :
      (w : World)
      → Ensures
          (λ a w'. IsIssued a)
          (λ e w'. Unit {0})
          (login_route users sign_now check config.expires_in rate_limit parse_body body request_id
            w)
  unfolding login_route
  login_route-IsIssued w =
      and_then-Ensures _ (Ensures-result (rate_limit w))
        (λ _ w₁ _. elim (Result-cases (parse_body body)) [
          | inl (input, valid) ↦ rw valid (login_controller-IsIssued input w₁ valid)
          | inr (issues, bad) ↦ rw bad (throws tt)
        ])
        (λ e w₁ _. tt)

  -- A token that was issued opens the account of its user: until it expires, GET /users/:id with
  -- this bearer token and the id of the user calls the user service for that id and answers as its
  -- controller. The schema of the response is taken to return what it is given.
  pub get_route-IsIssued :
      {Params UpdateBody : Type 0} (parse_params : Params → Result String String)
      (parse_update : UpdateBody → Result String UpdateUserDto) (a : Answer LoginResponseDto)
      (authorization get_id : Option String) (params : Params) (later : ℕ) (w : World)
      (issued : IsIssued a)
      → ((r s : LoginResponseDto) → check r ≡ ok s → s ≡ r)
      → later < jwt.expiry (clock issued.after) config.expires_in
      → read_bearer_token authorization ≡ some a.body.access_token
      → parse_params params ≡ ok a.body.user.id
      → get_route users
          (verify jwt config later)
          parse_params
          parse_update
          authorization
          params
          get_id
          w
        ≡ caught users (users.get_user a.body.user.id get_id) w
  unfolding get_route require_auth get_user
  get_route-IsIssued parse_params parse_update a authorization get_id params later w issued kept
        fresh sent named =
      let same : a.body
          ≡ login_response users sign_now check config.expires_in issued.token issued.user =
        kept _ a.body issued.checks in
      let known : verify jwt config later a.body.access_token
          ≡ ok (record { sub = a.body.user.id; email = issued.user.email }) =
        ap (λ r. verify jwt config later r.access_token) same
        ∙ verify-sign jwt config (clock issued.after) later
            (record { id = issued.user.id; email = issued.user.email }) issued.token issued.signs
            fresh
        ∙ ap (λ (r : LoginResponseDto). ok (record { sub = r.user.id; email = issued.user.email }))
            (sym same) in
      rw (sent, known, named, eq_refl a.body.user.id) refl

-- ===== src/Gateway/Accounts.antt =====
-- The rest of the routes of apps/api-gateway/src: routes/auth.routes.ts with
-- controllers/auth.controller.ts, the probes of routes/index.ts, and middleware/error-handler.middleware.ts.
use trams_assignment.Base.{
  ℕ, Option, some, String, M, Result, ok, err, ret, throw, ◌>>=◌, ◌>>◌, try_catch, whole,
}
use trams_assignment.Database.{Fault}
use trams_assignment.Rpc.{
  AppError, Thrown, app, rpc, nats_no_responders, nats_timeout, other, Details, nothing,
}
use trams_assignment.Users.{UserResponseDto, CreateUserDto, LoginDto, AuthenticatedUser}
use trams_assignment.Gateway.{UserServiceRpcClient, validate_body, caught}
use trams_assignment.Gateway.Tokens.{JwtUser}

-- A response: its status and its body.
pub record Answer (A : Type 0) : Type 0 where
  pub status : ℕ
  pub body : A

pub record LoginResponseDto : Type 0 where
  pub access_token : String
  pub token_type : String
  pub expires_in : String
  pub user : AuthenticatedUser

pub record ErrorBody : Type 0 where
  pub msg : String
  pub details : Details

abbrev pub internal : Answer ErrorBody
internal = record {
  status = 500;
  body = record { msg = "Internal server error"; details = nothing };
}

abbrev pub error_handler : Thrown → Answer ErrorBody
error_handler (app e) = record {
  status = e.status;
  body = record { msg = e.msg; details = e.details };
}
error_handler (rpc e) = internal
error_handler nats_no_responders = internal
error_handler nats_timeout = internal
error_handler (other e) = internal

pub record Probe : Type 0 where
  pub status : String
  pub check : String

module _ {World : Type 0} (users : UserServiceRpcClient World) where
  abbrev pub liveness : Answer Probe
  liveness = record { status = 200; body = record { status = "ok"; check = "liveness" } }

  -- The handler of GET /health/ready and GET /health
  unfoldable pub readiness : Option String → M World ⊥ (Answer Probe)
  readiness request_id =
      try_catch
        (do
          users.health (record { timeout_ms = some (whole 1000); request_id = request_id })
          ret (record { status = 200; body = record { status = "ok"; check = "readiness" } }))
        (λ e.
          ret (record {
            status = 503;
            body = record { status = "unavailable"; check = "readiness" };
          }))

  -- With the token service: `sign` at the time of the call, and `check` is the schema of the response.
  module _ (sign : World → JwtUser → Result Fault String)
      (check : LoginResponseDto → Result Fault LoginResponseDto) (token_expires_in : String) where
    -- What a call that is not asynchronous returns or throws.
    abbrev pub called : {A : Type 0} → Result Fault A → M World Thrown A
    called (ok a) = ret a
    called (err e) = throw (other e)

    -- controller.signUp
    unfoldable pub sign_up_controller :
        CreateUserDto → Option String → M World AppError (Answer UserResponseDto)
    sign_up_controller body request_id =
        caught users
          (do user ← users.sign_up body request_id; ret (record { status = 201; body = user }))

    abbrev pub login_response : String → AuthenticatedUser → LoginResponseDto
    login_response token user = record {
      access_token = token;
      token_type = "Bearer";
      expires_in = token_expires_in;
      user = user;
    }

    abbrev pub signed : AuthenticatedUser → M World Thrown String
    signed user w = called (sign w (record { id = user.id; email = user.email })) w

    -- controller.login
    unfoldable pub login_controller :
        LoginDto → Option String → M World AppError (Answer LoginResponseDto)
    login_controller body request_id = caught users (do
      user ← users.login body request_id
      token ← signed user
      response ← called (check (login_response token user))
      ret (record { status = 200; body = response }))

    module _ {Body : Type 0} (rate_limit : M World AppError (Unit {0})) where
      -- POST /auth/signup
      unfoldable pub sign_up_route :
          (Body → Result String CreateUserDto)
          → Body
          → Option String
          → M World AppError (Answer UserResponseDto)
      unfolding sign_up_controller
      sign_up_route parse_body body request_id = do
        rate_limit
        input ← validate_body (parse_body body)
        sign_up_controller input request_id

      -- POST /auth/login
      unfoldable pub login_route :
          (Body → Result String LoginDto)
          → Body
          → Option String
          → M World AppError (Answer LoginResponseDto)
      unfolding login_controller
      login_route parse_body body request_id = do
        rate_limit
        input ← validate_body (parse_body body)
        login_controller input request_id

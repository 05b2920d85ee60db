-- ===== src/Gateway.antt =====
-- The user routes of the API gateway, apps/api-gateway/src: middleware/auth.middleware.ts,
-- middleware/validate.middleware.ts, routes/user.routes.ts and controllers/user.controller.ts.
-- A middleware that calls `next(error)` throws, since Express then skips the rest of the chain. The
-- token service, the schemas and the RPC client are parameters.
pub mod Access
pub mod Tokens
pub mod Accounts
pub mod Issuing
pub mod App
pub mod Routing
pub mod Routers
pub mod Serving
pub mod RequestIds
use trams_assignment.Base.{
  Bool, true, false, not, Option, none, some, List, [], ◌∷◌, String, str_eq, if◌then◌else◌, M,
  Result, ok, err, ret, throw, ◌>>=◌, ◌>>◌, try_catch,
}
use trams_assignment.Database.{Fault}
use trams_assignment.Rpc.{AppError, Thrown, app, app_error, nothing, text, to_app_error, RpcOptions}
use trams_assignment.Users.{
  UserResponseDto, UpdateUserDto, CreateUserDto, LoginDto, AuthenticatedUser,
}

pub record AccessTokenClaims : Type 0 where
  pub sub : String
  pub email : String

-- text.split(" ")
abbrev pub add_to_first : String → List String → List String
add_to_first c [] = c ∷ []
add_to_first c (word ∷ words) = Prim.Native.String.◌++◌ c word ∷ words

abbrev pub split_spaces : String → List String
split_spaces String.[] = "" ∷ []
split_spaces (String.◌∷◌ c s) =
    let later = split_spaces s in
    if str_eq (String.◌∷◌ c String.[]) " "
    then "" ∷ later
    else add_to_first (String.◌∷◌ c String.[]) later

-- `const [scheme, token] = …`, and the test of both.
abbrev pub bearer_of : List String → Option String
bearer_of [] = none
bearer_of (scheme ∷ []) = none
bearer_of (scheme ∷ token ∷ rest) =
    if str_eq scheme "Bearer" then (if str_eq token "" then none else some token) else none

unfoldable pub read_bearer_token : Option String → Option String
read_bearer_token none = none
read_bearer_token (some value) = bearer_of (split_spaces value)

module _ {World : Type 0} (verify : String → Result Fault AccessTokenClaims) where
  abbrev pub verified : Result Fault AccessTokenClaims → M World AppError AccessTokenClaims
  verified (ok claims) = ret claims
  verified (err e) = throw (app_error "Bearer token is invalid or expired" 401 nothing)

  abbrev pub require_token : Option String → M World AppError AccessTokenClaims
  require_token none = throw (app_error "A bearer token is required" 401 nothing)
  require_token (some token) = verified (verify token)

  -- With the header `authorization`; the claims become `req.auth`.
  unfoldable pub require_auth : Option String → M World AppError AccessTokenClaims
  unfolding read_bearer_token
  require_auth authorization = require_token (read_bearer_token authorization)

-- `requireSelf(req.auth?.sub, userId)`
abbrev pub require_self : {World : Type 0} → AccessTokenClaims → String → M World Thrown (Unit {0})
require_self auth user_id =
    if str_eq auth.sub user_id
    then ret tt
    else throw (app (app_error "You cannot access another user" 403 nothing))

abbrev pub validate_params : {World A : Type 0} → Result String A → M World AppError A
validate_params (ok value) = ret value
validate_params (err issues) = throw (app_error "Route parameters are invalid" 400 (text issues))

abbrev pub validate_body : {World A : Type 0} → Result String A → M World AppError A
validate_body (ok value) = ret value
validate_body (err issues) = throw (app_error "Request body is invalid" 400 (text issues))

-- What the controller calls, with the id of the request.
pub record UserServiceRpcClient (World : Type 0) : Type 0 where
  pub sign_up : CreateUserDto → Option String → M World Thrown UserResponseDto
  pub login : LoginDto → Option String → M World Thrown AuthenticatedUser
  pub health : RpcOptions → M World Thrown (Unit {0})
  pub get_user : String → Option String → M World Thrown UserResponseDto
  pub update_user : String → UpdateUserDto → Option String → M World Thrown UserResponseDto

module _ {World : Type 0} (users : UserServiceRpcClient World) where
  -- The `catch` of the controller.
  abbrev pub caught : {A : Type 0} → M World Thrown A → M World AppError A
  caught m = try_catch m (λ e. throw (to_app_error e))

  -- controller.getUser
  unfoldable pub get_user :
      AccessTokenClaims → String → Option String → M World AppError UserResponseDto
  get_user auth id request_id = caught (require_self auth id >> users.get_user id request_id)

  -- controller.updateUser
  unfoldable pub update_user :
      AccessTokenClaims → String → UpdateUserDto → Option String → M World AppError UserResponseDto
  update_user auth id body request_id =
      caught (require_self auth id >> users.update_user id body request_id)

  module _ {Params Body : Type 0} (verify : String → Result Fault AccessTokenClaims)
      (parse_params : Params → Result String String)
      (parse_body : Body → Result String UpdateUserDto) where
    -- GET /users/:id
    unfoldable pub get_route :
        Option String → Params → Option String → M World AppError UserResponseDto
    unfolding require_auth get_user
    get_route authorization params request_id = do
      auth ← require_auth verify authorization
      id ← validate_params (parse_params params)
      get_user auth id request_id

    -- PUT /users/:id
    unfoldable pub put_route :
        Option String → Params → Body → Option String → M World AppError UserResponseDto
    unfolding require_auth update_user
    put_route authorization params body request_id = do
      auth ← require_auth verify authorization
      id ← validate_params (parse_params params)
      input ← validate_body (parse_body body)
      update_user auth id input request_id

-- ===== src/Rpc/Routes.antt =====
-- `registerUserRpcRoutes` of apps/user-service/src/handlers/user.handlers.ts: the five
-- subscriptions with their handlers. The schemas are parameters, and so is the reply to a message.
use trams_assignment.Base.{Option, List, [], ◌∷◌, String, str_eq, if◌then◌else◌, M, Result, ok, ret}
use trams_assignment.Contracts.{
  user_rpc_create, user_rpc_get_by_id, user_rpc_update, user_rpc_authenticate, user_rpc_health,
}
use trams_assignment.Users.{
  CreateUserDto, LoginDto, UpdateUserDto, UserResponseDto, AuthenticatedUser, ServiceFault,
}
use trams_assignment.Rpc.{RpcResponse, handle_request}

pub record UpdateUserRequest : Type 0 where
  pub id : String
  pub update : UpdateUserDto

pub record UserRpcOperations (World : Type 0) : Type 0 where
  pub sign_up : CreateUserDto → M World ServiceFault UserResponseDto
  pub login : LoginDto → M World ServiceFault AuthenticatedUser
  pub get_user : String → M World ServiceFault UserResponseDto
  pub update_user : String → UpdateUserDto → M World ServiceFault UserResponseDto
  pub check_health : M World ServiceFault (Unit {0})

-- The schemas of the requests and of the outputs.
pub record Schemas (World Json : Type 0) : Type 0 where
  pub create_user : Option Json → Result String CreateUserDto
  pub login : Option Json → Result String LoginDto
  pub get_user : Option Json → Result String String
  pub update_user : Option Json → Result String UpdateUserRequest
  pub user_response : UserResponseDto → M World ServiceFault UserResponseDto
  pub authenticated_user : AuthenticatedUser → M World ServiceFault AuthenticatedUser

-- What is encoded and sent as a reply.
pub data Reply : Type 0 where
  user_reply : RpcResponse UserResponseDto → Reply
  login_reply : RpcResponse AuthenticatedUser → Reply
  health_reply : RpcResponse (Unit {0}) → Reply

module _ {World Json : Type 0} (schemas : Schemas World Json) (users : UserRpcOperations World)
    (respond : Reply → M World ServiceFault (Unit {0})) where
  abbrev pub Handler : Type 0
  Handler = Option Json → M World ServiceFault (Unit {0})

  -- There is no schema for the request: whatever it holds, the check is run.
  unfoldable pub handle_health : Handler
  unfolding handle_request
  handle_health =
      handle_request (λ _. ok tt) (λ _. users.check_health) ret (λ r. respond (health_reply r))

  unfoldable pub handle_sign_up : Handler
  unfolding handle_request
  handle_sign_up =
      handle_request schemas.create_user users.sign_up schemas.user_response
        (λ r. respond (user_reply r))

  unfoldable pub handle_login : Handler
  unfolding handle_request
  handle_login =
      handle_request schemas.login users.login schemas.authenticated_user
        (λ r. respond (login_reply r))

  unfoldable pub handle_get_user : Handler
  unfolding handle_request
  handle_get_user =
      handle_request schemas.get_user users.get_user schemas.user_response
        (λ r. respond (user_reply r))

  abbrev pub update_of : UpdateUserRequest → M World ServiceFault UserResponseDto
  update_of input = users.update_user input.id input.update

  unfoldable pub handle_update_user : Handler
  unfolding handle_request
  handle_update_user =
      handle_request schemas.update_user update_of schemas.user_response
        (λ r. respond (user_reply r))

  abbrev pub register_user_rpc_routes : List (String × Handler)
  register_user_rpc_routes =
      (user_rpc_health, handle_health)
      ∷ (user_rpc_create, handle_sign_up)
      ∷ (user_rpc_authenticate, handle_login)
      ∷ (user_rpc_get_by_id, handle_get_user)
      ∷ (user_rpc_update, handle_update_user)
      ∷ []

  -- A message on a subject is given to the subscriptions of that subject.
  abbrev pub deliver : List (String × Handler) → String → Handler
  deliver [] subject value = ret tt
  deliver (route ∷ routes) subject value =
      if str_eq route.0 subject then route.1 value else deliver routes subject value

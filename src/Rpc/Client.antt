-- ===== src/Rpc/Client.antt =====
-- The methods of `UserRpcClient`, apps/api-gateway/src/nats/user-rpc.client.ts. The schemas and the
-- encoding of the payloads are parameters.
use trams_assignment.Base.{refl, String, M, Result, ok, err, ◌>>=◌, Ensures, throws, inl}
use trams_assignment.Contracts.{
  user_rpc_create, user_rpc_get_by_id, user_rpc_update, user_rpc_authenticate, user_rpc_health,
}
use trams_assignment.Users.{CreateUserDto, LoginDto, UserResponseDto, AuthenticatedUser}
use trams_assignment.Rpc.{
  RpcResponse, Thrown, RpcOptions, Connection, call, validate_request, to_app_error,
}
use trams_assignment.Rpc.Mapping.{IsCallStatus, call-IsCallStatus}
use trams_assignment.Rpc.Routes.{UpdateUserRequest}

-- The schemas of the requests, with the encoding of what they accept, and those of the responses.
pub record ClientSchemas (Bytes Json : Type 0) : Type 0 where
  pub create_user : CreateUserDto → Result String CreateUserDto
  pub login : LoginDto → Result String LoginDto
  pub get_user : String → Result String String
  pub update_user : UpdateUserRequest → Result String UpdateUserRequest
  pub encode_create : CreateUserDto → Bytes
  pub encode_login : LoginDto → Bytes
  pub encode_get : String → Bytes
  pub encode_update : UpdateUserRequest → Bytes
  pub empty_payload : Bytes
  pub user_response : Json → Result String (RpcResponse UserResponseDto)
  pub authenticated_user : Json → Result String (RpcResponse AuthenticatedUser)
  pub health_response : Json → Result String (RpcResponse String)

module _ {World Bytes Json : Type 0} (connection : Connection World Bytes Json)
    (schemas : ClientSchemas Bytes Json) where
  -- `validateRequest` of an input, then the call with its payload.
  abbrev pub validated_call :
      {Input Output : Type 0}
      → (Json → Result String (RpcResponse Output))
      → String
      → (Input → Bytes)
      → Result String Input
      → RpcOptions
      → M World Thrown Output
  validated_call response subject encode input options =
      validate_request connection response input >>= λ valid.
      call connection response subject (encode valid) options

  unfoldable pub sign_up : CreateUserDto → RpcOptions → M World Thrown UserResponseDto
  sign_up input options =
      validated_call schemas.user_response user_rpc_create schemas.encode_create
        (schemas.create_user input) options

  unfoldable pub login : LoginDto → RpcOptions → M World Thrown AuthenticatedUser
  login input options =
      validated_call schemas.authenticated_user user_rpc_authenticate schemas.encode_login
        (schemas.login input) options

  unfoldable pub get_user : String → RpcOptions → M World Thrown UserResponseDto
  get_user input options =
      validated_call schemas.user_response user_rpc_get_by_id schemas.encode_get
        (schemas.get_user input) options

  unfoldable pub update_user : UpdateUserRequest → RpcOptions → M World Thrown UserResponseDto
  update_user input options =
      validated_call schemas.user_response user_rpc_update schemas.encode_update
        (schemas.update_user input) options

  unfoldable pub health : RpcOptions → M World Thrown String
  health options =
      call connection schemas.health_response user_rpc_health schemas.empty_payload options

  -- The call returns, or fails with a status for the client.
  abbrev pub IsClear : {A : Type 0} → Result Thrown A × World → Type 0
  IsClear x = Ensures (λ _ w'. Unit) (λ e w'. IsCallStatus (to_app_error e).status) x

  validated_call-IsClear :
      {Input Output : Type 0} (response : Json → Result String (RpcResponse Output))
      (subject : String) (encode : Input → Bytes) (input : Result String Input)
      (options : RpcOptions) (w : World)
      → IsClear (validated_call response subject encode input options w)
  unfolding to_app_error
  validated_call-IsClear response subject encode (err issues) options w = throws (inl refl)
  validated_call-IsClear response subject encode (ok valid) options w =
      call-IsCallStatus connection response subject (encode valid) options w

  -- Whatever its input, the network and the user service do, each method of the client either
  -- returns or throws an error that the gateway turns into one of the statuses 400, 401, 404, 409,
  -- 502, 503 and 504.
  pub client-IsClear :
      (create : CreateUserDto) (credentials : LoginDto) (id : String) (change : UpdateUserRequest)
      (options : RpcOptions) (w : World)
      → IsClear (sign_up create options w)
        × IsClear (login credentials options w)
        × IsClear (get_user id options w)
        × IsClear (update_user change options w)
        × IsClear (health options w)
  unfolding sign_up login get_user update_user health
  client-IsClear create credentials id change options w = (
    validated_call-IsClear schemas.user_response user_rpc_create schemas.encode_create
        (schemas.create_user create) options w,
    validated_call-IsClear schemas.authenticated_user user_rpc_authenticate schemas.encode_login
        (schemas.login credentials) options w,
    validated_call-IsClear schemas.user_response user_rpc_get_by_id schemas.encode_get
        (schemas.get_user id) options w,
    validated_call-IsClear schemas.user_response user_rpc_update schemas.encode_update
        (schemas.update_user change) options w,
    call-IsCallStatus connection schemas.health_response user_rpc_health schemas.empty_payload
        options w,
  )

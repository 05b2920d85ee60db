-- ===== src/Rpc/Mirroring.antt =====
-- A call of the gateway against the operation of the user service: the methods of
-- apps/api-gateway/src/nats/user-rpc.client.ts over a network that delivers replies in time.
use trams_assignment.Base.{
  ◌≡◌, refl, ◌∙◌, false, ◌≢◌, Option, [], ◌∷◌, String, M, Result, ok, ◌>>=◌, or_default, whole, ℕ,
}
use trams_assignment.Contracts.{
  user_rpc_create, user_rpc_get_by_id, user_rpc_update, user_rpc_authenticate,
}
use trams_assignment.Messaging.Publisher.{is_bad_timeout}
use trams_assignment.Users.{
  CreateUserDto, LoginDto, UserResponseDto, AuthenticatedUser, ServiceFault,
}
use trams_assignment.Rpc.{RpcFailure, RpcResponse, success, failure, RpcOptions, Connection, call}
use trams_assignment.Rpc.Client
use trams_assignment.Rpc.Client.{ClientSchemas}
use trams_assignment.Rpc.Loopback.{
  serve, handled, handle_request-Sends, operated-Checked, call-Mirrors, Mirrors,
}
use trams_assignment.Rpc.Routes.{
  UpdateUserRequest, UserRpcOperations, Schemas, Reply, user_reply, login_reply, handle_sign_up,
  handle_login, handle_get_user, handle_update_user,
}

-- A network in which the reply to a request arrives in time, with the codecs of both sides: the bytes
-- of a reply are decoded to its JSON value.
pub record Network {W Json : Type 0} (Bytes : Type 0) (schemas : Schemas W Json)
    (users : UserRpcOperations W) : Type 0 where
  pub connection : Connection W Bytes Json
  pub read : Bytes → Option Json
  pub encode : Reply → Bytes
  pub json : Reply → Json
  pub request_law :
      (subject : String) (payload : Bytes) (timeout : ℕ) (request_id : Option String) (w w' : W)
      (r : Reply)
      → serve schemas users subject (read payload) w
        ≡ (ok tt, record { service = w'; sent = r ∷ [] })
      → connection.request subject payload timeout request_id w ≡ (ok (encode r), w')
  pub decode_law : (r : Reply) → connection.decode (encode r) ≡ ok (json r)

-- The two sides share their schemas: the service accepts a request that the client has validated, and
-- the client a reply with an output that the service has checked, and one with a failure that has a
-- message.
pub record Agree {W Bytes Json : Type 0} {schemas : Schemas W Json} {users : UserRpcOperations W}
    (network : Network Bytes schemas users) (client : ClientSchemas Bytes Json) : Type 0 where
  pub create_law :
      (i v : CreateUserDto)
      → client.create_user i ≡ ok v
      → schemas.create_user (network.read (client.encode_create v)) ≡ ok v
  pub login_law :
      (i v : LoginDto)
      → client.login i ≡ ok v
      → schemas.login (network.read (client.encode_login v)) ≡ ok v
  pub get_law :
      (i v : String)
      → client.get_user i ≡ ok v
      → schemas.get_user (network.read (client.encode_get v)) ≡ ok v
  pub update_law :
      (i v : UpdateUserRequest)
      → client.update_user i ≡ ok v
      → schemas.update_user (network.read (client.encode_update v)) ≡ ok v
  pub user_law :
      (output o : UserResponseDto) (w w' : W)
      → schemas.user_response output w ≡ (ok o, w')
      → client.user_response (network.json (user_reply (success o))) ≡ ok (success o)
  pub user_failure_law :
      (e : RpcFailure)
      → e.message ≢ ""
      → client.user_response (network.json (user_reply (failure e))) ≡ ok (failure e)
  pub authenticated_law :
      (output o : AuthenticatedUser) (w w' : W)
      → schemas.authenticated_user output w ≡ (ok o, w')
      → client.authenticated_user (network.json (login_reply (success o))) ≡ ok (success o)
  pub authenticated_failure_law :
      (e : RpcFailure)
      → e.message ≢ ""
      → client.authenticated_user (network.json (login_reply (failure e))) ≡ ok (failure e)

module _ {W Bytes Json : Type 0} {schemas : Schemas W Json} {users : UserRpcOperations W}
    (network : Network Bytes schemas users) (client : ClientSchemas Bytes Json)
    (agree : Agree network client) (options : RpcOptions)
    (good : is_bad_timeout (or_default options.timeout_ms (whole 3000)) ≡ false) (w : W) where
  module _ {Input Output : Type 0} (safe_parse : Option Json → Result String Input)
      (operation : Input → M W ServiceFault Output)
      (check_output : Output → M W ServiceFault Output) (wrap : RpcResponse Output → Reply)
      (parse : Json → Result String (RpcResponse Output))
      (parses_output : (output o : Output) (w₁ w₂ : W)
        → check_output output w₁ ≡ (ok o, w₂)
        → parse (network.json (wrap (success o))) ≡ ok (success o))
      (parses_failure : (e : RpcFailure)
        → e.message ≢ ""
        → parse (network.json (wrap (failure e))) ≡ ok (failure e)) where
    -- The handler of a subject, with the call of the client on it.
    method-Mirrors :
        (subject : String) (payload : Bytes) (input : Input)
        → (parses : safe_parse (network.read payload) ≡ ok input)
        → serve schemas users subject (network.read payload) w
          ≡ handled safe_parse operation check_output wrap (network.read payload) input w parses
        → Mirrors
            ((operation input >>= check_output) w)
            (call network.connection parse subject payload options w)
    method-Mirrors subject payload input parses serves =
        call-Mirrors safe_parse operation check_output wrap (network.read payload) input w parses
          network.connection network.encode network.json parse network.decode_law parses_output
          parses_failure subject payload options good _
          (operated-Checked safe_parse operation check_output wrap (network.read payload) input w
            parses (operation input w))
          (network.request_law subject payload _ _ w _ _ (
            serves
            ∙ handle_request-Sends safe_parse operation check_output wrap (network.read payload)
                input w parses))

  -- The four methods of the client on input that its schemas accept, over a network in which replies
  -- arrive in time and between sides that share their schemas. Each does exactly what the method of
  -- the user service does with that input and the check of its output: it returns the same value and
  -- leaves the same state, or, where these throw, leaves their state and throws what the gateway turns
  -- into the HTTP answer for that error; only an error with no message is left aside.
  pub client-Mirrors :
      (create create' : CreateUserDto) (credentials credentials' : LoginDto) (id id' : String)
      (change change' : UpdateUserRequest)
      → client.create_user create ≡ ok create'
      → client.login credentials ≡ ok credentials'
      → client.get_user id ≡ ok id'
      → client.update_user change ≡ ok change'
      → Mirrors
          ((users.sign_up create' >>= schemas.user_response) w)
          (Client.sign_up network.connection client create options w)
        × Mirrors
            ((users.login credentials' >>= schemas.authenticated_user) w)
            (Client.login network.connection client credentials options w)
        × Mirrors
            ((users.get_user id' >>= schemas.user_response) w)
            (Client.get_user network.connection client id options w)
        × Mirrors
            ((users.update_user change'.id change'.update >>= schemas.user_response) w)
            (Client.update_user network.connection client change options w)
  unfolding Client.sign_up Client.login Client.get_user Client.update_user serve handle_sign_up
      handle_login handle_get_user handle_update_user
  client-Mirrors create create' credentials credentials' id id' change change' is_create is_login
        is_get is_update =
      (
        rw is_create (
            method-Mirrors schemas.create_user users.sign_up schemas.user_response user_reply
              client.user_response agree.user_law agree.user_failure_law user_rpc_create
              (client.encode_create create') create' (agree.create_law create create' is_create)
              refl),
        rw is_login (
            method-Mirrors schemas.login users.login schemas.authenticated_user login_reply
              client.authenticated_user agree.authenticated_law agree.authenticated_failure_law
              user_rpc_authenticate (client.encode_login credentials') credentials'
              (agree.login_law credentials credentials' is_login) refl),
        rw is_get (
            method-Mirrors schemas.get_user users.get_user schemas.user_response user_reply
              client.user_response agree.user_law agree.user_failure_law user_rpc_get_by_id
              (client.encode_get id') id' (agree.get_law id id' is_get) refl),
        rw is_update (
            method-Mirrors schemas.update_user (λ input. users.update_user input.id input.update)
              schemas.user_response user_reply client.user_response agree.user_law
              agree.user_failure_law user_rpc_update (client.encode_update change') change'
              (agree.update_law change change' is_update) refl),
      )

-- ===== src/Rpc.antt =====
-- The calls of the user service over NATS. Its side is
-- apps/user-service/src/handlers/user.handlers.ts, the gateway's side
-- apps/api-gateway/src/nats/user-rpc.client.ts and errors/rpc-error.mapper.ts, and between them is
-- libs/contracts/src/rpc.ts. The zod schemas and the JSON codec are parameters; what a schema
-- reports is a text here. The log is left out.
pub mod Answering
pub mod Mapping
pub mod Routes
pub mod Serving
pub mod Client
pub mod Loopback
pub mod Mirroring
use trams_assignment.Base.{
  Bool, true, false, Option, none, some, List, String, str_eq, if◌then◌else◌, ◌||◌, M, Result, ok,
  err, ret, throw, ◌>>=◌, ◌>>◌, try_catch, and_then, Number, whole, or_default, ℕ,
}
use trams_assignment.Database.{Fault, error}
use trams_assignment.Messaging.Publisher.{is_bad_timeout, to_natural}
use trams_assignment.Users.{
  UserServiceErrorCode, email_already_in_use, invalid_credentials, user_not_found, ServiceFault,
  user_service_error, other_error,
}

pub data RpcRemoteErrorCode : Type 0 where
  invalid_request : RpcRemoteErrorCode
  remote_email_already_in_use : RpcRemoteErrorCode
  remote_invalid_credentials : RpcRemoteErrorCode
  remote_user_not_found : RpcRemoteErrorCode
  internal_error : RpcRemoteErrorCode

-- The `error` of an `RpcFailure`.
pub record RpcFailure : Type 0 where
  pub code : RpcRemoteErrorCode
  pub message : String
  pub details : Option String

pub data RpcResponse (A : Type 0) : Type 0 where
  success : A → RpcResponse A
  failure : RpcFailure → RpcResponse A

-- The handlers.
abbrev pub remote_code : UserServiceErrorCode → RpcRemoteErrorCode
remote_code email_already_in_use = remote_email_already_in_use
remote_code invalid_credentials = remote_invalid_credentials
remote_code user_not_found = remote_user_not_found

abbrev pub to_rpc_failure : ServiceFault → RpcFailure
to_rpc_failure (user_service_error message code) = record {
  code = remote_code code;
  message = message;
  details = none;
}
to_rpc_failure (other_error e) = record {
  code = internal_error;
  message = "Unable to process User Service request";
  details = none;
}

abbrev pub invalid_failure : String → RpcFailure
invalid_failure issues = record {
  code = invalid_request;
  message = "RPC request does not match its contract";
  details = some issues;
}

module _ {World Json Input Output : Type 0} (safe_parse : Option Json → Result String Input)
    (operation : Input → M World ServiceFault Output)
    (check_output : Output → M World ServiceFault Output)
    (respond : RpcResponse Output → M World ServiceFault (Unit {0})) where
  abbrev pub respond_with_error : ServiceFault → M World ServiceFault (Unit {0})
  respond_with_error e = respond (failure (to_rpc_failure e))

  -- A handler from where its request is parsed. `handleSignUp`, `handleLogin`, `handleGetUser` and
  -- `handleUpdateUser` differ in the schemas and in the operation.
  unfoldable pub answer : Result String Input → M World ServiceFault (Unit {0})
  answer (err issues) = respond (failure (invalid_failure issues))
  answer (ok input) =
      try_catch (operation input >>= check_output >>= (λ output. respond (success output)))
        respond_with_error

  -- With the JSON value of the message, which is missing if it cannot be decoded.
  unfoldable pub handle_request : Option Json → M World ServiceFault (Unit {0})
  unfolding answer
  handle_request value = answer (safe_parse value)

-- The client.
pub data UserRpcErrorCode : Type 0 where
  invalid_rpc_request : UserRpcErrorCode
  invalid_response : UserRpcErrorCode
  no_responders : UserRpcErrorCode
  timed_out : UserRpcErrorCode
  remote_error : UserRpcErrorCode
  transport_error : UserRpcErrorCode

-- The `details` of an error, which is `null` by default.
pub data Details : Type 0 where
  nothing : Details
  text : String → Details
  remote : RpcFailure → Details

pub record UserRpcError : Type 0 where
  pub message : String
  pub code : UserRpcErrorCode
  pub details : Details

pub record AppError : Type 0 where
  pub msg : String
  pub status : ℕ
  pub details : Details

-- What the gateway meets in a `catch`.
pub data Thrown : Type 0 where
  app : AppError → Thrown
  rpc : UserRpcError → Thrown
  nats_no_responders : Thrown
  nats_timeout : Thrown
  other : Fault → Thrown

abbrev pub rpc_error : String → UserRpcErrorCode → Details → Thrown
rpc_error message code details = rpc (record { message = message; code = code; details = details })

pub record RpcOptions : Type 0 where
  pub timeout_ms : Option Number
  pub request_id : Option String

-- `if (options.requestId)`: the header that a request gets.
abbrev pub request_id_header : Option String → Option String
request_id_header none = none
request_id_header (some id) = if str_eq id "" then none else some id

-- The outer `catch` of `request`.
abbrev pub classified : Thrown → Thrown
classified (rpc e) = rpc e
classified nats_no_responders =
    rpc_error "No User Service instance is available" no_responders nothing
classified nats_timeout =
    rpc_error "User Service did not respond before the timeout" timed_out nothing
classified (app e) = rpc_error "User Service RPC request failed" transport_error (text e.msg)
classified (other e) = rpc_error "User Service RPC request failed" transport_error (text e.message)

-- `connection.request`, with the timeout and the request id; and the codec.
pub record Connection (World Bytes Json : Type 0) : Type 0 where
  pub request : String → Bytes → ℕ → Option String → M World Thrown Bytes
  pub decode : Bytes → Result Fault Json

module _ {World Bytes Json : Type 0} (connection : Connection World Bytes Json) where
  abbrev pub decoded_reply : Result Fault Json → M World Thrown Json
  decoded_reply (ok value) = ret value
  decoded_reply (err e) =
      throw (rpc_error "User Service reply is not valid JSON" invalid_response (text e.message))

  -- With the encoded payload.
  unfoldable pub request : String → Bytes → RpcOptions → M World Thrown Json
  request subject payload options =
      let timeout_ms = or_default options.timeout_ms (whole 3000) in
      if is_bad_timeout timeout_ms
      then throw (
          rpc_error "RPC timeout must be a positive integer in milliseconds" invalid_rpc_request
            nothing)
      else try_catch
          (connection.request subject payload (to_natural timeout_ms)
              (request_id_header options.request_id)
            >>= (λ reply. decoded_reply (connection.decode reply)))
          (λ e. throw (classified e))

  module _ {Output : Type 0} (safe_parse : Json → Result String (RpcResponse Output)) where
    abbrev pub opened : Result String (RpcResponse Output) → M World Thrown Output
    opened (err issues) =
        throw (
          rpc_error "User Service reply does not match its contract" invalid_response (text issues))
    opened (ok (failure e)) = throw (rpc_error e.message remote_error (remote e))
    opened (ok (success output)) = ret output

    unfoldable pub call : String → Bytes → RpcOptions → M World Thrown Output
    unfolding request
    call subject payload options = do
      reply ← request subject payload options
      opened (safe_parse reply)

    abbrev pub validate_request : {Input : Type 0} → Result String Input → M World Thrown Input
    validate_request (ok input) = ret input
    validate_request (err issues) = throw (
        rpc_error "User Service request does not match its contract" invalid_rpc_request
          (text issues))

-- The mapping to HTTP.
abbrev pub app_error : String → ℕ → Details → AppError
app_error msg status details = record { msg = msg; status = status; details = details }

abbrev pub optional_details : Option String → Details
optional_details none = nothing
optional_details (some issues) = text issues

abbrev pub remote_status : RpcFailure → RpcRemoteErrorCode → AppError
remote_status e invalid_request = app_error e.message 400 (optional_details e.details)
remote_status e remote_invalid_credentials = app_error e.message 401 nothing
remote_status e remote_user_not_found = app_error e.message 404 nothing
remote_status e remote_email_already_in_use = app_error e.message 409 nothing
remote_status e internal_error = app_error "User Service could not process the request" 502 nothing

-- Of the details that occur, those of a remote error are the ones with a code and a message.
abbrev pub remote_error_to_app_error : Details → AppError
remote_error_to_app_error (remote e) = remote_status e e.code
remote_error_to_app_error nothing =
    app_error "User Service returned an invalid error response" 502 nothing
remote_error_to_app_error (text t) =
    app_error "User Service returned an invalid error response" 502 nothing

abbrev pub rpc_to_app_error : UserRpcError → UserRpcErrorCode → AppError
rpc_to_app_error e remote_error = remote_error_to_app_error e.details
rpc_to_app_error e no_responders = app_error "User Service is temporarily unavailable" 503 nothing
rpc_to_app_error e transport_error = app_error "User Service is temporarily unavailable" 503 nothing
rpc_to_app_error e timed_out = app_error "User Service did not respond in time" 504 nothing
rpc_to_app_error e invalid_response =
    app_error "User Service returned an invalid response" 502 nothing
rpc_to_app_error e invalid_rpc_request = app_error e.message 400 e.details

unfoldable pub to_app_error : Thrown → AppError
to_app_error (app e) = e
to_app_error (rpc e) = rpc_to_app_error e e.code
to_app_error nats_no_responders = app_error "Internal server error" 500 nothing
to_app_error nats_timeout = app_error "Internal server error" 500 nothing
to_app_error (other e) = app_error "Internal server error" 500 nothing

-- ===== src/Rpc/Mapping.antt =====
-- What the gateway makes of a call: the errors of the client, and the HTTP status of each.
use trams_assignment.Base.{
  ℕ, ◌≡◌, refl, ◌⊎◌, inl, inr, Bool-cases, false, String, Result, ok, err, Ensures, returns, throws,
  and_then-Ensures, or_else, throw, Ensures-weaken, whole, or_default,
}
use trams_assignment.Messaging.Publisher.{is_bad_timeout, to_natural}
use trams_assignment.Users.{
  email_already_in_use, invalid_credentials, user_not_found, ServiceFault, user_service_error,
  other_error,
}
use trams_assignment.Rpc.{
  RpcRemoteErrorCode, invalid_request, remote_email_already_in_use, remote_invalid_credentials,
  remote_user_not_found, internal_error, RpcFailure, RpcResponse, success, failure, to_rpc_failure,
  UserRpcErrorCode, invalid_rpc_request, invalid_response, no_responders, timed_out, remote_error,
  transport_error, Details, nothing, text, remote, UserRpcError, AppError, Thrown, app, rpc,
  nats_no_responders, nats_timeout, other, RpcOptions, request_id_header, classified, Connection,
  decoded_reply, request, opened, call, app_error, remote_status, rpc_to_app_error, to_app_error,
}

-- The statuses of a failed call; 500 is not among them.
abbrev pub IsCallStatus : ℕ → Type 0
IsCallStatus n =
    (n ≡ 400) ⊎ ((n ≡ 401) ⊎ ((n ≡ 404) ⊎ ((n ≡ 409) ⊎ ((n ≡ 502) ⊎ ((n ≡ 503) ⊎ (n ≡ 504))))))

remote_status_lem :
    (e : RpcFailure) (code : RpcRemoteErrorCode) → IsCallStatus (remote_status e code).status
remote_status_lem e invalid_request = inl refl
remote_status_lem e remote_invalid_credentials = inr (inl refl)
remote_status_lem e remote_user_not_found = inr (inr (inl refl))
remote_status_lem e remote_email_already_in_use = inr (inr (inr (inl refl)))
remote_status_lem e internal_error = inr (inr (inr (inr (inl refl))))

remote_details_status :
    (d : Details) → IsCallStatus (trams_assignment.Rpc.remote_error_to_app_error d).status
remote_details_status (remote e) = remote_status_lem e e.code
remote_details_status nothing = inr (inr (inr (inr (inl refl))))
remote_details_status (text t) = inr (inr (inr (inr (inl refl))))

rpc_to_app_error-status :
    (e : UserRpcError) (code : UserRpcErrorCode) → IsCallStatus (rpc_to_app_error e code).status
rpc_to_app_error-status e remote_error = remote_details_status e.details
rpc_to_app_error-status e no_responders = inr (inr (inr (inr (inr (inl refl)))))
rpc_to_app_error-status e transport_error = inr (inr (inr (inr (inr (inl refl)))))
rpc_to_app_error-status e timed_out = inr (inr (inr (inr (inr (inr refl)))))
rpc_to_app_error-status e invalid_response = inr (inr (inr (inr (inl refl))))
rpc_to_app_error-status e invalid_rpc_request = inl refl

abbrev pub IsRpcError : Thrown → Type 0
IsRpcError e = (x : UserRpcError) × (e ≡ rpc x)

classified-IsRpcError : (e : Thrown) → IsRpcError (classified e)
classified-IsRpcError (rpc e) = (e, refl)
classified-IsRpcError nats_no_responders = (_, refl)
classified-IsRpcError nats_timeout = (_, refl)
classified-IsRpcError (app e) = (_, refl)
classified-IsRpcError (other e) = (_, refl)

abbrev remote_rpc_error : RpcFailure → UserRpcError
remote_rpc_error e = record { message = e.message; code = remote_error; details = remote e }

-- What a client of the gateway sees of an error of the user service.
abbrev pub answer_to : ServiceFault → AppError
answer_to (user_service_error message email_already_in_use) = app_error message 409 nothing
answer_to (user_service_error message invalid_credentials) = app_error message 401 nothing
answer_to (user_service_error message user_not_found) = app_error message 404 nothing
answer_to (other_error e) = app_error "User Service could not process the request" 502 nothing

pub mapped :
    (e : ServiceFault)
    → rpc_to_app_error (remote_rpc_error (to_rpc_failure e)) remote_error ≡ answer_to e
mapped (user_service_error message email_already_in_use) = refl
mapped (user_service_error message invalid_credentials) = refl
mapped (user_service_error message user_not_found) = refl
mapped (other_error e) = refl

module _ {World Bytes Json Output : Type 0} (connection : Connection World Bytes Json)
    (safe_parse : Json → Result String (RpcResponse Output)) (subject : String) (payload : Bytes)
    (options : RpcOptions) where
  classify-Ensures :
      (x : Result Thrown Json × World)
      → Ensures (λ _ w'. Unit) (λ e w'. IsRpcError e) (or_else x (λ e. throw (classified e)))
  classify-Ensures (ok value, w) = returns tt
  classify-Ensures (err e, w) = throws (classified-IsRpcError e)

  request-Ensures :
      (w : World)
      → Ensures (λ _ w'. Unit) (λ e w'. IsRpcError e) (request connection subject payload options w)
  unfolding request
  request-Ensures w =
      elim (Bool-cases (is_bad_timeout (or_default options.timeout_ms (whole 3000)))) [
        | inl bad ↦ rw bad (throws (_, refl))
        | inr good ↦ rw good (classify-Ensures _)
      ]

  opened-Ensures :
      (r : Result String (RpcResponse Output)) (w : World)
      → Ensures (λ _ w'. Unit) (λ e w'. IsRpcError e) (opened connection safe_parse r w)
  opened-Ensures (err issues) w = throws (_, refl)
  opened-Ensures (ok (failure e)) w = throws (_, refl)
  opened-Ensures (ok (success output)) w = returns tt

  -- Whatever the network does, a call either returns or throws an error that the gateway turns into
  -- one of the statuses 400, 401, 404, 409, 502, 503 and 504.
  pub call-IsCallStatus :
      (w : World)
      → Ensures
          (λ _ w'. Unit)
          (λ e w'. IsCallStatus (to_app_error e).status)
          (call connection safe_parse subject payload options w)
  unfolding call to_app_error
  call-IsCallStatus w =
      Ensures-weaken (λ _ w' p. p) (λ e w' (x, is). rw is (rpc_to_app_error-status x x.code))
        (and_then-Ensures _ (request-Ensures w) (λ reply w₁ p. opened-Ensures (safe_parse reply) w₁)
          (λ e w₁ q. q))

  -- A reply that has arrived and can be decoded is what the call returns or throws.
  pub arrived :
      (bytes : Bytes) (value : Json) (response : RpcResponse Output) (w w' : World)
      → is_bad_timeout (or_default options.timeout_ms (whole 3000)) ≡ false
      → connection.request subject payload
          (to_natural (or_default options.timeout_ms (whole 3000)))
          (request_id_header options.request_id)
          w
        ≡ (ok bytes, w')
      → connection.decode bytes ≡ ok value
      → safe_parse value ≡ ok response
      → call connection safe_parse subject payload options w
        ≡ opened connection safe_parse (ok response) w'
  unfolding call request
  arrived bytes value response w w' good sent decodes parses = rw (good, sent, decodes, parses) refl

  -- An error of the user service on its way to the client of the gateway. If the handler's reply to
  -- it arrives, decoded to the same response, the call throws, and what it throws is turned into
  -- the answer for that error: 409 for a taken email, 401 for wrong credentials and 404 for an
  -- unknown user, each with the message of the service, and 502 with no message of the service for
  -- any other. The state is the one after the request.
  pub call-answer_to :
      (e : ServiceFault) (bytes : Bytes) (value : Json) (w w' : World)
      → is_bad_timeout (or_default options.timeout_ms (whole 3000)) ≡ false
      → connection.request subject payload
          (to_natural (or_default options.timeout_ms (whole 3000)))
          (request_id_header options.request_id)
          w
        ≡ (ok bytes, w')
      → connection.decode bytes ≡ ok value
      → safe_parse value ≡ ok (failure (to_rpc_failure e))
      → (x : Thrown) × (call connection safe_parse subject payload options w ≡ (err x, w'))
        × (to_app_error x ≡ answer_to e)
  unfolding to_app_error
  call-answer_to e bytes value w w' good sent decodes parses =
      (_, arrived bytes value (failure (to_rpc_failure e)) w w' good sent decodes parses, mapped e)

-- ===== src/Rpc/Loopback.antt =====
-- A call of the gateway all the way to the user service and back: the methods of
-- apps/api-gateway/src/nats/user-rpc.client.ts against the handlers of
-- apps/user-service/src/handlers/user.handlers.ts.
use trams_assignment.Base.{
  ◌≡◌, refl, false, ◌⊎◌, inl, inr, ◌≢◌, eq_iff, Bool-cases, str_eq, Option, List, [], ◌∷◌, String,
  M, Result, ok, err, ◌>>=◌, and_then, or_default, whole, arith,
}
use trams_assignment.Messaging.Publisher.{is_bad_timeout, to_natural}
use trams_assignment.Users.{ServiceFault, user_service_error, other_error}
use trams_assignment.Rpc.{
  RpcFailure, RpcResponse, success, failure, to_rpc_failure, answer, handle_request, Thrown,
  RpcOptions, Connection, request_id_header, call, to_app_error,
}
use trams_assignment.Rpc.Mapping.{answer_to, mapped, arrived}
use trams_assignment.Rpc.Routes.{
  UserRpcOperations, Schemas, Reply, handle_sign_up, handle_login, handle_get_user,
  handle_update_user, register_user_rpc_routes, deliver,
}

-- The user service while it handles one message: its state and the replies that it has sent.
pub record Server (W : Type 0) : Type 0 where
  pub service : W
  pub sent : List Reply

abbrev pub reply_of : {A : Type 0} → Result ServiceFault A → RpcResponse A
reply_of (ok output) = success output
reply_of (err e) = failure (to_rpc_failure e)

-- An error with no message, which the contract of the replies does not let through. The user service
-- gives each of its errors a message.
abbrev pub IsSilent : ServiceFault → Type 0
IsSilent (user_service_error message code) = message ≡ ""
IsSilent (other_error e) = ⊥

module _ {W : Type 0} where
  abbrev pub on_server : {A : Type 0} → M W ServiceFault A → M (Server W) ServiceFault A
  on_server m s = ((m s.service).0, record s { service = (m s.service).1 })

  abbrev pub reply_with : Reply → M (Server W) ServiceFault (Unit {0})
  reply_with r s = (ok tt, record s { sent = r ∷ s.sent })

  abbrev pub server_users : UserRpcOperations W → UserRpcOperations (Server W)
  server_users users = record {
    sign_up = λ input. on_server (users.sign_up input);
    login = λ input. on_server (users.login input);
    get_user = λ id. on_server (users.get_user id);
    update_user = λ id input. on_server (users.update_user id input);
    check_health = on_server users.check_health;
  }

  abbrev pub server_schemas : {Json : Type 0} → Schemas W Json → Schemas (Server W) Json
  server_schemas schemas = record {
    create_user = schemas.create_user;
    login = schemas.login;
    get_user = schemas.get_user;
    update_user = schemas.update_user;
    user_response = λ output. on_server (schemas.user_response output);
    authenticated_user = λ output. on_server (schemas.authenticated_user output);
  }

  -- What the service does with a message on a subject.
  unfoldable pub serve :
      {Json : Type 0}
      → Schemas W Json
      → UserRpcOperations W
      → String
      → Option Json
      → W
      → Result ServiceFault (Unit {0}) × Server W
  unfolding handle_sign_up handle_login handle_get_user handle_update_user
  serve schemas users subject value w =
      deliver (server_schemas schemas) (server_users users) reply_with
        (register_user_rpc_routes (server_schemas schemas) (server_users users) reply_with) subject
        value (record { service = w; sent = [] })

  -- A call of the client against the call of the service: it returns the same value, or throws what
  -- becomes the HTTP answer for the error of the service, and leaves the same state.
  abbrev pub Mirrors : {A : Type 0} → Result ServiceFault A × W → Result Thrown A × W → Type 0
  Mirrors (ok output, w) x = x ≡ (ok output, w)
  Mirrors (err e, w) x =
      IsSilent e ⊎ ((t : Thrown) × (x ≡ (err t, w)) × (to_app_error t ≡ answer_to e))

  module _ {Json Input Output : Type 0} (safe_parse : Option Json → Result String Input)
      (operation : Input → M W ServiceFault Output)
      (check_output : Output → M W ServiceFault Output) (wrap : RpcResponse Output → Reply)
      (value : Option Json) (input : Input) (w : W) (parses : safe_parse value ≡ ok input) where
    abbrev pub done : Result ServiceFault Output × W
    done = (operation input >>= check_output) w

    abbrev pub handled : Result ServiceFault (Unit {0}) × Server W
    handled =
        handle_request safe_parse (λ i. on_server (operation i)) (λ o. on_server (check_output o))
          (λ r. reply_with (wrap r)) value (record { service = w; sent = [] })

    abbrev pub Sends : Result ServiceFault Output × W → Type 0
    Sends x = handled ≡ (ok tt, record { service = x.1; sent = wrap (reply_of x.0) ∷ [] })

    checked-Sends :
        (output : Output) (w₁ : W) (y : Result ServiceFault Output × W)
        → operation input w ≡ (ok output, w₁)
        → check_output output w₁ ≡ y
        → Sends y
    unfolding handle_request answer
    checked-Sends output w₁ (ok o, w₂) ran checks = rw (parses, ran, checks) refl
    checked-Sends output w₁ (err e, w₂) ran checks = rw (parses, ran, checks) refl

    operated-Sends :
        (x : Result ServiceFault Output × W)
        → operation input w ≡ x
        → Sends (and_then x check_output)
    unfolding handle_request answer
    operated-Sends (ok output, w₁) ran = checked-Sends output w₁ (check_output output w₁) ran refl
    operated-Sends (err e, w₁) ran = rw (parses, ran) refl

    -- A handler sends the one reply that tells how the operation has ended.
    pub handle_request-Sends : Sends done
    handle_request-Sends = operated-Sends (operation input w) refl

    -- A value that the handler sends has passed its check.
    abbrev pub Checked : Result ServiceFault Output × W → Type 0
    Checked (ok o, w') = (output : Output) × (w₁ : W) × (check_output output w₁ ≡ (ok o, w'))
    Checked (err e, w') = Unit

    check_output-Checked :
        (output : Output) (w₁ : W) (y : Result ServiceFault Output × W)
        → check_output output w₁ ≡ y
        → Checked y
    check_output-Checked output w₁ (ok o, w₂) checks = (output, w₁, checks)
    check_output-Checked output w₁ (err e, w₂) checks = tt

    pub operated-Checked : (x : Result ServiceFault Output × W) → Checked (and_then x check_output)
    operated-Checked (ok output, w₁) = check_output-Checked output w₁ (check_output output w₁) refl
    operated-Checked (err e, w₁) = tt

    module _ {Bytes : Type 0} (connection : Connection W Bytes Json) (encode : Reply → Bytes)
        (json : Reply → Json) (parse : Json → Result String (RpcResponse Output))
        (decodes : (r : Reply) → connection.decode (encode r) ≡ ok (json r))
        (parses_output : (output o : Output) (w₁ w₂ : W)
          → check_output output w₁ ≡ (ok o, w₂)
          → parse (json (wrap (success o))) ≡ ok (success o))
        (parses_failure : (e : RpcFailure)
          → e.message ≢ ""
          → parse (json (wrap (failure e))) ≡ ok (failure e))
        (subject : String) (payload : Bytes) (options : RpcOptions)
        (good : is_bad_timeout (or_default options.timeout_ms (whole 3000)) ≡ false) where
      abbrev pub Delivered : Result ServiceFault Output × W → Type 0
      Delivered d =
          connection.request subject payload
            (to_natural (or_default options.timeout_ms (whole 3000)))
            (request_id_header options.request_id) w
          ≡ (ok (encode (wrap (reply_of d.0))), d.1)

      failure-Mirrors :
          (e : ServiceFault) (w' : W)
          → (to_rpc_failure e).message ≢ ""
          → Delivered (err e, w')
          → (t : Thrown) × (call connection parse subject payload options w ≡ (err t, w'))
            × (to_app_error t ≡ answer_to e)
      unfolding to_app_error
      failure-Mirrors e w' spoken delivered = (
        _,
        arrived connection parse subject payload options _ _ (failure (to_rpc_failure e)) w w' good
            delivered (decodes _) (parses_failure (to_rpc_failure e) spoken),
        mapped e,
      )

      -- A reply that arrives makes the call mirror the operation.
      pub call-Mirrors :
          (d : Result ServiceFault Output × W)
          → Checked d
          → Delivered d
          → Mirrors d (call connection parse subject payload options w)
      call-Mirrors (ok o, w') (output, w₁, checks) delivered =
          arrived connection parse subject payload options _ _ (success o) w w' good delivered
            (decodes _) (parses_output output o w₁ w' checks)
      call-Mirrors (err (other_error e), w') passed delivered = inr (
          failure-Mirrors (other_error e) w'
            (λ h. ground (arith, eq_iff "Unable to process User Service request" "")) delivered)
      call-Mirrors (err (user_service_error message code), w') passed delivered =
          elim (Bool-cases (str_eq message "")) [
            | inl empty ↦ inl ((eq_iff message "").0 empty)
            | inr spoken ↦ inr (
                failure-Mirrors (user_service_error message code) w'
                  (λ h. ground (arith, eq_iff message "")) delivered)
          ]

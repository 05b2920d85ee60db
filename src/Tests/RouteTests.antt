-- ===== src/Tests/RouteTests.antt =====
-- The routes of the user service and the methods of the client.
use trams_assignment.Base.{
  ℕ, ◌≡◌, refl, Option, none, some, List, [], ◌∷◌, String, Result, ok, err, M, ret, throw, Ensures,
  returns, throws,
}
use trams_assignment.Users.{CreateUserDto, LoginDto, UserResponseDto, ServiceFault, email_in_use}
use trams_assignment.Rpc.{success, failure, to_rpc_failure, nats_timeout, RpcOptions, Connection}
use trams_assignment.Rpc.Routes.{
  UpdateUserRequest, UserRpcOperations, Schemas, Reply, user_reply, register_user_rpc_routes,
  deliver, handle_sign_up, handle_get_user,
}
use trams_assignment.Rpc.Serving.{IsReplying, IsServed, deliver-IsServed}
use trams_assignment.Rpc.Client.{
  ClientSchemas, sign_up, login, get_user, update_user, health, IsClear, client-IsClear,
}

abbrev World : Type 0
World = List Reply

abbrev user : UserResponseDto
user = record {
  id = "u1";
  email = "ada@example.com";
  name = none;
  created_at = "2026-08-12T00:00:00.000Z";
  updated_at = "2026-08-12T00:00:00.000Z";
}

abbrev ada : CreateUserDto
ada = record { email = "ada@example.com"; password = "correct horse"; name = none }

abbrev credentials : LoginDto
credentials = record { email = "ada@example.com"; password = "correct horse" }

abbrev rename : UpdateUserRequest
rename = record {
  id = "u1";
  update = record { email = none; password = none; name = some "Ada L." };
}

abbrev users : UserRpcOperations World
users = record {
  sign_up = λ input. throw email_in_use;
  login = λ input. ret (record { id = "u1"; email = input.email; name = none });
  get_user = λ id. ret user;
  update_user = λ id input. ret user;
  check_health = ret tt;
}

-- A message that cannot be decoded is refused; any other is taken for a fixed request.
abbrev parsed : {A : Type 0} → A → Option String → Result String A
parsed a none = err "Required"
parsed a (some text) = ok a

abbrev schemas : Schemas World String
schemas = record {
  create_user = parsed ada;
  login = parsed credentials;
  get_user = parsed "u1";
  update_user = parsed rename;
  user_response = ret;
  authenticated_user = ret;
}

abbrev reply : Reply → M World ServiceFault (Unit {0})
reply r rs = (ok tt, r ∷ rs)

replying : IsReplying schemas users reply (λ rs. rs)
replying = record {
  respond_law = λ r w. returns refl;
  sign_up_law = λ input w. throws refl;
  login_law = λ input w. returns refl;
  get_user_law = λ id w. returns refl;
  update_user_law = λ id input w. returns refl;
  check_health_law = λ w. returns refl;
  user_response_law = λ output w. returns refl;
  authenticated_user_law = λ output w. returns refl;
}

deliver-IsServed_example :
    Ensures
      (λ _ w'. IsServed schemas users reply (λ rs. rs) replying (some "{}") [] w' "user.rpc.create")
      (λ e w'. w' ≡ [])
      (deliver schemas users reply
        (register_user_rpc_routes schemas users reply)
        "user.rpc.create"
        (some "{}")
        [])
deliver-IsServed_example =
    deliver-IsServed schemas users reply (λ rs. rs) replying "user.rpc.create" (some "{}") []

-- A request for a user is answered with that user, and one on another subject by nobody.
deliver_run :
    ((deliver schemas users reply
        (register_user_rpc_routes schemas users reply)
        "user.rpc.get-by-id"
        (some "{}")
        []).1
      ≡ user_reply (success user) ∷ [])
    × ((deliver schemas users reply
          (register_user_rpc_routes schemas users reply)
          "user.rpc.create"
          (some "{}")
          []).1
        ≡ user_reply (failure (to_rpc_failure email_in_use)) ∷ [])
    × ((deliver schemas users reply
          (register_user_rpc_routes schemas users reply)
          "user.created"
          (some "{}")
          []).1
        ≡ [])
unfolding handle_sign_up handle_get_user
deliver_run = (refl, refl, refl)

abbrev silent : Connection ℕ String String
silent = record {
  request = λ subject payload timeout id. throw nats_timeout;
  decode = λ bytes. ok bytes;
}

abbrev client_schemas : ClientSchemas String String
client_schemas = record {
  create_user = λ input. ok input;
  login = λ input. ok input;
  get_user = λ id. err "Invalid uuid";
  update_user = λ input. ok input;
  encode_create = λ input. "{}";
  encode_login = λ input. "{}";
  encode_get = λ id. "{}";
  encode_update = λ input. "{}";
  empty_payload = "{}";
  user_response = λ json. err "Required";
  authenticated_user = λ json. err "Required";
  health_response = λ json. ok (success "ok");
}

abbrev defaults : RpcOptions
defaults = record { timeout_ms = none; request_id = none }

client-IsClear_example :
    IsClear silent client_schemas (sign_up silent client_schemas ada defaults 0)
    × IsClear silent client_schemas (login silent client_schemas credentials defaults 0)
    × IsClear silent client_schemas (get_user silent client_schemas "u1" defaults 0)
    × IsClear silent client_schemas (update_user silent client_schemas rename defaults 0)
    × IsClear silent client_schemas (health silent client_schemas defaults 0)
client-IsClear_example = client-IsClear silent client_schemas ada credentials "u1" rename defaults 0

-- ===== src/Tests/MirrorTests.antt =====
-- The client of the gateway and the handlers of the user service over a network that gives each request
-- to the service and brings back its reply.
use trams_assignment.Base.{
  ℕ, ◌+◌, ◌≡◌, refl, Option, none, some, List, [], ◌∷◌, String, str_eq, if◌then◌else◌, Result, ok,
  err, ret, ◌>>=◌, whole,
}
use trams_assignment.Users.{
  CreateUserDto, LoginDto, UserResponseDto, AuthenticatedUser, ServiceFault, email_in_use, no_user,
}
use trams_assignment.Rpc.{RpcResponse, Thrown, nats_timeout, RpcOptions}
use trams_assignment.Rpc.Client
use trams_assignment.Rpc.Client.{ClientSchemas}
use trams_assignment.Rpc.Routes.{
  UpdateUserRequest, UserRpcOperations, Schemas, Reply, user_reply, login_reply,
}
use trams_assignment.Rpc.Loopback.{Server, serve, Mirrors}
use trams_assignment.Rpc.Mirroring.{Network, Agree, client-Mirrors}

-- A JSON value.
data Json : Type 0 where
  created : CreateUserDto → Json
  credentials_of : LoginDto → Json
  wanted : String → Json
  changed : UpdateUserRequest → Json
  replied : Reply → Json

abbrev user : UserResponseDto
user = record {
  id = "u1";
  email = "ada@example.com";
  name = none;
  created_at = "2026-08-12T00:00:00.000Z";
  updated_at = "2026-08-12T00:00:00.000Z";
}

-- A service that counts its calls, and knows one user.
abbrev users : UserRpcOperations ℕ
users = record {
  sign_up = λ input n. (err email_in_use, n + 1);
  login = λ input n. (ok (record { id = "u1"; email = input.email; name = none }), n + 1);
  get_user = λ id n. (if str_eq id "u1" then ok user else err no_user, n + 1);
  update_user = λ id input n. (ok user, n + 1);
  check_health = ret tt;
}

create_in : Option Json → Result String CreateUserDto
create_in (some (created input)) = ok input
create_in value = err "Required"

login_in : Option Json → Result String LoginDto
login_in (some (credentials_of input)) = ok input
login_in value = err "Required"

id_in : Option Json → Result String String
id_in (some (wanted id)) = ok id
id_in value = err "Required"

change_in : Option Json → Result String UpdateUserRequest
change_in (some (changed input)) = ok input
change_in value = err "Required"

user_in : Json → Result String (RpcResponse UserResponseDto)
user_in (replied (user_reply r)) = ok r
user_in value = err "Required"

authenticated_in : Json → Result String (RpcResponse AuthenticatedUser)
authenticated_in (replied (login_reply r)) = ok r
authenticated_in value = err "Required"

abbrev schemas : Schemas ℕ Json
schemas = record {
  create_user = create_in;
  login = login_in;
  get_user = id_in;
  update_user = change_in;
  user_response = ret;
  authenticated_user = ret;
}

abbrev client : ClientSchemas Json Json
client = record {
  create_user = λ input. ok input;
  login = λ input. ok input;
  get_user = λ id. ok id;
  update_user = λ input. ok input;
  encode_create = created;
  encode_login = credentials_of;
  encode_get = wanted;
  encode_update = changed;
  empty_payload = wanted "";
  user_response = user_in;
  authenticated_user = authenticated_in;
  health_response = λ value. err "Required";
}

brought : List Reply → ℕ → Result Thrown Json × ℕ
brought [] n = (err nats_timeout, n)
brought (r ∷ []) n = (ok (replied r), n)
brought (r ∷ s ∷ rs) n = (err nats_timeout, n)

answered : Result ServiceFault (Unit {0}) × Server ℕ → Result Thrown Json × ℕ
unfolding brought
answered (ok done, s) = brought s.sent s.service
answered (err e, s) = (err nats_timeout, s.service)

abbrev requested : String → Json → ℕ → Result Thrown Json × ℕ
requested subject payload n = answered (serve schemas users subject (some payload) n)

requested_lem :
    (subject : String) (payload : Json) (n n' : ℕ) (r : Reply)
    → serve schemas users subject (some payload) n ≡ (ok tt, record { service = n'; sent = r ∷ [] })
    → requested subject payload n ≡ (ok (replied r), n')
unfolding answered
requested_lem subject payload n n' r h = rw h refl

network : Network Json schemas users
network = record {
  connection = record {
    request = λ subject payload timeout request_id n. requested subject payload n;
    decode = λ bytes. ok bytes;
  };
  read = some;
  encode = replied;
  json = replied;
  request_law =
      λ subject payload timeout request_id n n' r h. requested_lem subject payload n n' r h;
  decode_law = λ r. refl;
}

agree : Agree network client
unfolding network create_in login_in id_in change_in user_in authenticated_in
agree = record {
  create_law = λ i v h. refl;
  login_law = λ i v h. refl;
  get_law = λ i v h. refl;
  update_law = λ i v h. refl;
  user_law = λ output o n n' h. refl;
  user_failure_law = λ e h. refl;
  authenticated_law = λ output o n n' h. refl;
  authenticated_failure_law = λ e h. refl;
}

abbrev ada : CreateUserDto
ada = record { email = "ada@example.com"; password = "correct horse"; name = none }

abbrev credentials : LoginDto
credentials = record { email = "ada@example.com"; password = "correct horse" }

abbrev rename : UpdateUserRequest
rename = record {
  id = "u1";
  update = record { email = none; password = none; name = some "Ada L." };
}

abbrev options : RpcOptions
options = record { timeout_ms = some (whole 1000); request_id = some "req-1" }

client-Mirrors_example :
    Mirrors
      ((users.sign_up ada >>= schemas.user_response) 0)
      (Client.sign_up network.connection client ada options 0)
    × Mirrors
        ((users.login credentials >>= schemas.authenticated_user) 0)
        (Client.login network.connection client credentials options 0)
    × Mirrors
        ((users.get_user "u1" >>= schemas.user_response) 0)
        (Client.get_user network.connection client "u1" options 0)
    × Mirrors
        ((users.update_user rename.id rename.update >>= schemas.user_response) 0)
        (Client.update_user network.connection client rename options 0)
client-Mirrors_example =
    client-Mirrors network client agree options refl 0 ada ada credentials credentials "u1" "u1"
      rename rename refl refl refl refl

-- ===== src/Tests/RpcTests.antt =====
-- The two sides of a call, over a network that delivers, with responses as their own bytes.
use trams_assignment.Base.{
  ℕ, ◌≡◌, refl, Option, none, some, List, [], ◌∷◌, String, Result, ok, err, M, ret, throw,
}
use trams_assignment.Users.{ServiceFault, email_in_use}
use trams_assignment.Rpc.{
  RpcResponse, failure, to_rpc_failure, invalid_failure, handle_request, RpcOptions, Connection,
}

-- The state of the handler's side is the list of replies.
abbrev World : Type 0
World = List (RpcResponse String)

abbrev parse : Option String → Result String String
parse none = err "Required"
parse (some s) = ok s

abbrev sign_up_taken : String → M World ServiceFault String
sign_up_taken input = throw email_in_use

abbrev reply : RpcResponse String → M World ServiceFault (Unit {0})
reply r rs = (ok tt, r ∷ rs)

handle_request_run :
    (handle_request parse sign_up_taken ret reply none []).1
    ≡ failure (invalid_failure "Required") ∷ []
unfolding handle_request
handle_request_run = refl

abbrev defaults : RpcOptions
defaults = record { timeout_ms = none; request_id = none }

abbrev delivering : RpcResponse String → Connection ℕ (RpcResponse String) (RpcResponse String)
delivering r = record { request = λ subject payload timeout id. ret r; decode = λ bytes. ok bytes }

abbrev taken : RpcResponse String
taken = failure (to_rpc_failure email_in_use)

-- ===== src/Gateway/Routers.antt =====
-- What the routers of the gateway make of a request: apps/api-gateway/src/routes.
use trams_assignment.Base.{
  ◌≡◌, refl, inl, inr, Bool, true, Bool-cases, Option, List, [], ◌∷◌, String, M, Result,
}
use trams_assignment.Database.{Fault}
use trams_assignment.Rpc.{AppError}
use trams_assignment.Users.{UpdateUserDto, CreateUserDto, LoginDto}
use trams_assignment.Gateway.{AccessTokenClaims, UserServiceRpcClient, get_route, put_route}
use trams_assignment.Gateway.Tokens.{JwtUser}
use trams_assignment.Gateway.Accounts.{LoginResponseDto}
use trams_assignment.Gateway.App.{
  Method, http_get, http_put, http_post, http_options, http_other, no_user_route, user_router,
  auth_router, health_router,
}
use trams_assignment.Gateway.Routing.{
  require_auth_cases, live, ready, signing_up, logging_in, reading, writing, IsAnswered, served,
  offered, unauthenticated, unrouted,
}

module _ {World Raw Body : Type 0} (users : UserServiceRpcClient World)
    (verify : String → Result Fault AccessTokenClaims)
    (sign : World → JwtUser → Result Fault String)
    (check : LoginResponseDto → Result Fault LoginResponseDto) (token_expires_in : String)
    (rate_limit : M World AppError (Unit {0})) (same : String → String → Bool)
    (parse_json : Raw → Result Fault Body) (parse_id : String → Result String String)
    (parse_update : Body → Result String UpdateUserDto)
    (parse_sign_up : Body → Result String CreateUserDto)
    (parse_login : Body → Result String LoginDto) where
  module _ {api name : String} (below : same api "api" ≡ true) (request_id : String)
      (w : World) where
    no_user_route-IsAnswered :
        (method : Method) (path : List String) (authorization : Option String) (body : Body)
        → same name "users" ≡ true
        → IsAnswered verify same w method
            (api ∷ name ∷ path)
            authorization
            (no_user_route verify authorization w)
    no_user_route-IsAnswered method path authorization body at_users =
        elim (require_auth_cases verify authorization w) [
          | inl (_, (auth, done)) ↦ rw done (unrouted refl refl)
          | inr (e, done, refused) ↦ rw done (unauthenticated (below, (at_users, tt)) refused refl)
        ]

    pub user_router-IsAnswered :
        (method : Method) (path : List String) (authorization : Option String) (body : Body)
        → same name "users" ≡ true
        → IsAnswered verify same w method (api ∷ name ∷ path) authorization (
            user_router users verify sign check token_expires_in rate_limit same parse_json parse_id
              parse_update parse_sign_up parse_login method path authorization body request_id w)
    unfolding user_router get_route put_route
    user_router-IsAnswered http_get [] authorization body at_users =
        no_user_route-IsAnswered http_get [] authorization body at_users
    user_router-IsAnswered http_get (id ∷ []) authorization body at_users =
        elim (require_auth_cases verify authorization w) [
          | inl (is, _) ↦ served (reading below at_users is)
          | inr (e, done, refused) ↦ rw done (unauthenticated (below, (at_users, tt)) refused refl)
        ]
    user_router-IsAnswered http_get (id ∷ more ∷ path) authorization body at_users =
        no_user_route-IsAnswered http_get (id ∷ more ∷ path) authorization body at_users
    user_router-IsAnswered http_put [] authorization body at_users =
        no_user_route-IsAnswered http_put [] authorization body at_users
    user_router-IsAnswered http_put (id ∷ []) authorization body at_users =
        elim (require_auth_cases verify authorization w) [
          | inl (is, _) ↦ served (writing below at_users is)
          | inr (e, done, refused) ↦ rw done (unauthenticated (below, (at_users, tt)) refused refl)
        ]
    user_router-IsAnswered http_put (id ∷ more ∷ path) authorization body at_users =
        no_user_route-IsAnswered http_put (id ∷ more ∷ path) authorization body at_users
    user_router-IsAnswered http_post path authorization body at_users =
        no_user_route-IsAnswered http_post path authorization body at_users
    user_router-IsAnswered http_options [] authorization body at_users =
        no_user_route-IsAnswered http_options [] authorization body at_users
    user_router-IsAnswered http_options (id ∷ []) authorization body at_users =
        elim (require_auth_cases verify authorization w) [
          | inl (is, (auth, done)) ↦ rw done (offered (reading below at_users is) refl refl)
          | inr (e, done, refused) ↦ rw done (unauthenticated (below, (at_users, tt)) refused refl)
        ]
    user_router-IsAnswered http_options (id ∷ more ∷ path) authorization body at_users =
        no_user_route-IsAnswered http_options (id ∷ more ∷ path) authorization body at_users
    user_router-IsAnswered http_other path authorization body at_users =
        no_user_route-IsAnswered http_other path authorization body at_users

    pub auth_router-IsAnswered :
        (method : Method) (path : List String) (authorization : Option String) (body : Body)
        → same name "auth" ≡ true
        → IsAnswered verify same w method (api ∷ name ∷ path) authorization (
            auth_router users verify sign check token_expires_in rate_limit same parse_json parse_id
              parse_update parse_sign_up parse_login method path body request_id w)
    unfolding auth_router
    auth_router-IsAnswered http_post [] authorization body at_auth = unrouted refl refl
    auth_router-IsAnswered http_post (last ∷ []) authorization body at_auth =
        elim (Bool-cases (same last "signup")) [
          | inl at_signup ↦ served (signing_up (below, (at_auth, (at_signup, tt))))
          | inr not_signup ↦ elim (Bool-cases (same last "login")) [
            | inl at_login ↦ served (logging_in (below, (at_auth, (at_login, tt))))
            | inr not_login ↦ rw (not_signup, not_login) (unrouted refl refl)
          ]
        ]
    auth_router-IsAnswered http_post (last ∷ more ∷ path) authorization body at_auth =
        unrouted refl refl
    auth_router-IsAnswered http_options [] authorization body at_auth = unrouted refl refl
    auth_router-IsAnswered http_options (last ∷ []) authorization body at_auth =
        elim (Bool-cases (same last "signup")) [
          | inl at_signup ↦
              rw at_signup (offered (signing_up (below, (at_auth, (at_signup, tt)))) refl refl)
          | inr not_signup ↦ elim (Bool-cases (same last "login")) [
            | inl at_login ↦
                rw (not_signup, at_login)
                  (offered (logging_in (below, (at_auth, (at_login, tt)))) refl refl)
            | inr not_login ↦ rw (not_signup, not_login) (unrouted refl refl)
          ]
        ]
    auth_router-IsAnswered http_options (last ∷ more ∷ path) authorization body at_auth =
        unrouted refl refl
    auth_router-IsAnswered http_get path authorization body at_auth = unrouted refl refl
    auth_router-IsAnswered http_put path authorization body at_auth = unrouted refl refl
    auth_router-IsAnswered http_other path authorization body at_auth = unrouted refl refl

    pub health_router-IsAnswered :
        (method : Method) (path : List String) (authorization : Option String)
        → same name "health" ≡ true
        → IsAnswered verify same w method (api ∷ name ∷ path) authorization (
            health_router users verify sign check token_expires_in rate_limit same parse_json
              parse_id parse_update parse_sign_up parse_login method path request_id w)
    unfolding health_router
    health_router-IsAnswered http_get [] authorization at_health =
        served (ready (inr (below, (at_health, tt))))
    health_router-IsAnswered http_get (last ∷ []) authorization at_health =
        elim (Bool-cases (same last "live")) [
          | inl at_live ↦ served (live (below, (at_health, (at_live, tt))))
          | inr not_live ↦ elim (Bool-cases (same last "ready")) [
            | inl at_ready ↦ served (ready (inl (below, (at_health, (at_ready, tt)))))
            | inr not_ready ↦ rw (not_live, not_ready) (unrouted refl refl)
          ]
        ]
    health_router-IsAnswered http_get (last ∷ more ∷ path) authorization at_health =
        unrouted refl refl
    health_router-IsAnswered http_options [] authorization at_health =
        offered (ready (inr (below, (at_health, tt)))) refl refl
    health_router-IsAnswered http_options (last ∷ []) authorization at_health =
        elim (Bool-cases (same last "live")) [
          | inl at_live ↦ rw at_live (offered (live (below, (at_health, (at_live, tt)))) refl refl)
          | inr not_live ↦ elim (Bool-cases (same last "ready")) [
            | inl at_ready ↦
                rw (not_live, at_ready)
                  (offered (ready (inl (below, (at_health, (at_ready, tt))))) refl refl)
            | inr not_ready ↦ rw (not_live, not_ready) (unrouted refl refl)
          ]
        ]
    health_router-IsAnswered http_options (last ∷ more ∷ path) authorization at_health =
        unrouted refl refl
    health_router-IsAnswered http_put path authorization at_health = unrouted refl refl
    health_router-IsAnswered http_post path authorization at_health = unrouted refl refl
    health_router-IsAnswered http_other path authorization at_health = unrouted refl refl

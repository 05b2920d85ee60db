-- ===== src/Gateway/Routing.antt =====
-- The routes of the gateway, apps/api-gateway/src/routes, and what becomes of a request by its path,
-- its method and its token.
use trams_assignment.Base.{
  ◌≡◌, refl, ◌⊎◌, inl, inr, Bool, true, Option-cases, Option, some, List, [], ◌∷◌, String, Result,
  ok, err,
}
use trams_assignment.Database.{Fault}
use trams_assignment.Rpc.{AppError}
use trams_assignment.Gateway.{AccessTokenClaims, read_bearer_token, require_auth, verified}
use trams_assignment.Gateway.App.{
  Method, http_get, http_put, http_post, http_options, Response, status_of,
}

module _ (verify : String → Result Fault AccessTokenClaims) (authorization : Option String) where
  -- The request carries a bearer token that the token service has verified.
  pub record IsVerified : Type 0 where
    pub token : String
    pub auth : AccessTokenClaims
    pub sent : read_bearer_token authorization ≡ some token
    pub valid : verify token ≡ ok auth

module _ {World : Type 0} (verify : String → Result Fault AccessTokenClaims)
    (authorization : Option String) (w : World) where
  pub verified_cases :
      (token : String)
      → read_bearer_token authorization ≡ some token
      → (r : Result Fault AccessTokenClaims) → verify token ≡ r
      → (IsVerified verify authorization
          × ((auth : AccessTokenClaims) × (verified verify r w ≡ (ok auth, w))))
        ⊎ ((e : AppError) × (verified verify r w ≡ (err e, w)) × (e.status ≡ 401))
  verified_cases token sent (ok auth) valid =
      inl (record { token = token; auth = auth; sent = sent; valid = valid }, (auth, refl))
  verified_cases token sent (err e) valid = inr (_, refl, refl)

  pub require_auth_cases :
      (IsVerified verify authorization
        × ((auth : AccessTokenClaims) × (require_auth verify authorization w ≡ (ok auth, w))))
      ⊎ ((e : AppError) × (require_auth verify authorization w ≡ (err e, w)) × (e.status ≡ 401))
  unfolding require_auth
  require_auth_cases = elim (Option-cases (read_bearer_token authorization)) [
    | inl missing ↦ rw missing (inr (_, refl, refl))
    | inr (token, sent) ↦ rw sent (verified_cases token sent (verify token) refl)
  ]

module _ (verify : String → Result Fault AccessTokenClaims) (same : String → String → Bool) where
  -- A path, segment by segment, against that of a route.
  abbrev pub Matches : List String → List String → Type 0
  Matches [] [] = Unit
  Matches [] (segment ∷ path) = ⊥
  Matches (name ∷ route) [] = ⊥
  Matches (name ∷ route) (segment ∷ path) = (same segment name ≡ true) × Matches route path

  -- A path below a route.
  abbrev pub Within : List String → List String → Type 0
  Within [] path = Unit
  Within (name ∷ route) [] = ⊥
  Within (name ∷ route) (segment ∷ path) = (same segment name ≡ true) × Within route path

  -- The routes of the gateway. Both routes of an account ask for a verified token.
  pub data IsServed : Method → List String → Option String → Type 0 where
    live :
        {path : List String} {authorization : Option String}
        → Matches ("api" ∷ "health" ∷ "live" ∷ []) path
        → IsServed http_get path authorization
    ready :
        {path : List String} {authorization : Option String}
        → Matches ("api" ∷ "health" ∷ "ready" ∷ []) path ⊎ Matches ("api" ∷ "health" ∷ []) path
        → IsServed http_get path authorization
    signing_up :
        {path : List String} {authorization : Option String}
        → Matches ("api" ∷ "auth" ∷ "signup" ∷ []) path
        → IsServed http_post path authorization
    logging_in :
        {path : List String} {authorization : Option String}
        → Matches ("api" ∷ "auth" ∷ "login" ∷ []) path
        → IsServed http_post path authorization
    reading :
        {api users id : String} {authorization : Option String}
        → same api "api" ≡ true
        → same users "users" ≡ true
        → IsVerified verify authorization
        → IsServed http_get (api ∷ users ∷ id ∷ []) authorization
    writing :
        {api users id : String} {authorization : Option String}
        → same api "api" ≡ true
        → same users "users" ≡ true
        → IsVerified verify authorization
        → IsServed http_put (api ∷ users ∷ id ∷ []) authorization

  module _ {World : Type 0} (w : World) where
    -- What becomes of a request whose body could be read. An OPTIONS request is answered by Express
    -- on the path of a route.
    pub data IsAnswered : Method → List String → Option String → Response × World → Type 0 where
      served :
          {method : Method} {path : List String} {authorization : Option String}
          {x : Response × World}
          → IsServed method path authorization
          → IsAnswered method path authorization x
      offered :
          {method : Method} {path : List String} {authorization : Option String}
          {x : Response × World}
          → IsServed method path authorization
          → status_of x.0 ≡ 200
          → x.1 ≡ w
          → IsAnswered http_options path authorization x
      unauthenticated :
          {method : Method} {path : List String} {authorization : Option String}
          {x : Response × World}
          → Within ("api" ∷ "users" ∷ []) path
          → status_of x.0 ≡ 401
          → x.1 ≡ w
          → IsAnswered method path authorization x
      unrouted :
          {method : Method} {path : List String} {authorization : Option String}
          {x : Response × World}
          → status_of x.0 ≡ 404
          → x.1 ≡ w
          → IsAnswered method path authorization x

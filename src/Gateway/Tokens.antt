-- ===== src/Gateway/Tokens.antt =====
-- apps/api-gateway/src/utils/jwt.ts: the tokens of the gateway. The JWT library is a parameter.
use trams_assignment.Base.{
  ℕ, ◌<◌, ◌≡◌, refl, Option, none, some, String, count_text, ltb, if◌then◌else◌, M, Result, ok, err,
  ret, throw,
}
use trams_assignment.Database.{Fault, error}
use trams_assignment.Gateway.{AccessTokenClaims}

pub record JwtServiceConfig : Type 0 where
  pub secret : String
  pub expires_in : String
  pub issuer : Option String
  pub audience : Option String

pub record JwtUser : Type 0 where
  pub id : String
  pub email : String

pub record SignOptions : Type 0 where
  pub algorithm : String
  pub subject : String
  pub expires_in : String
  pub issuer : Option String
  pub audience : Option String

pub record VerifyOptions : Type 0 where
  pub algorithm : String
  pub issuer : Option String
  pub audience : Option String

-- What `jwt.verify` returns: a text, or a payload with the claims that are texts.
pub data Decoded : Type 0 where
  plain : String → Decoded
  payload : Option String → Option String → Decoded

-- The library at a time: `sign` takes the email, the secret and the options, and `expiry` is the
-- time up to which a token of that duration is valid. A token verifies until then, under the same
-- secret, algorithm, issuer and audience, with the claims that it was signed with.
pub record Jwt : Type 0 where
  pub sign : ℕ → String → String → SignOptions → Result Fault String
  pub verify : ℕ → String → String → VerifyOptions → Result Fault Decoded
  pub expiry : ℕ → String → ℕ
  pub verify_law :
      (now later : ℕ) (email secret token : String) (options : SignOptions)
      → sign now email secret options ≡ ok token
      → later < expiry now options.expires_in
      → verify later token secret (record {
        algorithm = options.algorithm;
        issuer = options.issuer;
        audience = options.audience;
      })
        ≡ ok (payload (some options.subject) (some email))

abbrev pub jwt_algorithm : String
jwt_algorithm = "HS256"

-- The constructor of `JwtService`
abbrev pub create_jwt_service : {S : Type 0} → JwtServiceConfig → M S Fault JwtServiceConfig
create_jwt_service config =
    if ltb (count_text config.secret) 32
    then throw (error "JWT secret must be at least 32 characters long")
    else ret config

module _ (jwt : Jwt) (config : JwtServiceConfig) where
  abbrev pub sign_options : String → SignOptions
  sign_options subject = record {
    algorithm = jwt_algorithm;
    subject = subject;
    expires_in = config.expires_in;
    issuer = config.issuer;
    audience = config.audience;
  }

  abbrev pub verify_options : VerifyOptions
  verify_options = record {
    algorithm = jwt_algorithm;
    issuer = config.issuer;
    audience = config.audience;
  }

  unfoldable pub sign : ℕ → JwtUser → Result Fault String
  sign now user = jwt.sign now user.email config.secret (sign_options user.id)

  -- `isAccessTokenClaims`, and the claims that it finds
  abbrev pub access_token_claims : Decoded → Result Fault AccessTokenClaims
  access_token_claims (plain t) =
      err (error "JWT does not contain the required access-token claims")
  access_token_claims (payload (some sub) (some email)) = ok (record { sub = sub; email = email })
  access_token_claims (payload (some sub) none) =
      err (error "JWT does not contain the required access-token claims")
  access_token_claims (payload none email) =
      err (error "JWT does not contain the required access-token claims")

  abbrev checked : Result Fault Decoded → Result Fault AccessTokenClaims
  checked (ok decoded) = access_token_claims decoded
  checked (err e) = err e

  unfoldable pub verify : ℕ → String → Result Fault AccessTokenClaims
  verify now token = checked (jwt.verify now token config.secret verify_options)

  -- A token that was signed for a user verifies as that user's until it expires.
  pub verify-sign :
      (now later : ℕ) (user : JwtUser) (token : String)
      → sign now user ≡ ok token
      → later < jwt.expiry now config.expires_in
      → verify later token ≡ ok (record { sub = user.id; email = user.email })
  unfolding sign verify
  verify-sign now later user token signed valid =
      rw
        (jwt.verify_law now later user.email config.secret token (sign_options user.id) signed
          valid)
        refl

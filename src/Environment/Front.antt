-- ===== src/Environment/Front.antt =====
-- apps/api-gateway/src/config/env.ts: the environment of the gateway, and what its main.ts builds from
-- it.
use trams_assignment.Base.{
  ◌<◌, ◌≤◌, ◌≡◌, inl, inr, ◌⊎◌, true, false, Option, none, some, List, [], ◌∷◌, String, count_text,
  map, trim, trim-clean, starts_clean, ends_clean, split_text, All, ltb, if◌then◌else◌, Bool-cases,
  Number, Result, ok, arith,
}
use trams_assignment.Database.{Fault}
use trams_assignment.Gateway.Tokens.{JwtServiceConfig, create_jwt_service}
use trams_assignment.Environment.{
  int, positive, at_most, choice, free_text, coerced_number, transformed, Schema, text_of,
  number_of, list_of, ProcessEnv, Parsed, Zod, loaded, loaded-fits, levels, node_envs, NatsEnv,
  nats_of, IsPort, is_port,
}

pub record JwtEnv : Type 0 where
  pub secret : String
  pub expires_in : String

pub record Config : Type 0 where
  pub node_env : String
  pub log_level : String
  pub port : Number
  pub jwt : JwtEnv
  pub cors_origins : List String
  pub nats : NatsEnv

-- `.filter((origin) => origin.length > 0)`
keep_nonempty : List String → List String
keep_nonempty [] = []
keep_nonempty (origin ∷ origins) =
    let rest = keep_nonempty origins in if ltb 0 (count_text origin) then origin ∷ rest else rest

-- The transformation of `CORS_ORIGINS`.
unfoldable pub origins : String → List String
unfolding keep_nonempty
origins raw = keep_nonempty (map trim (split_text b',' raw))

abbrev pub schema : Schema
schema =
    ("NODE_ENV", choice node_envs "development")
    ∷ ("LOG_LEVEL", choice levels "info")
    ∷ ("GATEWAY_PORT", coerced_number (int ∷ positive ∷ at_most 65535 ∷ []) 3000)
    ∷ ("JWT_SECRET", free_text false 32 none)
    ∷ ("JWT_EXPIRES_IN", free_text false 1 (some "15m"))
    ∷ ("CORS_ORIGINS", transformed "" origins)
    ∷ ("NATS_URL", free_text false 1 none)
    ∷ ("NATS_USER", free_text false 1 none)
    ∷ ("NATS_PASSWORD", free_text false 1 none)
    ∷ ("NATS_TLS_CA_FILE", free_text true 1 none)
    ∷ []

abbrev pub configure : Parsed → Config
configure env = record {
  node_env = text_of (env "NODE_ENV");
  log_level = text_of (env "LOG_LEVEL");
  port = number_of (env "GATEWAY_PORT");
  jwt = record { secret = text_of (env "JWT_SECRET"); expires_in = text_of (env "JWT_EXPIRES_IN") };
  cors_origins = list_of (env "CORS_ORIGINS");
  nats = nats_of env;
}

unfoldable pub load_env : Zod → ProcessEnv → Result Fault Config
load_env zod env = loaded configure (zod.safe_parse schema env)

-- `config.jwt` as the configuration of the token service.
abbrev pub jwt_config : JwtEnv → JwtServiceConfig
jwt_config jwt = record {
  secret = jwt.secret;
  expires_in = jwt.expires_in;
  issuer = none;
  audience = none;
}

-- An origin that CORS lets through: a text with no white space at its ends.
abbrev pub IsOrigin : String → Type 0
IsOrigin origin =
    (0 < count_text origin) × (starts_clean origin ≡ true) × (ends_clean origin ≡ true)

keep_nonempty-IsOrigin : (parts : List String) → All IsOrigin (keep_nonempty (map trim parts))
unfolding keep_nonempty
keep_nonempty-IsOrigin [] = tt
keep_nonempty-IsOrigin (part ∷ parts) = elim (Bool-cases (ltb 0 (count_text (trim part)))) [
  | inl some_text ↦
      rw some_text
        ((ground arith, (trim-clean part).0, (trim-clean part).1), keep_nonempty-IsOrigin parts)
  | inr empty ↦ rw empty (keep_nonempty-IsOrigin parts)
]

origins-IsOrigin : (raw : String) → All IsOrigin (origins raw)
unfolding origins
origins-IsOrigin raw = keep_nonempty-IsOrigin (split_text b',' raw)

create_jwt_service-long :
    {S : Type 0} (config : JwtServiceConfig) (s : S)
    → 32 ≤ count_text config.secret
    → create_jwt_service config s ≡ (ok config, s)
create_jwt_service-long config s h = ground arith

secret_length :
    {unset : Type 0} (secret : String)
    → (unset × (◌≡◌ {A = Option String} none (some secret))) ⊎ (32 ≤ count_text secret)
    → 32 ≤ count_text secret
secret_length secret (inl (_, is)) = absurd (ground arith)
secret_length secret (inr h) = h

-- A configuration that has been loaded is one from which `main.ts` builds the gateway: the constructor
-- of the token service returns with the secret and the duration of the environment, the port is a
-- port, and each of the allowed origins is a text that is not empty, with no white space at its ends.
pub load_env-serves :
    {S : Type 0} (zod : Zod) (env : ProcessEnv) (config : Config) (s : S)
    → load_env zod env ≡ ok config
    → (create_jwt_service (jwt_config config.jwt) s ≡ (ok (jwt_config config.jwt), s))
      × IsPort config.port
      × All IsOrigin config.cors_origins
unfolding load_env
load_env-serves zod env config s h =
    let (parsed, parses, is) = loaded-fits configure (zod.safe_parse schema env) h in
    let fits = zod.safe_parse_law schema env parsed parses in
    let (port, at_port, port_fits) = fits.1.1.0 in
    let (secret, at_secret, secret_fits) = fits.1.1.1.0 in
    let at_origins = fits.1.1.1.1.1.0 in
    rw (← is) (
      rw at_secret (
          create_jwt_service-long
            (jwt_config
              (record { secret = secret; expires_in = text_of (parsed "JWT_EXPIRES_IN") }))
            s (secret_length secret secret_fits)),
      rw at_port (is_port port 3000 (omega arith) (omega arith) port_fits),
      rw at_origins (origins-IsOrigin _),
    )

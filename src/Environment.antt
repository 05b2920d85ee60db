-- ===== src/Environment.antt =====
-- What the three config/env.ts share: apps/user-service/src/config/env.ts,
-- apps/notification-service/src/config/env.ts and apps/api-gateway/src/config/env.ts. A schema is what
-- the source writes, as data; the zod library that parses the environment with it is a parameter.
pub mod Accounts
pub mod Notifications
pub mod Front
use trams_assignment.Base.{
  ℕ, zero, suc, ◌≤◌, ◌<◌, arith, inl, inr, ◌≡◌, refl, ◌⊎◌, Bool, Option, none, some, List, [], ◌∷◌,
  String, append_text, count_text, All, or_default, Number, whole, negative, not_whole, Result, ok,
  err,
}
use trams_assignment.Database.{Fault, error}

-- `.int()`, `.positive()`, `.min(n)`, `.max(n)`
pub data Check : Type 0 where
  int : Check
  positive : Check
  at_least : ℕ → Check
  at_most : ℕ → Check

-- The schema of one variable: `z.enum(values).default(value)`, `z.string().url()`,
-- `z.string().trim().min(n)` with or without the trimming and a default, `z.coerce.number()` with its
-- checks and default, and `z.string().default(text).transform(f)`.
pub data FieldSchema : Type 0 where
  choice : (values : List String) → (fallback : String) → FieldSchema
  url : FieldSchema
  free_text : (trimmed : Bool) → (min_length : ℕ) → (fallback : Option String) → FieldSchema
  coerced_number : (checks : List Check) → (fallback : ℕ) → FieldSchema
  transformed : (fallback : String) → (transform : String → List String) → FieldSchema

abbrev pub Schema : Type 0
Schema = List (String × FieldSchema)

pub data Value : Type 0 where
  text_value : String → Value
  number_value : Number → Value
  list_value : List String → Value

-- `process.env`
abbrev pub ProcessEnv : Type 0
ProcessEnv = String → Option String

-- What `safeParse` returns for a schema: a value for the name of each variable.
abbrev pub Parsed : Type 0
Parsed = String → Value

pub record Issue : Type 0 where
  pub path : String
  pub message : String

abbrev pub Passes : Number → Check → Type 0
Passes (whole n) int = Unit
Passes (whole zero) positive = ⊥
Passes (whole (suc n)) positive = Unit
Passes (whole n) (at_least m) = m ≤ n
Passes (whole n) (at_most m) = n ≤ m
Passes (negative n) int = Unit
Passes (negative n) positive = ⊥
Passes (negative n) (at_least m) = ⊥
Passes (negative n) (at_most m) = Unit
Passes not_whole int = ⊥
Passes not_whole positive = Unit
Passes not_whole (at_least m) = Unit
Passes not_whole (at_most m) = Unit

abbrev pub OneOf : String → List String → Type 0
OneOf t [] = ⊥
OneOf t (value ∷ values) = (t ≡ value) ⊎ OneOf t values

-- The value of a variable is its default, if it is not set, or has passed the checks of its schema.
abbrev pub Fits : ProcessEnv → Parsed → String × FieldSchema → Type 0
Fits env parsed (name, choice values fallback) =
    (t : String) × (parsed name ≡ text_value t) × ((t ≡ fallback) ⊎ OneOf t values)
Fits env parsed (name, url) = (t : String) × (parsed name ≡ text_value t)
Fits env parsed (name, free_text trimmed min_length fallback) =
    (t : String) × (parsed name ≡ text_value t)
    × (((env name ≡ none) × (fallback ≡ some t)) ⊎ (min_length ≤ count_text t))
Fits env parsed (name, coerced_number checks fallback) =
    (n : Number) × (parsed name ≡ number_value n)
    × (((env name ≡ none) × (n ≡ whole fallback)) ⊎ All (Passes n) checks)
Fits env parsed (name, transformed fallback transform) =
    parsed name ≡ list_value (transform (or_default (env name) fallback))

-- `schema.safeParse(process.env)`
pub record Zod : Type 0 where
  pub safe_parse : Schema → ProcessEnv → Result (List Issue) Parsed
  pub safe_parse_law :
      (schema : Schema) (env : ProcessEnv) (parsed : Parsed)
      → safe_parse schema env ≡ ok parsed
      → All (Fits env parsed) schema

abbrev pub text_of : Value → String
text_of (text_value t) = t
text_of (number_value n) = ""
text_of (list_value ts) = ""

abbrev pub number_of : Value → Number
number_of (text_value t) = not_whole
number_of (number_value n) = n
number_of (list_value ts) = not_whole

abbrev pub list_of : Value → List String
list_of (text_value t) = []
list_of (number_value n) = []
list_of (list_value ts) = ts

-- The lines of `details`, joined.
abbrev pub details : List Issue → String
details [] = ""
details (issue ∷ []) = append_text "  - " (append_text issue.path (append_text ": " issue.message))
details (issue ∷ next ∷ issues) = append_text "  - " (
    append_text issue.path
      (append_text ": " (append_text issue.message (append_text "\n" (details (next ∷ issues))))))

-- `loadEnv` with its `schema`, where `configure` builds the configuration.
abbrev pub loaded :
    {Config : Type 0} → (Parsed → Config) → Result (List Issue) Parsed → Result Fault Config
loaded configure (ok parsed) = ok (configure parsed)
loaded configure (err issues) =
    err (error (append_text "Invalid environment configuration:\n" (details issues)))

abbrev pub levels : List String
levels = "fatal" ∷ "error" ∷ "warn" ∷ "info" ∷ "debug" ∷ "trace" ∷ []

abbrev pub node_envs : List String
node_envs = "development" ∷ "test" ∷ "production" ∷ []

pub record NatsEnv : Type 0 where
  pub url : String
  pub user : String
  pub password : String
  pub ca_file : String

abbrev pub nats_of : Parsed → NatsEnv
nats_of env = record {
  url = text_of (env "NATS_URL");
  user = text_of (env "NATS_USER");
  password = text_of (env "NATS_PASSWORD");
  ca_file = text_of (env "NATS_TLS_CA_FILE");
}

-- A loaded configuration comes from an environment that fits the schema.
pub loaded-fits :
    {Config : Type 0} (configure : Parsed → Config) (r : Result (List Issue) Parsed)
    {config : Config}
    → loaded configure r ≡ ok config
    → (parsed : Parsed) × (r ≡ ok parsed) × (configure parsed ≡ config)
loaded-fits configure (ok parsed) h = (parsed, refl, cc)
loaded-fits configure (err issues) h = cc

-- A number whose schema is `.int().positive()`, with a positive default.
pub counted :
    {unset : Type 0} (n : Number) (fallback : ℕ)
    → 0 < fallback
    → (unset × (n ≡ whole fallback)) ⊎ All (Passes n) (int ∷ positive ∷ [])
    → (k : ℕ) × (n ≡ whole k) × (0 < k)
counted n fallback pos (inl (_, is)) = (fallback, is, pos)
counted (whole zero) fallback pos (inr (_, (bad, _))) = absurd bad
counted (whole (suc k)) fallback pos (inr passes) = (suc k, refl, omega arith)
counted (negative k) fallback pos (inr (_, (bad, _))) = absurd bad
counted not_whole fallback pos (inr (bad, _)) = absurd bad

-- A number whose schema is `.int().min(low).max(high)`, with a default in between.
pub ranged :
    {unset : Type 0} (low high : ℕ) (n : Number) (fallback : ℕ)
    → low ≤ fallback
    → fallback ≤ high
    → (unset × (n ≡ whole fallback)) ⊎ All (Passes n) (int ∷ at_least low ∷ at_most high ∷ [])
    → (k : ℕ) × (n ≡ whole k) × (low ≤ k) × (k ≤ high)
ranged low high n fallback p q (inl (_, is)) = (fallback, is, p, q)
ranged low high (whole k) fallback p q (inr (_, (above, (below, _)))) = (k, refl, above, below)
ranged low high (negative k) fallback p q (inr (_, (bad, _))) = absurd bad
ranged low high not_whole fallback p q (inr (bad, _)) = absurd bad

-- A number whose schema is `.int().min(low)`, with a default that is no less.
pub bounded :
    {unset : Type 0} (low : ℕ) (n : Number) (fallback : ℕ)
    → low ≤ fallback
    → (unset × (n ≡ whole fallback)) ⊎ All (Passes n) (int ∷ at_least low ∷ [])
    → (k : ℕ) × (n ≡ whole k) × (low ≤ k)
bounded low n fallback p (inl (_, is)) = (fallback, is, p)
bounded low (whole k) fallback p (inr (_, (above, _))) = (k, refl, above)
bounded low (negative k) fallback p (inr (_, (bad, _))) = absurd bad
bounded low not_whole fallback p (inr (bad, _)) = absurd bad

-- A port that a process can listen on.
abbrev pub IsPort : Number → Type 0
IsPort n = (port : ℕ) × (n ≡ whole port) × (1 ≤ port) × (port ≤ 65535)

-- A number whose schema is `.int().positive().max(65535)`.
pub is_port :
    {unset : Type 0} (n : Number) (fallback : ℕ)
    → 1 ≤ fallback
    → fallback ≤ 65535
    → (unset × (n ≡ whole fallback)) ⊎ All (Passes n) (int ∷ positive ∷ at_most 65535 ∷ [])
    → IsPort n
is_port n fallback p q (inl (_, is)) = (fallback, is, p, q)
is_port (whole zero) fallback p q (inr (_, (bad, _))) = absurd bad
is_port (whole (suc k)) fallback p q (inr (_, (_, (below, _)))) = (suc k, refl, omega arith, below)
is_port (negative k) fallback p q (inr (_, (bad, _))) = absurd bad
is_port not_whole fallback p q (inr (bad, _)) = absurd bad

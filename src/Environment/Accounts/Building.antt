-- ===== src/Environment/Accounts/Building.antt =====
-- What main.ts of apps/user-service/src builds from the configuration that its config/env.ts has loaded.
use trams_assignment.Base.{
  ℕ, ◌<◌, ◌≤◌, ◌≡◌, refl, inl, inr, Bool, true, false, not, ◌||◌, some, String, ltb, leb,
  if◌then◌else◌, Number, whole, is_safe_integer, max_safe_integer, Bool-cases, Ensures, returns,
  throws, append_text, ◌&&◌, ok, err, arith,
}
use trams_assignment.Database.{error}
use trams_assignment.Relay.{RelaySettings, create_relay, positive_integer}
use trams_assignment.Users.Records.{UserDatabase, PasswordHasher}
use trams_assignment.Users.Passwords.{create_password_hasher}
use trams_assignment.Environment.{ProcessEnv, Zod, loaded-fits, counted, ranged}
use trams_assignment.Environment.Accounts.{
  OutboxEnv, UserServiceConfig, schema, configure, load_env, relay_config,
}

-- A number of the environment that the relay has taken.
abbrev pub IsTaken : Number → ℕ → Type 0
IsTaken value n = (value ≡ whole n) × (0 < n) × (n ≤ max_safe_integer)

pub record AreTaken (outbox : OutboxEnv) (settings : RelaySettings) : Type 0 where
  pub retention : IsTaken outbox.published_retention_ms settings.published_retention_ms
  pub interval : IsTaken outbox.cleanup_interval_ms settings.cleanup_interval_ms
  pub batch : IsTaken outbox.cleanup_batch_size settings.cleanup_batch_size
  pub batches : IsTaken outbox.cleanup_max_batches settings.cleanup_max_batches
  pub metrics : IsTaken outbox.metrics_interval_ms settings.metrics_interval_ms

abbrev pub all_safe : OutboxEnv → Bool
all_safe outbox =
    is_safe_integer outbox.published_retention_ms
    && is_safe_integer outbox.cleanup_interval_ms
    && is_safe_integer outbox.cleanup_batch_size
    && is_safe_integer outbox.cleanup_max_batches
    && is_safe_integer outbox.metrics_interval_ms

abbrev outbox_of : ℕ → ℕ → ℕ → ℕ → ℕ → OutboxEnv
outbox_of r i b m x = record {
  published_retention_ms = whole r;
  cleanup_interval_ms = whole i;
  cleanup_batch_size = whole b;
  cleanup_max_batches = whole m;
  metrics_interval_ms = whole x;
}

taken : (k : ℕ) → 0 < k → leb k max_safe_integer ≡ true → IsTaken (whole k) k
taken k pos safe = (refl, pos, ground arith)

module _ {S : Type 0} where
  positive_integer-if :
      (k : ℕ) (name : String) (s : S)
      → 0 < k
      → positive_integer (whole k) name s ≡ (
          if leb k max_safe_integer
          then (ok k, s)
          else (err (error (append_text name " must be a positive integer")), s))
  unfolding positive_integer
  positive_integer-if k name s h = ground arith

  defaults :
      (k : ℕ) (name : String) (s : S)
      → 0 < k
      → leb k max_safe_integer ≡ true
      → positive_integer (whole k) name s ≡ (ok k, s)
  defaults k name s pos safe = rw (positive_integer-if k name s pos, safe)

  create_relay-Ensures :
      (r i b m x : ℕ) (s : S)
      → 0 < r
      → 0 < i
      → 0 < b
      → 0 < m
      → 0 < x
      → Ensures
          (λ settings s'. (s' ≡ s) × AreTaken (outbox_of r i b m x) settings)
          (λ e s'. (s' ≡ s) × (all_safe (outbox_of r i b m x) ≡ false))
          (create_relay (relay_config (outbox_of r i b m x)) s)
  unfolding create_relay
  create_relay-Ensures r i b m x s pr pi pb pm px =
      rw
        (
          defaults 1000 "pollIntervalMs" s (omega arith) refl,
          defaults 10 "batchSize" s (omega arith) refl,
          defaults 30000 "lockTimeoutMs" s (omega arith) refl,
          positive_integer-if r "publishedRetentionMs" s pr,
        )
        (elim (Bool-cases (leb r max_safe_integer)) [
          | inr bad ↦ rw bad (throws (refl, refl))
          | inl hr ↦
              rw (hr, positive_integer-if i "cleanupIntervalMs" s pi)
                (elim (Bool-cases (leb i max_safe_integer)) [
                  | inr bad ↦ rw bad (throws (refl, refl))
                  | inl hi ↦
                      rw (hi, positive_integer-if b "cleanupBatchSize" s pb)
                        (elim (Bool-cases (leb b max_safe_integer)) [
                          | inr bad ↦ rw bad (throws (refl, refl))
                          | inl hb ↦
                              rw (hb, positive_integer-if m "cleanupMaxBatches" s pm)
                                (elim (Bool-cases (leb m max_safe_integer)) [
                                  | inr bad ↦ rw bad (throws (refl, refl))
                                  | inl hm ↦
                                      rw (hm, positive_integer-if x "metricsIntervalMs" s px)
                                        (elim (Bool-cases (leb x max_safe_integer)) [
                                          | inr bad ↦ rw bad (throws (refl, refl))
                                          | inl hx ↦ rw hx (
                                              returns (
                                                refl,
                                                record {
                                                  retention = taken r pr hr;
                                                  interval = taken i pi hi;
                                                  batch = taken b pb hb;
                                                  batches = taken m pm hm;
                                                  metrics = taken x px hx;
                                                },
                                              ))
                                        ])
                                ])
                        ])
                ])
        ])

accepted :
    (k : ℕ) → 10 ≤ k → k ≤ 15 → (not (leb k max_safe_integer) || (ltb k 10 || ltb 15 k)) ≡ false
accepted k low high = ground arith

module _ {World S : Type 0} (db : UserDatabase World) (bcrypt : ℕ → PasswordHasher db) where
  create_password_hasher-whole :
      (k : ℕ) (s : S)
      → 10 ≤ k
      → k ≤ 15
      → create_password_hasher db bcrypt (some (whole k)) s ≡ (ok (bcrypt k), s)
  unfolding create_password_hasher
  create_password_hasher-whole k s low high = rw (accepted k low high) refl

  -- What `main.ts` builds from a configuration that has been loaded. The number of salt rounds is an
  -- integer from 10 to 15, with which the constructor of the password hasher returns.
  -- The constructor of the relay returns with exactly the numbers of the environment, all positive; it
  -- throws only if one of them is above the largest safe integer, which the schema does not exclude.
  pub load_env-builds :
      (zod : Zod) (env : ProcessEnv) (config : UserServiceConfig) (s : S)
      → load_env zod env ≡ ok config
      → ((rounds : ℕ) × (10 ≤ rounds)
          × (rounds ≤ 15)
          × (create_password_hasher db bcrypt (some config.password_salt_rounds) s
              ≡ (ok (bcrypt rounds), s)))
        × Ensures
            (λ settings s'. (s' ≡ s) × AreTaken config.outbox settings)
            (λ e s'. (s' ≡ s) × (all_safe config.outbox ≡ false))
            (create_relay (relay_config config.outbox) s)
  unfolding load_env
  load_env-builds zod env config s h =
      let (parsed, parses, is) = loaded-fits configure (zod.safe_parse schema env) h in
      let fits = zod.safe_parse_law schema env parsed parses in
      let (salt, at_salt, salt_fits) = fits.1.1.1.0 in
      let (rounds, is_rounds, low, high) =
        ranged 10 15 salt 12 (omega arith) (omega arith) salt_fits in
      let (r, at_r, r_fits) = fits.1.1.1.1.1.0 in
      let (i, at_i, i_fits) = fits.1.1.1.1.1.1.0 in
      let (b, at_b, b_fits) = fits.1.1.1.1.1.1.1.0 in
      let (m, at_m, m_fits) = fits.1.1.1.1.1.1.1.1.0 in
      let (x, at_x, x_fits) = fits.1.1.1.1.1.1.1.1.1.0 in
      let (r', is_r, pr) = counted r 604800000 (omega arith) r_fits in
      let (i', is_i, pi) = counted i 3600000 (omega arith) i_fits in
      let (b', is_b, pb) = counted b 500 (omega arith) b_fits in
      let (m', is_m, pm) = counted m 20 (omega arith) m_fits in
      let (x', is_x, px) = counted x 60000 (omega arith) x_fits in
      rw (← is) (
        (
          rounds,
          low,
          high,
          rw (at_salt, is_rounds) (create_password_hasher-whole rounds s low high),
        ),
        rw (at_r, is_r, at_i, is_i, at_b, is_b, at_m, is_m, at_x, is_x)
            (create_relay-Ensures r' i' b' m' x' s pr pi pb pm px),
      )

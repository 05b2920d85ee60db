-- ===== src/Processes/Bootstrap.antt =====
-- scripts/jetstream-bootstrap.ts: the job that provisions the stream of user events. The environment
-- is a parameter: `env` is a variable without the space around it.
use trams_assignment.Base.{
  ◌≡◌, sym, ap, ◌⊎◌, inl, inr, Option, none, String, append_text, if◌then◌else◌, or_default, M,
  Result, err, ret, throw, ◌>>=◌, ◌>>◌, after_try, Ensures, returns, throws, and_then-Ensures,
  Ensures-weaken, Ensures-result,
}
use trams_assignment.Database.{Fault, error}
use trams_assignment.Messaging.Consumer.{is_falsy}
use trams_assignment.Messaging.Streams.{
  StreamConstants, StreamManager, StreamBootstrapResult, ensure, user_events_stream_config,
}
use trams_assignment.Messaging.Streams.Provisioning.{IsProvisioned, ensure-IsProvisioned}
use trams_assignment.Processes.{Host, NatsConnectionConfig, connect_nats, drain_client}
use trams_assignment.Processes.Closing.{IsDrained, drain_client-IsDrained}

-- The outcome of a finalizer is met in the state that it leaves.
pub after_try-Ensures :
    {World A : Type 0} {P : A → World → Type 0} {x : Result Fault A × World}
    (last : M World Fault (Unit {0}))
    → Ensures P (λ e w. Unit {0}) x
    → Ensures
        (λ a w'. (w : World) × P a w × (w' ≡ (last w).1))
        (λ e w'. (w : World) × (w' ≡ (last w).1))
        (after_try x last)
after_try-Ensures last (returns {a} {s} p) =
    and_then-Ensures _ (Ensures-result (last s)) (λ _ w' is. returns (s, p, ap (λ y. y.1) (sym is)))
      (λ e w' is. (s, ap (λ y. y.1) (sym is)))
after_try-Ensures last (throws {e} {s} q) =
    and_then-Ensures _ (Ensures-result (last s)) (λ _ w' is. throws (s, ap (λ y. y.1) (sym is)))
      (λ e' w' is. (s, ap (λ y. y.1) (sym is)))

module _ {World : Type 0} (host : Host World) (constants : StreamConstants)
    (manager : StreamManager World) (env : String → Option String) where
  unfoldable pub required_env : String → M World Fault String
  required_env name =
      if is_falsy (env name)
      then throw (error (append_text name " is required for JetStream bootstrap"))
      else ret (or_default (env name) "")

  -- `loadConfig`, as the argument of `connectNats`
  unfoldable pub load_config : M World Fault NatsConnectionConfig
  unfolding required_env
  load_config = do
    url ← required_env "NATS_URL"
    user ← required_env "NATS_USER"
    password ← required_env "NATS_PASSWORD"
    ca_file ← required_env "NATS_TLS_CA_FILE"
    ret (record {
      servers = url;
      name = "jetstream-bootstrap";
      user = user;
      password = password;
      ca_file = ca_file;
      connect_timeout_ms = none;
      max_reconnect_attempts = none;
      reconnect_delay_ms = none;
    })

  unfoldable pub bootstrap : M World Fault StreamBootstrapResult
  unfolding load_config
  bootstrap = do
    config ← load_config
    connect_nats host config
    λ w. after_try (ensure constants manager user_events_stream_config w) (drain_client host)

  -- The job returns only if the server kept the stream of user events as configured when it drained its
  -- connection, unless that was closed already. A job that throws once it is connected has drained
  -- it as well.
  pub bootstrap-IsProvisioned :
      (w : World)
      → Ensures
          (λ result w'.
            (w₁ : World) × IsProvisioned constants manager user_events_stream_config result w₁
            × IsDrained host w₁ w')
          (λ e w'.
            ((config : NatsConnectionConfig) × (w₀ : World) × ((connect_nats host config w₀)
                ≡ (err e, w')))
            ⊎ ((load_config w ≡ (err e, w')) ⊎ ((w₁ : World) × IsDrained host w₁ w')))
          (bootstrap w)
  unfolding bootstrap
  bootstrap-IsProvisioned w =
      and_then-Ensures _ (Ensures-result (load_config w))
        (λ config w₁ loaded.
          and_then-Ensures _ (Ensures-result (connect_nats host config w₁))
            (λ _ w₂ connected.
              Ensures-weaken
                (λ result w₃ (v, done, is). (v, done, rw is (drain_client-IsDrained host v)))
                (λ e w₃ (v, is). inr (inr (v, rw is (drain_client-IsDrained host v))))
                (after_try-Ensures (drain_client host)
                  (ensure-IsProvisioned constants manager user_events_stream_config w₂)))
            (λ e w₂ failed. inl (config, w₁, failed)))
        (λ e w₁ failed. inr (inl failed))

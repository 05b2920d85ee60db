-- ===== src/Messaging/Streams/Provisioning.antt =====
-- `ensure` of stream-bootstrap.ts: what it leaves on the server.
use trams_assignment.Base.{
  ◌≡◌, refl, sym, ap, ◌∙◌, Bool, false, inl, inr, Bool-cases, Option, some, count, or_default,
  str_eq, eq_iff, arith, is_null, of_ok, subst, ok, Ensures, returns, throws, and_then-Ensures,
  settle-Ensures, Ensures-weaken,
}
use trams_assignment.Database.{Fault}
use trams_assignment.Messaging.Streams.{
  DurableStreamConfig, StreamUpdateConfig, StreamConfig, StreamInfo, StreamBootstrapResult,
  StreamConstants, StreamManager, apply_update, to_stream_update_config, new_stream,
  is_stream_not_found, requires_update, assert_compatible_storage, reconcile_stream, find_created,
  create_stream, ensure,
}
use trams_assignment.Messaging.Streams.Comparing.{IsUpToDate, requires_update_iff}

some_is_not-none : {A : Type 0} {a : A} → some a ≡ Option.none → ⊥
some_is_not-none e = ground (arith, ap is_null e)

-- The stream is kept in files under the limits policy.
abbrev pub IsCompatible : StreamConstants → StreamConfig → Type 0
IsCompatible constants config =
    (config.retention ≡ constants.limits) × (config.storage ≡ constants.file)

module _ {Net : Type 0} (constants : StreamConstants) (manager : StreamManager Net)
    (config : DurableStreamConfig) where
  abbrev change : StreamUpdateConfig
  change = to_stream_update_config constants config

  -- The server keeps the stream of the result as it is configured.
  pub record IsProvisioned (result : StreamBootstrapResult) (n : Net) : Type 0 where
    pub kept : manager.streams n config.name ≡ some result.stream.config
    pub compatible : IsCompatible constants result.stream.config
    pub up_to_date : IsUpToDate change result.stream.config

  assert_compatible_storage-Ensures :
      (existing : StreamInfo) (n : Net)
      → Ensures
          (λ _ n'. (n' ≡ n) × IsCompatible constants existing.config)
          (λ e n'. (n' ≡ n) × (¬ IsCompatible constants existing.config))
          (assert_compatible_storage constants manager config existing n)
  unfolding assert_compatible_storage
  assert_compatible_storage-Ensures existing n =
      let retention = str_eq existing.config.retention constants.limits in
      let storage = str_eq existing.config.storage constants.file in
      elim (Bool-cases retention) [
        | inr other ↦ rw other (
            throws (
              refl,
              λ fits. ground (arith, fits.0, eq_iff existing.config.retention constants.limits),
            ))
        | inl limits ↦ elim (Bool-cases storage) [
          | inr other ↦
              rw (limits, other)
                (throws (
                  refl,
                  λ fits. ground (arith, fits.1, eq_iff existing.config.storage constants.file),
                ))
          | inl file ↦
              rw (limits, file)
                (returns (
                  (
                    refl,
                    (
                      (eq_iff existing.config.retention constants.limits).0 limits,
                      (eq_iff existing.config.storage constants.file).0 file,
                    ),
                  )))
        ]
      ]

  updated :
      (stream : StreamInfo) (before : StreamConfig) {created changed : Bool} {n : Net}
      → IsCompatible constants before
      → manager.streams n config.name ≡ some stream.config
      → stream.config ≡ apply_update change before
      → IsProvisioned (record { stream = stream; created = created; updated = changed }) n
  updated stream before fits now is = record {
    kept = now;
    compatible = (ap (λ c. c.retention) is ∙ fits.0, ap (λ c. c.storage) is ∙ fits.1);
    up_to_date = record {
      subjects = λ q. ap (λ c. count q c.subjects) is;
      description = ap (λ c. c.description) is;
      max_msgs = ap (λ c. c.max_msgs) is;
      max_bytes = ap (λ c. c.max_bytes) is;
      max_msg_size = ap (λ c. c.max_msg_size) is;
      max_age = ap (λ c. c.max_age) is;
      discard = ap (λ c. c.discard) is;
      duplicate_window = ap (λ c. c.duplicate_window) is;
      num_replicas = ap (λ c. c.num_replicas) is;
    };
  }

  reconcile_stream-IsProvisioned :
      (existing : StreamInfo) (n : Net)
      → manager.streams n config.name ≡ some existing.config
      → Ensures IsProvisioned
          (λ e n'. Unit {0})
          (reconcile_stream constants manager config change existing n)
  unfolding reconcile_stream
  reconcile_stream-IsProvisioned existing n kept =
      and_then-Ensures _ (assert_compatible_storage-Ensures existing n)
        (λ _ n₁ (same, fits). elim (Bool-cases (requires_update existing change)) [
          | inr current ↦ rw current (
              returns (record {
                kept = ap (λ m. manager.streams m config.name) same ∙ kept;
                compatible = fits;
                up_to_date = (requires_update_iff existing.config change).0 current;
              }))
          | inl stale ↦ rw stale (
              and_then-Ensures _ (manager.update_law config.name change n₁)
                (λ stream n₂ (before, was, is, now).
                  let at : manager.streams n₁ config.name ≡ some existing.config =
                    ap (λ m. manager.streams m config.name) same ∙ kept in
                  let found : before ≡ existing.config =
                    ap (λ o. or_default o before) (sym was ∙ at) in
                  returns
                    (updated stream existing.config fits now (is ∙ ap (apply_update change) found)))
                (λ e n₂ _. tt))
        ])
        (λ e n₁ _. tt)

  -- A stream that is configured is left as it is.
  reconcile_stream_settled :
      (existing : StreamInfo) (n : Net)
      → IsCompatible constants existing.config
      → IsUpToDate change existing.config
      → Ensures
          (λ r n'. (r ≡ record { stream = existing; created = false; updated = false }) × (n' ≡ n))
          (λ e n'. ⊥)
          (reconcile_stream constants manager config change existing n)
  unfolding reconcile_stream
  reconcile_stream_settled existing n fits current =
      and_then-Ensures _ (assert_compatible_storage-Ensures existing n)
        (λ _ n₁ (same, _).
          rw ((requires_update_iff existing.config change).1 current) (returns (refl, same)))
        (λ e n₁ (same, unfit). unfit fits)

  reconcile_stream_refused :
      (existing : StreamInfo) (n : Net)
      → ¬ IsCompatible constants existing.config
      → Ensures
          (λ r n'. ⊥)
          (λ e n'. n' ≡ n)
          (reconcile_stream constants manager config change existing n)
  unfolding reconcile_stream
  reconcile_stream_refused existing n unfit =
      and_then-Ensures _ (assert_compatible_storage-Ensures existing n)
        (λ _ n₁ (same, fits). absurd (unfit fits)) (λ e n₁ (same, _). same)

  find_created-IsProvisioned :
      (e : Fault) (n : Net)
      → Ensures IsProvisioned (λ e n'. Unit {0}) (find_created constants manager config e n)
  unfolding find_created
  find_created-IsProvisioned e n =
      settle-Ensures _ _ (manager.info_law config.name n)
        (λ existing n₁ (same, kept).
          reconcile_stream-IsProvisioned existing n₁ (ap (λ f. f config.name) same ∙ kept))
        (λ e' n₁ _. throws tt)

  create_stream-IsProvisioned :
      (e : Fault) (n : Net)
      → Ensures IsProvisioned (λ e n'. Unit {0}) (create_stream constants manager config e n)
  unfolding create_stream
  create_stream-IsProvisioned e n = elim (Bool-cases (is_stream_not_found e)) [
    | inr other ↦ rw other (throws tt)
    | inl lost ↦ rw lost (
        settle-Ensures _ _ (manager.add_law (new_stream constants config) n)
          (λ stream n₁ (is, now).
            returns (
              updated stream (new_stream constants config) (refl, refl) (now ∙ ap some (sym is))
                is))
          (λ e' n₁ _. find_created-IsProvisioned e' n₁))
  ]

  -- Whenever `ensure` returns, the server keeps the stream that it returns under the configured name, in
  -- files and under the limits policy, with the configured subjects in some order and all the other
  -- settings as configured: whether the stream was there, was updated, was created, or was created by
  -- another replica meanwhile.
  pub ensure-IsProvisioned :
      (n : Net) → Ensures IsProvisioned (λ e n'. Unit {0}) (ensure constants manager config n)
  unfolding ensure
  ensure-IsProvisioned n =
      and_then-Ensures _ (manager.jetstream_manager_law n)
        (λ _ n₁ _.
          settle-Ensures _ _ (manager.info_law config.name n₁)
            (λ existing n₂ (same, kept).
              reconcile_stream-IsProvisioned existing n₂ (ap (λ f. f config.name) same ∙ kept))
            (λ e n₂ _. create_stream-IsProvisioned e n₂))
        (λ e n₁ _. tt)

  -- A stream that is there is found, if anything is.
  ensure_known :
      {R : StreamBootstrapResult → Net → Type 0} {T : Fault → Net → Type 0} (n : Net)
      (c : StreamConfig)
      → manager.streams n config.name ≡ some c
      → ((n' : Net)
          → manager.streams n' ≡ manager.streams n
          → Ensures R T
              (reconcile_stream constants manager config change (record { config = c }) n'))
      → ((e : Fault) (n' : Net) → manager.streams n' ≡ manager.streams n → T e n')
      → Ensures R T (ensure constants manager config n)
  unfolding ensure create_stream
  ensure_known {R} {T} n c there found failed =
      and_then-Ensures _ (manager.jetstream_manager_law n)
        (λ _ n₁ opened.
          settle-Ensures _ _ (manager.info_law config.name n₁)
            (λ existing n₂ (same, kept).
              let is : existing.config ≡ c =
                ap (λ o. or_default o c) (sym kept ∙ ap (λ f. f config.name) opened ∙ there) in
              subst
                (λ d.
                  Ensures R T
                    (reconcile_stream constants manager config change (record { config = d }) n₂))
                (sym is) (found n₂ (same ∙ opened)))
            (λ e n₂ (same, absent). elim (Bool-cases (is_stream_not_found e)) [
              | inr other ↦ rw other (throws (failed e n₂ (same ∙ opened)))
              | inl lost ↦ absurd (
                  some_is_not-none (sym there ∙ sym (ap (λ f. f config.name) opened) ∙ absent lost))
            ]))
        (λ e n₁ opened. failed e n₁ opened)

  -- A second call of `ensure` with the same configuration changes nothing on the server: it returns
  -- the stream of the first call, as neither created nor updated, or it throws.
  pub ensure_again :
      (n n' : Net) (result : StreamBootstrapResult)
      → ensure constants manager config n ≡ (ok result, n')
      → Ensures
          (λ again n''.
            (again ≡ record { stream = result.stream; created = false; updated = false })
            × (manager.streams n'' ≡ manager.streams n'))
          (λ e n''. manager.streams n'' ≡ manager.streams n')
          (ensure constants manager config n')
  ensure_again n n' result first =
      let done : IsProvisioned result n' =
        of_ok (subst (Ensures IsProvisioned (λ e m. Unit {0})) first (ensure-IsProvisioned n)) in
      ensure_known n' result.stream.config done.kept
        (λ m same.
          Ensures-weaken (λ r m' (is, at). (is, ap manager.streams at ∙ same))
            (λ e m' never. absurd never)
            (reconcile_stream_settled result.stream m done.compatible done.up_to_date))
        (λ e m same. same)

  -- A stream of the configured name that is not kept in files under the limits policy is never
  -- changed: `ensure` throws and leaves the streams of the server as they were.
  pub ensure_refuses :
      (n : Net) (c : StreamConfig)
      → manager.streams n config.name ≡ some c
      → ¬ IsCompatible constants c
      → Ensures
          (λ r n'. ⊥)
          (λ e n'. manager.streams n' ≡ manager.streams n)
          (ensure constants manager config n)
  ensure_refuses n c there unfit =
      ensure_known n c there
        (λ n' same.
          Ensures-weaken (λ r m never. never) (λ e m at. ap manager.streams at ∙ same)
            (reconcile_stream_refused (record { config = c }) n' unfit))
        (λ e n' same. same)

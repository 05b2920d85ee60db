-- ===== src/Tests/StreamsTests.antt =====
-- The provisioning of the stream of user events on a server that has at most one stream.
use trams_assignment.Base.{
  ◌*◌, ◌≡◌, refl, ap, true, false, Bool-cases, inl, inr, Option, none, some, [], ◌∷◌, String,
  str_eq, eq_refl, ◌↔◌, if◌then◌else◌, Result, ok, err, Ensures, returns, throws, of_ok,
}
use trams_assignment.Database.{Fault, error}
use trams_assignment.Messaging.Streams.{
  StreamConfig, StreamInfo, StreamBootstrapResult, StreamConstants, StreamManager,
  StreamUpdateConfig, apply_update, new_stream, is_stream_not_found, to_stream_update_config,
  same_subjects, ensure, requires_update, user_events_stream_config,
}
use trams_assignment.Messaging.Streams.Comparing.{IsUpToDate, requires_update_iff}
use trams_assignment.Messaging.Streams.Provisioning.{IsProvisioned, ensure-IsProvisioned}

abbrev constants : StreamConstants
constants = record { limits = "limits"; file = "file"; old = "old"; nanos = λ ms. ms * 1000000 }

abbrev Server : Type 0
Server = Option StreamConfig

abbrev streams : Server → String → Option StreamConfig
streams none name = none
streams (some c) name = if str_eq c.name name then some c else none

abbrev answer : Option StreamConfig → Server → Result Fault StreamInfo × Server
answer none s = (err (error "stream not found"), s)
answer (some c) s = (ok (record { config = c }), s)

abbrev change : StreamUpdateConfig → Option StreamConfig → Server → Result Fault StreamInfo × Server
change update none s = (err (error "stream not found"), s)
change update (some c) s =
    (ok (record { config = apply_update update c }), some (apply_update update c))

answer-Ensures :
    (found : Option StreamConfig) (name : String) (s : Server)
    → streams s name ≡ found
    → Ensures
        (λ info s'. (streams s' ≡ streams s) × (streams s name ≡ some info.config))
        (λ e s'. (streams s' ≡ streams s) × (is_stream_not_found e ≡ true → streams s name ≡ none))
        (answer found s)
answer-Ensures none name s is = throws (refl, λ _. is)
answer-Ensures (some c) name s is = returns (refl, is)

change-Ensures :
    (update : StreamUpdateConfig) (name : String) (s : Server)
    → Ensures
        (λ changed s'.
          (before : StreamConfig) × (streams s name ≡ some before)
          × (changed.config ≡ apply_update update before)
          × (streams s' name ≡ some changed.config))
        (λ e s'. Unit {0})
        (change update (streams s name) s)
change-Ensures update name none = throws tt
change-Ensures update name (some c) = elim (Bool-cases (str_eq c.name name)) [
  | inl is ↦
      rw is (returns (c, refl, refl, ap (λ b. if b then some (apply_update update c) else none) is))
  | inr other ↦ rw other (throws tt)
]

abbrev manager : StreamManager Server
manager = record {
  streams = streams;
  jetstream_manager = λ s. (ok tt, s);
  info = λ name s. answer (streams s name) s;
  add = λ config s. (ok (record { config = config }), some config);
  update = λ name update s. change update (streams s name) s;
  jetstream_manager_law = λ s. returns refl;
  info_law = λ name s. answer-Ensures (streams s name) name s refl;
  add_law = λ config s. returns (refl, rw (eq_refl config.name) refl);
  update_law = λ name update s. change-Ensures update name s;
}

ensure-IsProvisioned_example :
    IsProvisioned constants manager user_events_stream_config
      (record {
        stream = record { config = new_stream constants user_events_stream_config };
        created = true;
        updated = false;
      })
      (some (new_stream constants user_events_stream_config))
unfolding ensure
ensure-IsProvisioned_example =
    of_ok (ensure-IsProvisioned constants manager user_events_stream_config none)

abbrev created : StreamBootstrapResult
created = record {
  stream = record { config = new_stream constants user_events_stream_config };
  created = true;
  updated = false;
}

created_run :
    ensure constants manager user_events_stream_config none
    ≡ (ok created, some created.stream.config)
unfolding ensure
created_run = refl

-- A stream that keeps its messages in memory.
abbrev volatile : StreamConfig
volatile = record created.stream.config { storage = "memory" }

same_subjects_run :
    (same_subjects
        ("user.created" ∷ "user.events.dlq" ∷ [])
        ("user.events.dlq" ∷ "user.created" ∷ [])
      ≡ true)
    × (same_subjects ("user.created" ∷ []) ("user.created" ∷ "user.created" ∷ []) ≡ false)
unfolding same_subjects
same_subjects_run = (refl, refl)

requires_update_iff_example :
    (requires_update
        (record { config = volatile })
        (to_stream_update_config constants user_events_stream_config)
      ≡ false)
    ↔ IsUpToDate (to_stream_update_config constants user_events_stream_config) volatile
requires_update_iff_example =
    requires_update_iff volatile (to_stream_update_config constants user_events_stream_config)

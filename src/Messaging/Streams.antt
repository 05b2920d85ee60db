-- ===== src/Messaging/Streams.antt =====
-- libs/messaging/src/pub-sub/stream-bootstrap.ts, and the stream of
-- apps/user-service/src/events/user-events.stream.ts. The JetStream manager of the NATS client is a
-- parameter, and so are the constants that the client exports. Only the failures of the lookup are
-- caught in `ensure`: it returns the promise of `reconcileStream` without awaiting it.
pub mod Comparing
pub mod Provisioning
use trams_assignment.Base.{
  ℕ, ◌*◌, ◌≡◌, Bool, true, false, ◌&&◌, ◌||◌, not, Option, some, List, [], ◌∷◌, length, ◌==◌,
  String, str_eq, is_text, append_text, if◌then◌else◌, M, err, ret, throw, ◌>>=◌, ◌>>◌, Ensures,
  settle, ℤ, pos, negsuc, ◌==ℤ◌, sort, text_le,
}
use trams_assignment.Contracts.{user_events_stream, user_created, user_events_dead_letter}
use trams_assignment.Database.{Fault, error}

pub record DurableStreamConfig : Type 0 where
  pub name : String
  pub description : String
  pub subjects : List String
  pub max_messages : ℤ
  pub max_bytes : ℤ
  pub max_message_size : ℤ
  pub max_age_ms : ℕ
  pub duplicate_window_ms : ℕ
  pub replicas : ℕ

-- `Partial<StreamUpdateConfig>` with the fields that the code sets.
pub record StreamUpdateConfig : Type 0 where
  pub description : String
  pub subjects : List String
  pub max_msgs : ℤ
  pub max_bytes : ℤ
  pub max_msg_size : ℤ
  pub max_age : ℕ
  pub discard : String
  pub duplicate_window : ℕ
  pub num_replicas : ℕ

-- The configuration of a stream, with the fields that the code reads or sets.
pub record StreamConfig : Type 0 where
  pub name : String
  pub retention : String
  pub storage : String
  pub max_consumers : ℤ
  pub description : Option String
  pub subjects : List String
  pub max_msgs : ℤ
  pub max_bytes : ℤ
  pub max_msg_size : ℤ
  pub max_age : ℕ
  pub discard : String
  pub duplicate_window : ℕ
  pub num_replicas : ℕ

pub record StreamInfo : Type 0 where
  pub config : StreamConfig

pub record StreamBootstrapResult : Type 0 where
  pub stream : StreamInfo
  pub created : Bool
  pub updated : Bool

-- `{ ...config, ...updateConfig }`
abbrev pub apply_update : StreamUpdateConfig → StreamConfig → StreamConfig
apply_update update config = record config {
  description = some update.description;
  subjects = update.subjects;
  max_msgs = update.max_msgs;
  max_bytes = update.max_bytes;
  max_msg_size = update.max_msg_size;
  max_age = update.max_age;
  discard = update.discard;
  duplicate_window = update.duplicate_window;
  num_replicas = update.num_replicas;
}

-- `RetentionPolicy.Limits`, `StorageType.File`, `DiscardPolicy.Old` and `nanos` of the client.
pub record StreamConstants : Type 0 where
  pub limits : String
  pub file : String
  pub old : String
  pub nanos : ℕ → ℕ

abbrev pub is_stream_not_found : Fault → Bool
is_stream_not_found e = str_eq e.message "stream not found"

-- The client's stream manager: `streams` is what the server keeps under a name, and
-- `jetstream_manager` opens the manager. A lookup changes nothing; an update replaces the fields
-- that it is given.
pub record StreamManager (Net : Type 0) : Type 0 where
  pub streams : Net → String → Option StreamConfig
  pub jetstream_manager : M Net Fault (Unit {0})
  pub info : String → M Net Fault StreamInfo
  pub add : StreamConfig → M Net Fault StreamInfo
  pub update : String → StreamUpdateConfig → M Net Fault StreamInfo
  pub jetstream_manager_law :
      (n : Net)
      → Ensures
          (λ _ n'. streams n' ≡ streams n)
          (λ e n'. streams n' ≡ streams n)
          (jetstream_manager n)
  pub info_law :
      (name : String) (n : Net)
      → Ensures
          (λ found n'. (streams n' ≡ streams n) × (streams n name ≡ some found.config))
          (λ e n'.
            (streams n' ≡ streams n)
            × (is_stream_not_found e ≡ true → streams n name ≡ Option.none))
          (info name n)
  pub add_law :
      (config : StreamConfig) (n : Net)
      → Ensures
          (λ made n'. (made.config ≡ config) × (streams n' config.name ≡ some config))
          (λ e n'. Unit {0})
          (add config n)
  pub update_law :
      (name : String) (change : StreamUpdateConfig) (n : Net)
      → Ensures
          (λ changed n'.
            (before : StreamConfig) × (streams n name ≡ some before)
            × (changed.config ≡ apply_update change before)
            × (streams n' name ≡ some changed.config))
          (λ e n'. Unit {0})
          (update name change n)

-- `sortedLeft.every((value, index) => value === sortedRight[index])`
abbrev pub every_equal : List String → List String → Bool
every_equal [] right = true
every_equal (x ∷ left) [] = false
every_equal (x ∷ left) (y ∷ right) = str_eq x y && every_equal left right

unfoldable pub same_subjects : List String → List String → Bool
same_subjects left right =
    if not (length left == length right)
    then false
    else every_equal (sort text_le left) (sort text_le right)

unfoldable pub requires_update : StreamInfo → StreamUpdateConfig → Bool
unfolding same_subjects
requires_update stream expected =
    let config = stream.config in
    not (same_subjects config.subjects expected.subjects)
    || (not (is_text config.description expected.description)
        || (not (config.max_msgs ==ℤ expected.max_msgs)
            || (not (config.max_bytes ==ℤ expected.max_bytes)
                || (not (config.max_msg_size ==ℤ expected.max_msg_size)
                    || (not (config.max_age == expected.max_age)
                        || (not (str_eq config.discard expected.discard)
                            || (not (config.duplicate_window == expected.duplicate_window)
                                || not (config.num_replicas == expected.num_replicas))))))))

module _ (constants : StreamConstants) where
  abbrev pub to_stream_update_config : DurableStreamConfig → StreamUpdateConfig
  to_stream_update_config config = record {
    description = config.description;
    subjects = config.subjects;
    max_msgs = config.max_messages;
    max_bytes = config.max_bytes;
    max_msg_size = config.max_message_size;
    max_age = constants.nanos config.max_age_ms;
    discard = constants.old;
    duplicate_window = constants.nanos config.duplicate_window_ms;
    num_replicas = config.replicas;
  }

  -- The argument of `streams.add`: all that `updateConfig` sets, and the four fields before it.
  abbrev pub new_stream : DurableStreamConfig → StreamConfig
  new_stream config =
      let change = to_stream_update_config config in
      record {
        name = config.name;
        retention = constants.limits;
        storage = constants.file;
        max_consumers = negsuc 0;
        description = some change.description;
        subjects = change.subjects;
        max_msgs = change.max_msgs;
        max_bytes = change.max_bytes;
        max_msg_size = change.max_msg_size;
        max_age = change.max_age;
        discard = change.discard;
        duplicate_window = change.duplicate_window;
        num_replicas = change.num_replicas;
      }

  module _ {Net : Type 0} (manager : StreamManager Net) (config : DurableStreamConfig) where
    unfoldable pub assert_compatible_storage : StreamInfo → M Net Fault (Unit {0})
    assert_compatible_storage stream =
        if not (str_eq stream.config.retention constants.limits)
        then throw (
            error (
              append_text config.name
                (append_text " must use limits retention; found " stream.config.retention)))
        else if not (str_eq stream.config.storage constants.file)
        then throw (
            error (
              append_text config.name
                (append_text " must use file storage; found " stream.config.storage)))
        else ret tt

    unfoldable pub reconcile_stream :
        StreamUpdateConfig → StreamInfo → M Net Fault StreamBootstrapResult
    unfolding assert_compatible_storage requires_update
    reconcile_stream update_config existing = do
      assert_compatible_storage existing
      if not (requires_update existing update_config)
          then ret (record { stream = existing; created = false; updated = false })
          else do
            stream ← manager.update config.name update_config
            ret (record { stream = stream; created = false; updated = true })

    abbrev pub result_of_add : StreamInfo → M Net Fault StreamBootstrapResult
    result_of_add stream = ret (record { stream = stream; created = true; updated = false })

    -- The inner `catch`: a stream that could not be added may have been added by another replica.
    unfoldable pub find_created : Fault → M Net Fault StreamBootstrapResult
    unfolding reconcile_stream
    find_created create_error n =
        settle (manager.info config.name n) (reconcile_stream (to_stream_update_config config))
          (λ e. throw create_error)

    -- The outer `catch`
    unfoldable pub create_stream : Fault → M Net Fault StreamBootstrapResult
    unfolding find_created
    create_stream e n =
        if not (is_stream_not_found e)
        then (err e, n)
        else settle (manager.add (new_stream config) n) result_of_add find_created

    unfoldable pub ensure : M Net Fault StreamBootstrapResult
    unfolding reconcile_stream create_stream
    ensure = do
      manager.jetstream_manager
      λ n.
          settle (manager.info config.name n) (reconcile_stream (to_stream_update_config config))
            create_stream

abbrev days : ℕ
days = 24 * 60 * 60 * 1000

-- `userEventsStream`
abbrev pub user_events_stream_config : DurableStreamConfig
user_events_stream_config = record {
  name = user_events_stream;
  description = "User Service domain events and failed-event copies";
  subjects = user_created ∷ user_events_dead_letter ∷ [];
  max_messages = negsuc 0;
  max_bytes = pos (512 * 1024 * 1024);
  max_message_size = pos (1 * 1024 * 1024);
  max_age_ms = 7 * days;
  duplicate_window_ms = 2 * 60 * 1000;
  replicas = 1;
}

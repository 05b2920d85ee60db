-- ===== src/Dlq.antt =====
-- scripts/user-events-dlq.ts, the operator's tool for the dead-letter queue. The NATS client, the
-- files, the process and the JSON codec are parameters; `Number(sequenceText)` is the number that
-- the command line is taken to hold.
pub mod Commands
pub mod Inspecting
pub mod Replaying
pub mod Records
use trams_assignment.Base.{
  ℕ, zero, suc, ◌+◌, ◌-◌, ◌≤◌, ◌≡◌, ◌⊎◌, Bool, true, false, ◌&&◌, ◌||◌, not, Option, none, some,
  List, [], ◌∷◌, ◌++◌, map, get_elem?, String, str_eq, append_text, to_text, if◌then◌else◌, ltb, M,
  Result, ok, err, ret, throw, ◌>>=◌, ◌>>◌, try_catch, after_try, Ensures, or_default, Number,
  is_safe_integer,
}
use trams_assignment.Contracts.{
  UserCreatedEvent, user_created, user_events_stream, user_events_dead_letter,
}
use trams_assignment.Database.{Fault, error}
use trams_assignment.Messaging.Publisher.{is_empty, to_natural}
use trams_assignment.Messaging.Consumer.{is_falsy, is_below_one}

-- `header.get(key)` is empty where the header is missing.
pub record MsgHdrs : Type 0 where
  pub get : String → String
  pub keys : List String
  pub values : String → List String

pub record StoredMsg (Bytes : Type 0) : Type 0 where
  pub subject : String
  pub seq : ℕ
  pub timestamp : String
  pub header : MsgHdrs
  pub bytes : Bytes

pub record StreamState : Type 0 where
  pub first_seq : ℕ
  pub last_seq : ℕ

pub record Description : Type 0 where
  pub stream_sequence : ℕ
  pub stored_at : String
  pub reason : String
  pub original_subject : String
  pub source_stream : String
  pub source_sequence : String
  pub consumer : String
  pub delivery_count : String
  pub error : String
  pub event_id : Option String
  pub payload_utf8 : String
  pub payload_base64 : String
  pub headers : List (String × List String)

pub record Preview : Type 0 where
  pub stream_sequence : ℕ
  pub reason : String
  pub original_subject : String
  pub payload_bytes : ℕ
  pub source : String

-- What is written to the standard output.
pub data Output (Ack : Type 0) : Type 0 where
  matches : List Description → Output Ack
  dry_run : Preview → Output Ack
  replayed : Preview → Ack → Output Ack

pub record Replay (Bytes : Type 0) : Type 0 where
  pub subject : String
  pub bytes : Bytes
  pub msg_id : String
  pub timeout : ℕ

pub record ConnectOptions : Type 0 where
  pub servers : String
  pub user : String
  pub pass : String
  pub ca_file : String
  pub name : String

-- What the tool can read and change: the messages of the stream, what it has published, the latest
-- first, and what it has written.
pub record View (Bytes Ack : Type 0) : Type 0 where
  pub stored : ℕ → Option (StoredMsg Bytes)
  pub sent : List (Replay Bytes)
  pub written : List (Output Ack)

abbrev pub is_message_not_found : Fault → Bool
is_message_not_found e = str_eq e.message "no message found"

-- The client, the files and the process. Only `publish` and `write` change what the tool has done;
-- a publication that throws may have been stored. The state of a stream spans its messages.
pub record Operator (World Bytes Ack Json : Type 0) : Type 0 where
  pub view : World → View Bytes Ack
  pub env : String → Option String
  pub now : World → ℕ
  pub connect : ConnectOptions → M World Fault (Unit {0})
  pub drain : M World Fault (Unit {0})
  pub jetstream_manager : M World Fault (Unit {0})
  pub info : String → String → M World Fault StreamState
  pub get_message : String → ℕ → M World Fault (StoredMsg Bytes)
  pub read_file : String → M World Fault Bytes
  pub publish : Replay Bytes → M World Fault Ack
  pub write : Output Ack → World → World
  pub byte_length : Bytes → ℕ
  pub utf8 : Bytes → String
  pub base64 : Bytes → String
  -- `JSON.parse` followed by `userCreatedEventSchema.safeParse`
  pub parse : String → Result Fault Json
  pub safe_parse : Json → Result Fault UserCreatedEvent
  pub jetstream_manager_law :
      (w : World)
      → Ensures (λ _ w'. view w' ≡ view w) (λ e w'. view w' ≡ view w) (jetstream_manager w)
  pub info_law :
      (stream filter : String) (w : World)
      → Ensures
          (λ state w'.
            (view w' ≡ view w)
            × ((n : ℕ) (m : StoredMsg Bytes)
                → (view w).stored n ≡ some m
                → (state.first_seq ≤ n) × (n ≤ state.last_seq)))
          (λ e w'. view w' ≡ view w)
          (info stream filter w)
  pub get_message_law :
      (stream : String) (n : ℕ) (w : World)
      → Ensures
          (λ m w'. (view w' ≡ view w) × ((view w).stored n ≡ some m))
          (λ e w'. (view w' ≡ view w) × (is_message_not_found e ≡ true → (view w).stored n ≡ none))
          (get_message stream n w)
  pub read_file_law :
      (path : String) (w : World)
      → Ensures (λ _ w'. view w' ≡ view w) (λ e w'. view w' ≡ view w) (read_file path w)
  pub publish_law :
      (r : Replay Bytes) (w : World)
      → Ensures
          (λ _ w'. view w' ≡ record (view w) { sent = r ∷ (view w).sent })
          (λ e w'. (view w' ≡ view w) ⊎ (view w' ≡ record (view w) { sent = r ∷ (view w).sent }))
          (publish r w)
  pub write_law :
      (o : Output Ack) (w : World)
      → view (write o w) ≡ record (view w) { written = o ∷ (view w).written }

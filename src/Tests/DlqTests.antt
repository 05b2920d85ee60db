-- ===== src/Tests/DlqTests.antt =====
-- The operator's tool on a stream of two messages, one of them a dead letter of the consumer.
use trams_assignment.Base.{
  ℕ, zero, suc, length, get_elem?, throw, ◌≤◌, ◌≡◌, refl, ap, true, Option, none, some, List, [],
  ◌∷◌, String, is_null, Result, ok, err, Ensures, returns, throws, of_ok, whole, count_text, arith,
}
use trams_assignment.Contracts.{UserCreatedEvent}
use trams_assignment.Database.{Fault, error}
use trams_assignment.Dlq.{StoredMsg, Output, Replay, View, Operator, matches, is_message_not_found}
use trams_assignment.Dlq.Commands.{describe, inspect, replay, main}
use trams_assignment.Dlq.Inspecting.{IsInspected, inspect-IsInspected}
use trams_assignment.Dlq.Replaying.{IsReplayed, replay-IsReplayed}
use trams_assignment.Dlq.Records.{IsAnswering, header_value, replay-dead_letter}
use trams_assignment.Messaging.Consumer.{ResolvedConsumerConfig, JsMsg, dead_letter_headers}
use trams_assignment.Tests.ConsumerTests.{messages, resolved, decode}
use trams_assignment.Tests.OutboxTests.{sample_event}

record World : Type 0 where
  messages_kept : List (StoredMsg String)
  sent : List (Replay String)
  written : List (Output String)

-- Sequence numbers start at 1.
abbrev stored : List (StoredMsg String) → ℕ → Option (StoredMsg String)
stored ms zero = none
stored ms (suc n) = get_elem? ms n

abbrev view : World → View String String
view w = record { stored = stored w.messages_kept; sent = w.sent; written = w.written }

stored_within :
    (ms : List (StoredMsg String)) (n : ℕ) (m : StoredMsg String)
    → stored ms n ≡ some m
    → (1 ≤ n) × (n ≤ length ms)
stored_within ms zero m is = absurd (ground (arith, ap is_null is))
stored_within [] (suc n) m is = absurd (ground (arith, ap is_null is))
stored_within (x ∷ ms) (suc zero) m is = (omega arith, omega arith)
stored_within (x ∷ ms) (suc (suc n)) m is = omega (arith, stored_within ms (suc n) m is)

abbrev found : Option (StoredMsg String) → World → Result Fault (StoredMsg String) × World
found none w = (err (error "no message found"), w)
found (some m) w = (ok m, w)

found-Ensures :
    (o : Option (StoredMsg String)) (n : ℕ) (w : World)
    → (view w).stored n ≡ o
    → Ensures
        (λ m w'. (view w' ≡ view w) × ((view w).stored n ≡ some m))
        (λ e w'. (view w' ≡ view w) × (is_message_not_found e ≡ true → (view w).stored n ≡ none))
        (found o w)
found-Ensures none n w is = throws (refl, λ _. is)
found-Ensures (some m) n w is = returns (refl, is)

found-returns :
    (o : Option (StoredMsg String)) (m : StoredMsg String) (w : World)
    → o ≡ some m
    → Ensures
        (λ (_ : StoredMsg String) (_ : World). Unit {0})
        (λ (_ : Fault) (_ : World). ⊥)
        (found o w)
found-returns none m w is = absurd (ground (arith, ap is_null is))
found-returns (some m') m w is = returns tt

abbrev operator : Operator World String String String
operator = record {
  view = view;
  env = λ name. some name;
  now = λ w. 7;
  connect = λ options w. (ok tt, w);
  drain = λ w. (ok tt, w);
  jetstream_manager = λ w. (ok tt, w);
  info = λ stream filter w. (ok (record { first_seq = 1; last_seq = length w.messages_kept }), w);
  get_message = λ stream n w. found (stored w.messages_kept n) w;
  read_file = λ path w. (ok "created", w);
  publish = λ r w. (ok "ack", record w { sent = r ∷ w.sent });
  write = λ o w. record w { written = o ∷ w.written };
  byte_length = λ bytes. count_text bytes;
  utf8 = λ bytes. bytes;
  base64 = λ bytes. bytes;
  parse = λ text. ok text;
  safe_parse = decode;
  jetstream_manager_law = λ w. returns refl;
  info_law = λ stream filter w. returns (refl, λ n m is. stored_within w.messages_kept n m is);
  get_message_law = λ stream n w. found-Ensures (stored w.messages_kept n) n w refl;
  read_file_law = λ path w. returns refl;
  publish_law = λ r w. returns refl;
  write_law = λ o w. refl;
}

abbrev message : JsMsg String
message = record {
  subject = "user.created";
  bytes = "created";
  delivery_count = 5;
  stream_sequence = 1;
}

abbrev config : ResolvedConsumerConfig String UserCreatedEvent (Unit {0})
config = resolved (λ event. throw (error "smtp is down"))

-- What the server stores of the consumer's dead letter for the message.
abbrev dead_letter : StoredMsg String
dead_letter = record {
  subject = "user.events.dlq";
  seq = 2;
  timestamp = "2026-08-12T01:00:00.000Z";
  header = record {
    get =
        header_value
          (dead_letter_headers messages config message (error "smtp is down") (some "e1"));
    keys = [];
    values = λ key. [];
  };
  bytes = "created";
}

abbrev plain : StoredMsg String
plain = record dead_letter {
  subject = "user.created";
  seq = 1;
  header = record { get = λ key. ""; keys = []; values = λ key. [] };
}

abbrev stream : World
stream = record { messages_kept = plain ∷ dead_letter ∷ []; sent = []; written = [] }

abbrev execute : List String
execute = "--execute" ∷ []

inspect-IsInspected_example :
    IsInspected operator stream
      (record stream { written = matches (describe operator dead_letter ∷ []) ∷ [] })
unfolding inspect
inspect-IsInspected_example = of_ok (inspect-IsInspected operator stream)

replay-IsReplayed_example :
    IsReplayed operator 2 execute stream (replay operator 2 execute stream).1
replay-IsReplayed_example = replay-IsReplayed operator 2 execute stream

-- Without the flag nothing is published, and a message that is no dead letter is refused.
replay_run :
    ((replay operator 2 execute stream).1.sent
      ≡ record {
        subject = "user.created";
        bytes = "created";
        msg_id = "dlq-replay:2:7";
        timeout = 5000;
      }
        ∷ [])
    × ((replay operator 2 [] stream).1.sent ≡ [])
    × ((replay operator 1 execute stream).0 ≡ err (error "Stream sequence 1 is not a DLQ record"))
    × ((main operator "replay" (whole 0) execute stream).0
        ≡ err (error "Replay requires a positive USER_EVENTS stream sequence"))
unfolding replay main
replay_run = (refl, refl, refl, refl)

operator-IsAnswering : IsAnswering operator
operator-IsAnswering = record {
  opens = λ w. returns tt;
  finds = λ n m w is. found-returns (stored w.messages_kept n) m w is;
  publishes = λ r w. returns tt;
}

replay-dead_letter_example :
    Ensures
      (λ _ w'.
        (r : Replay String) × (r.subject ≡ "user.created")
        × (r.bytes ≡ "created")
        × (w'.sent ≡ r ∷ []))
      (λ e' w'. ⊥)
      (replay operator 2 execute stream)
replay-dead_letter_example =
    replay-dead_letter operator messages config message (error "smtp is down") dead_letter 2
      "created" sample_event stream operator-IsAnswering refl refl
      (record { subject = refl; bytes = refl; headers = λ key. refl }) refl refl refl refl

-- ===== src/Relay/Running.antt =====
-- `start` and `stop` of the outbox relay and its task, apps/user-service/src/outbox/outbox.relay.ts.
-- The task is the three loops. A turn takes a loop from one of its suspensions to the next; a round is
-- carried out when its turn has come, and reads nothing of the signal. A loop that waits has its next
-- turn only once its timer has fired or the abort of the signal has called its listener.
use trams_assignment.Base.{
  ℕ, Bool, true, false, ◌&&◌, Option, none, some, List, [], ◌∷◌, String, ◌==◌, if◌then◌else◌,
  Result, ok, err,
}
use trams_assignment.Contracts.{UserCreatedEvent}
use trams_assignment.Database.{Fault, error}
use trams_assignment.Messaging.Publisher.{Jetstream}
use trams_assignment.Outbox.{OutboxStore}
use trams_assignment.Relay.{RelaySettings, RelayState, run_round, cleanup_round, metrics_round}

-- Where a loop is: at its test of the signal, in a round, in `wait`, or behind the loop.
pub data Phase : Type 0 where
  testing : Phase
  working : Phase
  waiting : ℕ → Phase
  ended : Phase

pub data Loop : Type 0 where
  publishing : Loop
  sweeping : Loop
  reporting : Loop

-- What the event loop of the process does next: it goes on with a loop, or the timer of its `wait`
-- fires.
pub data Turn : Type 0 where
  resumes : Loop → Turn
  fires : Loop → Turn

-- `task`, with the signal of `abortController`: the two are set and unset together.
pub record Task : Type 0 where
  pub aborted : Bool
  pub publishing_at : Phase
  pub sweeping_at : Phase
  pub reporting_at : Phase

pub record OutboxRelay (Db Broker : Type 0) : Type 0 where
  pub state : RelayState Db Broker
  pub task : Option Task

-- `wait(milliseconds, signal)`: it resolves at once under an aborted signal.
abbrev pub wait : ℕ → Bool → Phase
wait milliseconds aborted = if aborted then testing else waiting milliseconds

-- `finish` of `wait`, as the timer calls it, and as the abort of the signal calls it, by the listener
-- that `wait` has added.
abbrev pub finished : Phase → Phase
finished testing = testing
finished working = working
finished (waiting ms) = testing
finished ended = ended

-- `abortController.abort()`: the signal is aborted, and each listener is called.
unfoldable pub abort : Task → Task
abort t = record {
  aborted = true;
  publishing_at = finished t.publishing_at;
  sweeping_at = finished t.sweeping_at;
  reporting_at = finished t.reporting_at;
}

-- The timer of a loop fires; it does nothing if the loop does not wait.
unfoldable pub expire : Loop → Task → Task
expire publishing t = record t { publishing_at = finished t.publishing_at }
expire sweeping t = record t { sweeping_at = finished t.sweeping_at }
expire reporting t = record t { reporting_at = finished t.reporting_at }

-- The value of a call that never throws.
abbrev pub value {ℓ} : {A : Type ℓ} → Result ⊥ A → A
value (ok a) = a
value (err e) = absurd e

abbrev pub is_working : Phase → Bool
is_working testing = false
is_working working = true
is_working (waiting ms) = false
is_working ended = false

abbrev pub is_ended : Phase → Bool
is_ended testing = false
is_ended working = false
is_ended (waiting ms) = false
is_ended ended = true

abbrev pub is_done : Task → Bool
is_done t = is_ended t.publishing_at && (is_ended t.sweeping_at && is_ended t.reporting_at)

module _ {Db Broker : Type 0} where
  -- `start()`: each loop tests the signal and begins its first round before `start` returns.
  unfoldable pub start : OutboxRelay Db Broker → Result Fault (Unit {0}) × OutboxRelay Db Broker
  start relay = elim relay.task [
    | some t ↦ (err (error "Outbox relay is already running"), relay)
    | none ↦ (
      ok tt,
      record relay {
        task = some (record {
          aborted = false;
          publishing_at = working;
          sweeping_at = working;
          reporting_at = working;
        });
      },
    )
  ]

module _ {S : Type 0} (round : S → Phase × S) where
  -- A turn of a loop.
  unfoldable pub turn : Bool → Phase → S → Phase × S
  turn aborted testing s = (if aborted then ended else working, s)
  turn aborted working s = round s
  turn aborted (waiting ms) s = (waiting ms, s)
  turn aborted ended s = (ended, s)

module _ {Db Broker Bytes : Type 0} (store : OutboxStore Db) (clock : Db → ℕ)
    (js : Jetstream Broker Bytes) (encode : UserCreatedEvent → Bytes) (settings : RelaySettings)
    (worker_id : String) where
  abbrev State : Type 0
  State = RelayState Db Broker

  -- A round of each loop with the `wait` that follows it.
  abbrev pub publishing_round : Bool → State → Phase × State
  publishing_round aborted s =
      let r = run_round store clock js encode settings worker_id s in
      (if value r.0 == 0 then testing else wait (value r.0) aborted, r.1)

  abbrev pub sweeping_round : Bool → State → Phase × State
  sweeping_round aborted s =
      let r = cleanup_round store clock js encode settings worker_id s in
      (wait settings.cleanup_interval_ms aborted, r.1)

  abbrev pub reporting_round : Bool → State → Phase × State
  reporting_round aborted s =
      let r = metrics_round store clock js encode settings worker_id s in
      (wait settings.metrics_interval_ms aborted, r.1)

  -- The turn of a loop in a task.
  unfoldable pub advance : Loop → Task × State → Task × State
  unfolding turn
  advance publishing (t, s) =
      let r = turn (publishing_round t.aborted) t.aborted t.publishing_at s in
      (record t { publishing_at = r.0 }, r.1)
  advance sweeping (t, s) =
      let r = turn (sweeping_round t.aborted) t.aborted t.sweeping_at s in
      (record t { sweeping_at = r.0 }, r.1)
  advance reporting (t, s) =
      let r = turn (reporting_round t.aborted) t.aborted t.reporting_at s in
      (record t { reporting_at = r.0 }, r.1)

  unfoldable pub step : Turn → Task × State → Task × State
  unfolding advance expire
  step (resumes loop) x = advance loop x
  step (fires loop) (t, s) = (expire loop t, s)

  unfoldable pub advance_all : List Turn → Task × State → Task × State
  unfolding step
  advance_all [] x = x
  advance_all (k ∷ ks) x = advance_all ks (step k x)

  -- The part of `stop` behind the `await` of the task.
  abbrev settled : OutboxRelay Db Broker → Task × State → Option (OutboxRelay Db Broker)
  settled relay (t, s) = if is_done t then some (record relay { state = s; task = none }) else none

  -- `stop()`, while the process has the given turns: none if it does not return within them.
  unfoldable pub stop : List Turn → OutboxRelay Db Broker → Option (OutboxRelay Db Broker)
  unfolding advance_all abort
  stop turns relay = elim relay.task [
    | none ↦ some relay
    | some t ↦ settled relay (advance_all turns (abort t, relay.state))
  ]

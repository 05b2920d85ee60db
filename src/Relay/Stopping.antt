-- ===== src/Relay/Stopping.antt =====
-- That the outbox relay stops, and with which effect: apps/user-service/src/outbox/outbox.relay.ts.
use trams_assignment.Base.{
  ℕ, ◌≤◌, ◌≡◌, refl, inl, inr, Bool, true, false, Option, none, some, List, [], ◌∷◌, String, ok,
  err, Option-cases, subst, sym,
}
use trams_assignment.Contracts.{UserCreatedEvent}
use trams_assignment.Database.{error}
use trams_assignment.Messaging.Publisher.{Jetstream}
use trams_assignment.Outbox.{OutboxStore}
use trams_assignment.Relay.{RelaySettings, RelayState, run_round, cleanup_round, metrics_round}
use trams_assignment.Relay.Running.{
  Phase, testing, working, waiting, ended, Loop, publishing, sweeping, reporting, Turn, resumes,
  fires, Task, OutboxRelay, finished, abort, expire, step, is_working, turn, publishing_round,
  sweeping_round, reporting_round, advance, advance_all, is_done, start, stop,
}
use trams_assignment.Relay.Turns.{turns, if_same, step-aborted, advance_all-is_ended}

-- The end of a wait begins no round.
finished-is_working : (p : Phase) → is_working (finished p) ≡ is_working p
finished-is_working testing = refl
finished-is_working working = refl
finished-is_working (waiting ms) = refl
finished-is_working ended = refl

module _ {Db Broker Bytes : Type 0} (store : OutboxStore Db) (clock : Db → ℕ)
    (js : Jetstream Broker Bytes) (encode : UserCreatedEvent → Bytes) (settings : RelaySettings)
    (worker_id : String) where
  abbrev State : Type 0
  State = RelayState Db Broker

  abbrev stepped : Turn → Task × State → Task × State
  stepped = step store clock js encode settings worker_id

  abbrev advanced_all : List Turn → Task × State → Task × State
  advanced_all = advance_all store clock js encode settings worker_id

  -- At most one round of each loop that is said to be in one, in some order.
  pub data Finishes : Bool → Bool → Bool → State → State → Type 0 where
    nothing : {p c m : Bool} {s : State} → Finishes p c m s s
    publishes :
        {p c m : Bool} {s s' : State}
        → p ≡ true
        → Finishes false c m (run_round store clock js encode settings worker_id s).1 s'
        → Finishes p c m s s'
    sweeps :
        {p c m : Bool} {s s' : State}
        → c ≡ true
        → Finishes p false m (cleanup_round store clock js encode settings worker_id s).1 s'
        → Finishes p c m s s'
    reports :
        {p c m : Bool} {s s' : State}
        → m ≡ true
        → Finishes p c false (metrics_round store clock js encode settings worker_id s).1 s'
        → Finishes p c m s s'

  -- What a turn of a loop under an aborted signal adds.
  publishing_turn-Finishes :
      (p : Phase) {c m : Bool} (s : State) {s' : State}
      → let x = turn (publishing_round store clock js encode settings worker_id true) true p s in
        Finishes (is_working x.0) c m x.1 s' → Finishes (is_working p) c m s s'
  unfolding turn
  publishing_turn-Finishes testing s f = f
  publishing_turn-Finishes working {c} {m} s {s'} f = publishes refl (
      subst
        (λ q.
          Finishes (is_working q) c m (run_round store clock js encode settings worker_id s).1 s')
        (if_same _ testing) f)
  publishing_turn-Finishes (waiting ms) s f = f
  publishing_turn-Finishes ended s f = f

  sweeping_turn-Finishes :
      (c : Phase) {p m : Bool} (s : State) {s' : State}
      → let x = turn (sweeping_round store clock js encode settings worker_id true) true c s in
        Finishes p (is_working x.0) m x.1 s' → Finishes p (is_working c) m s s'
  unfolding turn
  sweeping_turn-Finishes testing s f = f
  sweeping_turn-Finishes working s f = sweeps refl f
  sweeping_turn-Finishes (waiting ms) s f = f
  sweeping_turn-Finishes ended s f = f

  reporting_turn-Finishes :
      (m : Phase) {p c : Bool} (s : State) {s' : State}
      → let x = turn (reporting_round store clock js encode settings worker_id true) true m s in
        Finishes p c (is_working x.0) x.1 s' → Finishes p c (is_working m) s s'
  unfolding turn
  reporting_turn-Finishes testing s f = f
  reporting_turn-Finishes working s f = reports refl f
  reporting_turn-Finishes (waiting ms) s f = f
  reporting_turn-Finishes ended s f = f

  abbrev pub FinishesFrom : Task → State → State → Type 0
  FinishesFrom t =
      Finishes (is_working t.publishing_at) (is_working t.sweeping_at) (is_working t.reporting_at)

  step-Finishes :
      (k : Turn) (t : Task) (s s' : State)
      → t.aborted ≡ true
      → FinishesFrom (stepped k (t, s)).0 (stepped k (t, s)).1 s'
      → FinishesFrom t s s'
  unfolding step advance expire
  step-Finishes (resumes publishing) t s s' h =
      rw h (λ f. publishing_turn-Finishes t.publishing_at s f)
  step-Finishes (resumes sweeping) t s s' h = rw h (λ f. sweeping_turn-Finishes t.sweeping_at s f)
  step-Finishes (resumes reporting) t s s' h =
      rw h (λ f. reporting_turn-Finishes t.reporting_at s f)
  step-Finishes (fires publishing) t s s' h = rw (finished-is_working t.publishing_at) (λ f. f)
  step-Finishes (fires sweeping) t s s' h = rw (finished-is_working t.sweeping_at) (λ f. f)
  step-Finishes (fires reporting) t s s' h = rw (finished-is_working t.reporting_at) (λ f. f)

  advance_all-Finishes :
      (ks : List Turn) (t : Task) (s : State)
      → t.aborted ≡ true
      → FinishesFrom t s (advanced_all ks (t, s)).1
  unfolding advance_all
  advance_all-Finishes [] t s h = nothing
  advance_all-Finishes (k ∷ ks) t s h = step-Finishes k t s _ h (
      advance_all-Finishes ks (stepped k (t, s)).0 (stepped k (t, s)).1
        (rw (step-aborted store clock js encode settings worker_id k t s) h))

  abort-Finishes :
      (ks : List Turn) (t : Task) (s : State) → FinishesFrom t s (advanced_all ks (abort t, s)).1
  unfolding abort
  abort-Finishes ks t s =
      rw
        (
          ← finished-is_working t.publishing_at,
          ← finished-is_working t.sweeping_at,
          ← finished-is_working t.reporting_at,
        )
        (advance_all-Finishes ks (abort t) s refl)

  -- What `stop` leaves of a relay, by its task.
  abbrev pub IsStopped : Option Task → OutboxRelay Db Broker → OutboxRelay Db Broker → Type 0
  IsStopped none relay later = (later ≡ relay) × ((start relay).0 ≡ ok tt)
  IsStopped (some t) relay later =
      (start relay ≡ (err (error "Outbox relay is already running"), relay))
      × FinishesFrom t relay.state later.state
      × (later.task ≡ none)
      × ((start later).0 ≡ ok tt)

  all_ended :
      (ks : List Turn) (t : Task) (s : State)
      → ((l : Loop) → 2 ≤ turns l ks)
      → is_done (advanced_all ks (abort t, s)).0 ≡ true
  all_ended ks t s fair = rw (
    advance_all-is_ended store clock js encode settings worker_id publishing ks t s
        (fair publishing),
    advance_all-is_ended store clock js encode settings worker_id sweeping ks t s (fair sweeping),
    advance_all-is_ended store clock js encode settings worker_id reporting ks t s (fair reporting),
  )

  -- `stop` of a relay returns once each of the three loops has been resumed twice, in any order and
  -- among whatever other turns: no timer has to fire, so that no wait, however long, delays it. Where the relay has a task, `start` throws
  -- and changes nothing; `stop` leaves a relay with no task, of which `start` does not throw, and by
  -- then each loop has carried out at most the round that it was in when `stop` was called, in full,
  -- and has begun no other. Where it has none, `stop` changes nothing, and `start` does not throw.
  pub stop-returns :
      (ks : List Turn) (relay : OutboxRelay Db Broker)
      → ((l : Loop) → 2 ≤ turns l ks)
      → (later : OutboxRelay Db Broker) × (stop store clock js encode settings worker_id ks relay
          ≡ some later)
        × IsStopped relay.task relay later
  unfolding stop start
  stop-returns ks relay fair = elim (Option-cases relay.task) [
    | inl idle ↦ (relay, rw idle, subst (λ o. IsStopped o relay relay) (sym idle) (refl, rw idle))
    | inr (t, running) ↦
        let later : OutboxRelay Db Broker = record relay {
          state = (advanced_all ks (abort t, relay.state)).1;
          task = none;
        } in
        (
          later,
          rw (running, all_ended ks t relay.state fair),
          subst (λ o. IsStopped o relay later) (sym running)
              (rw running, abort-Finishes ks t relay.state, refl, refl),
        )
  ]

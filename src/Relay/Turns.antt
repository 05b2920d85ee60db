-- ===== src/Relay/Turns.antt =====
-- The turns of the loops of the outbox relay, apps/user-service/src/outbox/outbox.relay.ts, once the
-- signal is aborted.
use trams_assignment.Base.{
  ℕ, ◌+◌, ◌-◌, ◌≤◌, ◌≡◌, refl, Bool, true, false, List, [], ◌∷◌, String, if◌then◌else◌, arith,
}
use trams_assignment.Contracts.{UserCreatedEvent}
use trams_assignment.Messaging.Publisher.{Jetstream}
use trams_assignment.Outbox.{OutboxStore}
use trams_assignment.Relay.{RelaySettings, RelayState}
use trams_assignment.Relay.Running.{
  Phase, testing, working, waiting, ended, Loop, publishing, sweeping, reporting, Turn, resumes,
  fires, Task, is_ended, finished, abort, expire, turn, publishing_round, sweeping_round,
  reporting_round, advance, step, advance_all,
}

abbrev pub phase_at : Loop → Task → Phase
phase_at publishing t = t.publishing_at
phase_at sweeping t = t.sweeping_at
phase_at reporting t = t.reporting_at

abbrev pub is_waiting : Phase → Bool
is_waiting testing = false
is_waiting working = false
is_waiting (waiting ms) = true
is_waiting ended = false

-- The turns that a loop that does not wait still takes under an aborted signal.
abbrev left : Phase → ℕ
left testing = 1
left working = 2
left (waiting ms) = 2
left ended = 0

abbrev pub hit : Loop → Turn → ℕ
hit publishing (resumes publishing) = 1
hit sweeping (resumes sweeping) = 1
hit reporting (resumes reporting) = 1
hit _ _ = 0

-- The turns of a loop in a schedule.
abbrev pub turns : Loop → List Turn → ℕ
turns l [] = 0
turns l (k ∷ ks) = hit l k + turns l ks

left-is_ended : (p : Phase) → left p ≤ 0 → is_ended p ≡ true
left-is_ended testing h = absurd (omega arith)
left-is_ended working h = absurd (omega arith)
left-is_ended (waiting ms) h = absurd (omega arith)
left-is_ended ended h = refl

left-le-two : (p : Phase) → left p ≤ 2
left-le-two testing = omega arith
left-le-two working = omega arith
left-le-two (waiting ms) = omega arith
left-le-two ended = omega arith

pub if_same {ℓ} : {A : Type ℓ} (b : Bool) (x : A) → (if b then x else x) ≡ x
if_same true x = refl
if_same false x = refl

module _ {S : Type 0} (round : S → Phase × S) (again : (s : S) → (round s).0 ≡ testing) where
  -- Under an aborted signal each turn brings a loop closer to its end, and none begins to wait.
  turn-left :
      (p : Phase) (s : S)
      → is_waiting p ≡ false
      → (left (turn round true p s).0 ≤ left p - 1) × (is_waiting (turn round true p s).0 ≡ false)
  unfolding turn
  turn-left testing s h = (omega arith, refl)
  turn-left working s h = rw (again s) (omega arith, refl)
  turn-left (waiting ms) s h = absurd (ground arith)
  turn-left ended s h = (omega arith, refl)

finished-is_waiting : (p : Phase) → is_waiting (finished p) ≡ false
finished-is_waiting testing = refl
finished-is_waiting working = refl
finished-is_waiting (waiting ms) = refl
finished-is_waiting ended = refl

finished-left : (p : Phase) → is_waiting p ≡ false → left (finished p) ≤ left p
finished-left testing h = omega arith
finished-left working h = omega arith
finished-left (waiting ms) h = absurd (ground arith)
finished-left ended h = omega arith

module _ {Db Broker Bytes : Type 0} (store : OutboxStore Db) (clock : Db → ℕ)
    (js : Jetstream Broker Bytes) (encode : UserCreatedEvent → Bytes) (settings : RelaySettings)
    (worker_id : String) where
  abbrev pub State : Type 0
  State = RelayState Db Broker

  abbrev pub stepped : Turn → Task × State → Task × State
  stepped = step store clock js encode settings worker_id

  abbrev pub advanced_all : List Turn → Task × State → Task × State
  advanced_all = advance_all store clock js encode settings worker_id

  pub step-aborted : (k : Turn) (t : Task) (s : State) → (stepped k (t, s)).0.aborted ≡ t.aborted
  unfolding step advance expire
  step-aborted (resumes publishing) t s = refl
  step-aborted (resumes sweeping) t s = refl
  step-aborted (resumes reporting) t s = refl
  step-aborted (fires publishing) t s = refl
  step-aborted (fires sweeping) t s = refl
  step-aborted (fires reporting) t s = refl

  -- A loop that does not wait is closer to its end after a step, by its turns in it.
  abbrev Nears : Loop → Turn → Task → State → Type 0
  Nears l k t s =
      (left (phase_at l (stepped k (t, s)).0) ≤ left (phase_at l t) - hit l k)
      × (is_waiting (phase_at l (stepped k (t, s)).0) ≡ false)

  step-left :
      (l : Loop) (k : Turn) (t : Task) (s : State)
      → t.aborted ≡ true
      → is_waiting (phase_at l t) ≡ false
      → Nears l k t s
  unfolding step advance expire
  step-left publishing (resumes publishing) t s h w = rw h (
      turn-left (publishing_round store clock js encode settings worker_id true)
        (λ s. if_same _ testing) t.publishing_at s w)
  step-left publishing (resumes sweeping) t s h w = (omega arith, w)
  step-left publishing (resumes reporting) t s h w = (omega arith, w)
  step-left publishing (fires publishing) t s h w =
      (omega (arith, finished-left t.publishing_at w), finished-is_waiting t.publishing_at)
  step-left publishing (fires sweeping) t s h w = (omega arith, w)
  step-left publishing (fires reporting) t s h w = (omega arith, w)
  step-left sweeping (resumes sweeping) t s h w = rw h (
      turn-left (sweeping_round store clock js encode settings worker_id true) (λ s. refl)
        t.sweeping_at s w)
  step-left sweeping (resumes publishing) t s h w = (omega arith, w)
  step-left sweeping (resumes reporting) t s h w = (omega arith, w)
  step-left sweeping (fires sweeping) t s h w =
      (omega (arith, finished-left t.sweeping_at w), finished-is_waiting t.sweeping_at)
  step-left sweeping (fires publishing) t s h w = (omega arith, w)
  step-left sweeping (fires reporting) t s h w = (omega arith, w)
  step-left reporting (resumes reporting) t s h w = rw h (
      turn-left (reporting_round store clock js encode settings worker_id true) (λ s. refl)
        t.reporting_at s w)
  step-left reporting (resumes publishing) t s h w = (omega arith, w)
  step-left reporting (resumes sweeping) t s h w = (omega arith, w)
  step-left reporting (fires reporting) t s h w =
      (omega (arith, finished-left t.reporting_at w), finished-is_waiting t.reporting_at)
  step-left reporting (fires publishing) t s h w = (omega arith, w)
  step-left reporting (fires sweeping) t s h w = (omega arith, w)

  advance_all-left :
      (l : Loop) (ks : List Turn) (t : Task) (s : State)
      → t.aborted ≡ true
      → is_waiting (phase_at l t) ≡ false
      → left (phase_at l (advanced_all ks (t, s)).0) ≤ left (phase_at l t) - turns l ks
  unfolding advance_all
  advance_all-left l [] t s h w = omega arith
  advance_all-left l (k ∷ ks) t s h w =
      let (less, on) = step-left l k t s h w in
      omega (
        arith,
        less,
        advance_all-left l ks (stepped k (t, s)).0 (stepped k (t, s)).1 (rw (step-aborted k t s) h)
            on,
      )

  phase_at-abort : (l : Loop) (t : Task) → is_waiting (phase_at l (abort t)) ≡ false
  unfolding abort
  phase_at-abort publishing t = finished-is_waiting t.publishing_at
  phase_at-abort sweeping t = finished-is_waiting t.sweeping_at
  phase_at-abort reporting t = finished-is_waiting t.reporting_at

  -- After the abort two turns end a loop.
  pub advance_all-is_ended :
      (l : Loop) (ks : List Turn) (t : Task) (s : State)
      → 2 ≤ turns l ks
      → is_ended (phase_at l (advanced_all ks (abort t, s)).0) ≡ true
  unfolding abort
  advance_all-is_ended l ks t s enough = left-is_ended _ (
      omega (
        arith,
        advance_all-left l ks (abort t) s refl (phase_at-abort l t),
        left-le-two (phase_at l (abort t)),
      ))

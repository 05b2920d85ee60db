-- ===== src/Processes/Signals/Ending.antt =====
-- How a process ends: the main.ts of apps/user-service/src, apps/notification-service/src and
-- apps/api-gateway/src.
use trams_assignment.Base.{
  ◌+◌, ◌≤◌, ◌≡◌, refl, sym, ap, ◌∙◌, subst, ◌⊎◌, inl, inr, true, false, Bool-cases, some, List, [],
  ◌∷◌, if◌then◌else◌, M, Result, ok, err, arith,
}
use trams_assignment.Database.{Fault}
use trams_assignment.Processes.Signals.{
  Signal, sigint, sigterm, ShutdownPromise, absent, pending, settled, Happening, arrives, settles,
  Running, asked, on_shutdown, heard, finish, happened, happen_all, just_started, started, run_main,
}
use trams_assignment.Processes.Signals.Stages.{
  arrivals, ends_in, is_shut_in, is_absent, is_settled, listens, unlistened, Stage, IsThere,
  IsSettled, IsAt, happened-IsAt, happen_all-dead_next, happen_all-alive_next, happen_all-dead,
  happen_all-keeps,
}
use trams_assignment.Processes.Signals.Killing.{heard-left, killed-IsTwice}

module _ {World : Type 0} (close : M World Fault (Unit {0})) where
  asked-IsThere : (q : ShutdownPromise) (p : Running World) → IsThere (asked q p)
  asked-IsThere absent p = refl
  asked-IsThere pending p = refl
  asked-IsThere (settled r) p = refl

  asked-IsSettled :
      (q : ShutdownPromise) (p : Running World) → is_settled q ≡ true → IsSettled (asked q p)
  asked-IsSettled absent p h = absurd (ground arith)
  asked-IsSettled pending p h = absurd (ground arith)
  asked-IsSettled (settled r) p h = refl

  finish-IsSettled :
      (q : ShutdownPromise) (p : Running World)
      → p.shutdown_promise ≡ q
      → is_absent q ≡ false
      → IsSettled (finish close q p)
  finish-IsSettled absent p is h = absurd (ground arith)
  finish-IsSettled pending p is h = refl
  finish-IsSettled (settled r) p is h = ap is_settled is

  finish-absent :
      (q : ShutdownPromise) (p : Running World)
      → p.shutdown_promise ≡ q
      → is_absent q ≡ true
      → is_absent (finish close q p).shutdown_promise ≡ true
  finish-absent absent p is h = ap is_absent is
  finish-absent pending p is h = absurd (ground arith)
  finish-absent (settled r) p is h = absurd (ground arith)

  heard-gone :
      (signal : Signal) (p : Running World)
      → listens signal p ≡ false
      → heard signal p ≡ record p { killed = true }
  heard-gone sigint p gone =
      ap (λ b. if b then on_shutdown (unlistened sigint p) else record p { killed = true }) gone
  heard-gone sigterm p gone =
      ap (λ b. if b then on_shutdown (unlistened sigterm p) else record p { killed = true }) gone

  unlistened-promise :
      (signal : Signal) (p : Running World)
      → (unlistened signal p).shutdown_promise ≡ p.shutdown_promise
  unlistened-promise sigint p = refl
  unlistened-promise sigterm p = refl

  -- A signal begins the shutdown or ends the process.
  heard_cases :
      (signal : Signal) (p : Running World)
      → IsThere (heard signal p) ⊎ ((heard signal p).killed ≡ true)
  heard_cases signal p = elim (Bool-cases (listens signal p)) [
    | inl left ↦ inl (
        subst IsThere (sym (heard-left close signal p left))
          (asked-IsThere (unlistened signal p).shutdown_promise (unlistened signal p)))
    | inr gone ↦ inr (ap (λ x. x.killed) (heard-gone signal p gone))
  ]

  settled-is_there : (q : ShutdownPromise) → is_settled q ≡ true → is_absent q ≡ false
  settled-is_there absent h = absurd (ground arith)
  settled-is_there pending h = refl
  settled-is_there (settled r) h = refl

  heard-IsSettled : (signal : Signal) (p : Running World) → IsSettled p → IsSettled (heard signal p)
  heard-IsSettled signal p h = elim (Bool-cases (listens signal p)) [
    | inl left ↦ subst IsSettled (sym (heard-left close signal p left)) (
        asked-IsSettled (unlistened signal p).shutdown_promise (unlistened signal p)
          (ap is_settled (unlistened-promise signal p) ∙ h))
    | inr gone ↦ subst IsSettled (sym (heard-gone signal p gone)) h
  ]

  happened-IsSettled :
      (h : Happening) (p : Running World) → IsSettled p → IsSettled (happened close h p)
  happened-IsSettled (arrives signal) p is = heard-IsSettled signal p is
  happened-IsSettled settles p is =
      finish-IsSettled p.shutdown_promise p refl (settled-is_there p.shutdown_promise is)

  -- A process that is not killed was not before.
  still_alive :
      (hs : List Happening) (p : Running World)
      → (happen_all close hs p).killed ≡ false
      → p.killed ≡ false
  still_alive hs p alive = elim (Bool-cases p.killed) [
    | inl dead ↦
        absurd (ground (arith, dead, ap (λ x. x.killed) (happen_all-dead close hs p dead), alive))
    | inr was ↦ was
  ]

  ended-IsSettled :
      (hs : List Happening) (p : Running World)
      → IsThere p
      → ends_in hs ≡ true
      → (happen_all close hs p).killed ≡ false
      → IsSettled (happen_all close hs p)
  ended-IsSettled [] p there ends alive = absurd (ground arith)
  ended-IsSettled (settles ∷ hs) p there ends alive =
      let next = happen_all-alive_next close settles hs p (still_alive (settles ∷ hs) p alive) in
      subst IsSettled (sym next) (
        happen_all-keeps close IsSettled hs (happened close settles p) happened-IsSettled
          (finish-IsSettled p.shutdown_promise p refl there))
  ended-IsSettled (arrives signal ∷ hs) p there ends alive =
      let next =
        happen_all-alive_next close (arrives signal) hs p
          (still_alive (arrives signal ∷ hs) p alive) in
      let alive' = ap (λ x. x.killed) (sym next) ∙ alive in
      subst IsSettled (sym next) (elim (heard_cases signal p) [
        | inl on ↦ ended-IsSettled hs (heard signal p) on ends alive'
        | inr dead ↦ absurd (ground (arith, dead, still_alive hs (heard signal p) alive'))
      ])

  shut-IsSettled :
      (hs : List Happening) (p : Running World)
      → is_shut_in hs ≡ true
      → (happen_all close hs p).killed ≡ false
      → IsSettled (happen_all close hs p)
  shut-IsSettled [] p ends alive = absurd (ground arith)
  shut-IsSettled (settles ∷ hs) p ends alive =
      let next = happen_all-alive_next close settles hs p (still_alive (settles ∷ hs) p alive) in
      subst IsSettled (sym next)
        (shut-IsSettled hs (happened close settles p) ends (ap (λ x. x.killed) (sym next) ∙ alive))
  shut-IsSettled (arrives signal ∷ hs) p ends alive =
      let next =
        happen_all-alive_next close (arrives signal) hs p
          (still_alive (arrives signal ∷ hs) p alive) in
      let alive' = ap (λ x. x.killed) (sym next) ∙ alive in
      subst IsSettled (sym next) (elim (heard_cases signal p) [
        | inl on ↦ ended-IsSettled hs (heard signal p) on ends alive'
        | inr dead ↦ absurd (ground (arith, dead, still_alive hs (heard signal p) alive'))
      ])

  quiet-absent :
      (hs : List Happening) (p : Running World)
      → arrivals sigint hs + arrivals sigterm hs ≡ 0
      → is_absent p.shutdown_promise ≡ true
      → is_absent (happen_all close hs p).shutdown_promise ≡ true
  unfolding happen_all
  quiet-absent [] p quiet h = h
  quiet-absent (arrives sigint ∷ hs) p quiet h = absurd (omega (arith, quiet))
  quiet-absent (arrives sigterm ∷ hs) p quiet h = absurd (omega (arith, quiet))
  quiet-absent (settles ∷ hs) p quiet h = elim (Bool-cases p.killed) [
    | inl dead ↦
        subst (λ x. is_absent x.shutdown_promise ≡ true)
          (sym (happen_all-dead_next close settles hs p dead))
          (quiet-absent hs p (omega (arith, quiet)) h)
    | inr alive ↦
        subst (λ x. is_absent x.shutdown_promise ≡ true)
          (sym (happen_all-alive_next close settles hs p alive))
          (quiet-absent hs (happened close settles p) (omega (arith, quiet))
            (finish-absent p.shutdown_promise p refl h))
  ]

  -- Where a process is that has started in the state `w`, after what has happened.
  pub record IsRun (w : World) (hs : List Happening) (p : Running World) : Type 0 where
    pub stage : Stage close w p.shutdown_promise p.world p.exit_code
    pub quiet : arrivals sigint hs + arrivals sigterm hs ≡ 0 → is_absent p.shutdown_promise ≡ true
    pub twice : p.killed ≡ true → (2 ≤ arrivals sigint hs) ⊎ (2 ≤ arrivals sigterm hs)
    pub shut : is_shut_in hs ≡ true → p.killed ≡ false → is_settled p.shutdown_promise ≡ true

  happen_all-IsRun :
      (hs : List Happening) (w : World) → IsRun w hs (happen_all close hs (just_started w))
  happen_all-IsRun hs w =
      let p : Running World = just_started w in
      record {
        stage =
            happen_all-keeps close (IsAt close w) hs p (λ h p at. happened-IsAt close h w p at)
              (refl, refl);
        quiet = λ h. quiet-absent hs p h refl;
        twice = λ dead. elim (killed-IsTwice close hs p refl dead) [
          | inl two ↦ inl (omega (arith, two))
          | inr two ↦ inr (omega (arith, two))
        ];
        shut = shut-IsSettled hs p;
      }

module _ {World : Type 0} where
  -- How a process ends, by how its start has ended.
  abbrev pub IsEnded :
      Result Fault (M World Fault (Unit {0})) × World → List Happening → Running World → Type 0
  IsEnded (err e, w) hs p =
      (p.world ≡ w) × (p.exit_code ≡ some 1) × (is_absent p.shutdown_promise ≡ true)
  IsEnded (ok close, w) hs p = IsRun close w hs p

  started-IsEnded :
      (x : Result Fault (M World Fault (Unit {0})) × World) (hs : List Happening)
      → IsEnded x hs (started x hs)
  started-IsEnded (err e, w) hs = (refl, refl, refl)
  started-IsEnded (ok close, w) hs = happen_all-IsRun close hs w

  -- A process whose start fails has exit code 1 and shuts nothing down. One that has started shuts
  -- nothing down until a signal arrives. However signals of both kinds arrive, before, during and after
  -- the shutdown, it is carried out at most once, on the state that the start has left, and once it has
  -- come to its end the exit code is 1 if it has failed and is not set if not. A process is killed, be
  -- it in the middle of its shutdown, only if one signal has arrived twice. If it is not killed,
  -- and the shutdown that a signal has asked for has come to its end, it has been carried out.
  pub run_main-IsEnded :
      (start : M World Fault (M World Fault (Unit {0}))) (hs : List Happening) (w : World)
      → IsEnded (start w) hs (run_main start hs w)
  unfolding run_main
  run_main-IsEnded start hs w = started-IsEnded (start w) hs

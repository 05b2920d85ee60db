-- ===== src/Processes/Signals/Stages.antt =====
-- How far the shutdown of a process is, the main.ts of apps/user-service/src,
-- apps/notification-service/src and apps/api-gateway/src.
use trams_assignment.Base.{
  ℕ, ◌+◌, ◌≡◌, refl, sym, ap, ◌∙◌, subst, inl, inr, Bool, true, false, Bool-cases, Option, none,
  some, List, [], ◌∷◌, if◌then◌else◌, M, Result, ok, err,
}
use trams_assignment.Database.{Fault}
use trams_assignment.Processes.Signals.{
  Signal, sigint, sigterm, ShutdownPromise, absent, pending, settled, Happening, arrives, settles,
  Running, failed, asked, heard, finish, happened, happen, happen_all,
}

abbrev same_signal : Signal → Happening → ℕ
same_signal sigint (arrives sigint) = 1
same_signal sigterm (arrives sigterm) = 1
same_signal _ _ = 0

-- How often a signal arrives.
abbrev pub arrivals : Signal → List Happening → ℕ
arrivals signal [] = 0
arrivals signal (h ∷ hs) = same_signal signal h + arrivals signal hs

abbrev pub ends_in : List Happening → Bool
ends_in [] = false
ends_in (settles ∷ hs) = true
ends_in (arrives signal ∷ hs) = ends_in hs

-- A signal arrives, and later a shutdown comes to its end.
abbrev pub is_shut_in : List Happening → Bool
is_shut_in [] = false
is_shut_in (settles ∷ hs) = is_shut_in hs
is_shut_in (arrives signal ∷ hs) = ends_in hs

abbrev pub is_absent : ShutdownPromise → Bool
is_absent absent = true
is_absent pending = false
is_absent (settled r) = false

abbrev pub is_settled : ShutdownPromise → Bool
is_settled absent = false
is_settled pending = false
is_settled (settled r) = true

-- One for a listener that has been used.
abbrev pub used : Bool → ℕ
used true = 0
used false = 1

abbrev pub listens : {World : Type 0} → Signal → Running World → Bool
listens sigint p = p.on_sigint
listens sigterm p = p.on_sigterm

abbrev pub unlistened : {World : Type 0} → Signal → Running World → Running World
unlistened sigint p = record p { on_sigint = false }
unlistened sigterm p = record p { on_sigterm = false }

abbrev pub IsThere : {World : Type 0} → Running World → Type 0
IsThere p = is_absent p.shutdown_promise ≡ false

abbrev pub IsSettled : {World : Type 0} → Running World → Type 0
IsSettled p = is_settled p.shutdown_promise ≡ true

module _ {World : Type 0} (close : M World Fault (Unit {0})) where
  -- How far the shutdown is. Until it has come to its end nothing is changed; then the state is the one
  -- that it leaves, carried out once on the state of the start, and the exit code is 1 if it has failed
  -- and not set if not.
  abbrev pub Stage : World → ShutdownPromise → World → Option ℕ → Type 0
  Stage w absent v code = (v ≡ w) × (code ≡ none)
  Stage w pending v code = (v ≡ w) × (code ≡ none)
  Stage w (settled (ok done)) v code = (close w ≡ (ok done, v)) × (code ≡ none)
  Stage w (settled (err e)) v code = (close w ≡ (err e, v)) × (code ≡ some 1)

  abbrev pub IsAt : World → Running World → Type 0
  IsAt w p = Stage w p.shutdown_promise p.world p.exit_code

  asked-IsAt :
      (w : World) (q : ShutdownPromise) (p : Running World)
      → Stage w q p.world p.exit_code
      → IsAt w (asked q p)
  asked-IsAt w absent p h = h
  asked-IsAt w pending p h = h
  asked-IsAt w (settled (ok done)) p h = h
  asked-IsAt w (settled (err e)) p (ran, code) = (ran, refl)

  closed-Stage :
      (w v : World) (code : Option ℕ) (x : Result Fault (Unit {0}) × World)
      → close w ≡ x
      → code ≡ none
      → Stage w (settled x.0) x.1 (failed x.0 code)
  closed-Stage w v code (ok done, v') ran h = (ran, h)
  closed-Stage w v code (err e, v') ran h = (ran, refl)

  finish-IsAt :
      (w : World) (q : ShutdownPromise) (p : Running World)
      → p.shutdown_promise ≡ q
      → Stage w q p.world p.exit_code
      → IsAt w (finish close q p)
  finish-IsAt w absent p is h = subst (λ q. Stage w q p.world p.exit_code) (sym is) h
  finish-IsAt w pending p is (same, code) =
      closed-Stage w p.world p.exit_code (close p.world) (ap close (sym same)) code
  finish-IsAt w (settled r) p is h = subst (λ q. Stage w q p.world p.exit_code) (sym is) h

  heard-IsAt :
      (signal : Signal) (w : World) (p : Running World) → IsAt w p → IsAt w (heard signal p)
  heard-IsAt sigint w p h = elim (Bool-cases p.on_sigint) [
    | inl left ↦ rw left (asked-IsAt w p.shutdown_promise (record p { on_sigint = false }) h)
    | inr gone ↦ rw gone h
  ]
  heard-IsAt sigterm w p h = elim (Bool-cases p.on_sigterm) [
    | inl left ↦ rw left (asked-IsAt w p.shutdown_promise (record p { on_sigterm = false }) h)
    | inr gone ↦ rw gone h
  ]

  pub happened-IsAt :
      (h : Happening) (w : World) (p : Running World) → IsAt w p → IsAt w (happened close h p)
  happened-IsAt (arrives signal) w p at = heard-IsAt signal w p at
  happened-IsAt settles w p at = finish-IsAt w p.shutdown_promise p refl at

  happen-dead : (h : Happening) (p : Running World) → p.killed ≡ true → happen close h p ≡ p
  unfolding happen
  happen-dead h p dead = ap (λ b. if b then p else happened close h p) dead

  happen-alive :
      (h : Happening) (p : Running World) → p.killed ≡ false → happen close h p ≡ happened close h p
  unfolding happen
  happen-alive h p alive = ap (λ b. if b then p else happened close h p) alive

  pub happen_all-dead_next :
      (h : Happening) (hs : List Happening) (p : Running World)
      → p.killed ≡ true
      → happen_all close (h ∷ hs) p ≡ happen_all close hs p
  unfolding happen_all
  happen_all-dead_next h hs p dead = ap (happen_all close hs) (happen-dead h p dead)

  pub happen_all-alive_next :
      (h : Happening) (hs : List Happening) (p : Running World)
      → p.killed ≡ false
      → happen_all close (h ∷ hs) p ≡ happen_all close hs (happened close h p)
  unfolding happen_all
  happen_all-alive_next h hs p alive = ap (happen_all close hs) (happen-alive h p alive)

  pub happen_all-dead :
      (hs : List Happening) (p : Running World) → p.killed ≡ true → happen_all close hs p ≡ p
  unfolding happen_all
  happen_all-dead [] p dead = refl
  happen_all-dead (h ∷ hs) p dead = happen_all-dead_next h hs p dead ∙ happen_all-dead hs p dead

  -- What every happening keeps, a process keeps.
  pub happen_all-keeps :
      (P : Running World → Type 0) (hs : List Happening) (p : Running World)
      → ((h : Happening) (p : Running World) → P p → P (happened close h p))
      → P p
      → P (happen_all close hs p)
  unfolding happen_all
  happen_all-keeps P [] p keeps at = at
  happen_all-keeps P (h ∷ hs) p keeps at = elim (Bool-cases p.killed) [
    | inl dead ↦ subst P (sym (happen_all-dead_next h hs p dead)) (happen_all-keeps P hs p keeps at)
    | inr alive ↦
        subst P (sym (happen_all-alive_next h hs p alive))
          (happen_all-keeps P hs (happened close h p) keeps (keeps h p at))
  ]

-- ===== src/Processes/Signals/Killing.antt =====
-- When a signal ends a process at once, the main.ts of apps/user-service/src,
-- apps/notification-service/src and apps/api-gateway/src.
use trams_assignment.Base.{
  ◌+◌, ◌≤◌, ◌≡◌, refl, sym, ap, ◌∙◌, ◌⊎◌, inl, inr, true, false, Bool-cases, List, [], ◌∷◌,
  if◌then◌else◌, M, arith,
}
use trams_assignment.Database.{Fault}
use trams_assignment.Processes.Signals.{
  Signal, sigint, sigterm, ShutdownPromise, absent, pending, settled, Happening, arrives, settles,
  Running, asked, on_shutdown, heard, finish, happened, happen_all,
}
use trams_assignment.Processes.Signals.Stages.{
  arrivals, used, listens, unlistened, happen_all-alive_next,
}

module _ {World : Type 0} (close : M World Fault (Unit {0})) where
  -- A process that is killed has got a signal twice, its listener counting as once if it is used.
  abbrev IsTwice : List Happening → Running World → Type 0
  IsTwice hs p =
      (2 ≤ arrivals sigint hs + used p.on_sigint) ⊎ (2 ≤ arrivals sigterm hs + used p.on_sigterm)

  asked-flags :
      (q : ShutdownPromise) (p : Running World)
      → ((asked q p).killed ≡ p.killed)
        × ((asked q p).on_sigint ≡ p.on_sigint)
        × ((asked q p).on_sigterm ≡ p.on_sigterm)
  asked-flags absent p = (refl, refl, refl)
  asked-flags pending p = (refl, refl, refl)
  asked-flags (settled r) p = (refl, refl, refl)

  finish-flags :
      (q : ShutdownPromise) (p : Running World)
      → ((finish close q p).killed ≡ p.killed)
        × ((finish close q p).on_sigint ≡ p.on_sigint)
        × ((finish close q p).on_sigterm ≡ p.on_sigterm)
  finish-flags absent p = (refl, refl, refl)
  finish-flags pending p = (refl, refl, refl)
  finish-flags (settled r) p = (refl, refl, refl)

  pub heard-left :
      (signal : Signal) (p : Running World)
      → listens signal p ≡ true
      → heard signal p ≡ on_shutdown (unlistened signal p)
  heard-left sigint p left =
      ap (λ b. if b then on_shutdown (unlistened sigint p) else record p { killed = true }) left
  heard-left sigterm p left =
      ap (λ b. if b then on_shutdown (unlistened sigterm p) else record p { killed = true }) left

  pub killed-IsTwice :
      (hs : List Happening) (p : Running World)
      → p.killed ≡ false
      → (happen_all close hs p).killed ≡ true
      → IsTwice hs p
  unfolding happen_all
  killed-IsTwice [] p alive dead = absurd (ground (arith, alive, dead))
  killed-IsTwice (settles ∷ hs) p alive dead =
      let q = happened close settles p in
      let (same, int, term) = finish-flags p.shutdown_promise p in
      let step = happen_all-alive_next close settles hs p alive in
      elim (killed-IsTwice hs q (same ∙ alive) (ap (λ x. x.killed) (sym step) ∙ dead)) [
        | inl twice ↦ inl (omega (arith, twice, ap used int))
        | inr twice ↦ inr (omega (arith, twice, ap used term))
      ]
  killed-IsTwice (arrives sigint ∷ hs) p alive dead = elim (Bool-cases p.on_sigint) [
    | inr gone ↦ inl (omega (arith, ap used gone))
    | inl left ↦
        let q = unlistened sigint p in
        let (same, int, term) = asked-flags p.shutdown_promise q in
        let step =
          happen_all-alive_next close (arrives sigint) hs p alive
          ∙ ap (happen_all close hs) (heard-left sigint p left) in
        elim (killed-IsTwice hs (on_shutdown q) (same ∙ alive)
          (ap (λ x. x.killed) (sym step) ∙ dead)) [
            | inl twice ↦ inl (omega (arith, twice, ap used int))
            | inr twice ↦ inr (omega (arith, twice, ap used term))
          ]
  ]
  killed-IsTwice (arrives sigterm ∷ hs) p alive dead = elim (Bool-cases p.on_sigterm) [
    | inr gone ↦ inr (omega (arith, ap used gone))
    | inl left ↦
        let q = unlistened sigterm p in
        let (same, int, term) = asked-flags p.shutdown_promise q in
        let step =
          happen_all-alive_next close (arrives sigterm) hs p alive
          ∙ ap (happen_all close hs) (heard-left sigterm p left) in
        elim (killed-IsTwice hs (on_shutdown q) (same ∙ alive)
          (ap (λ x. x.killed) (sym step) ∙ dead)) [
            | inl twice ↦ inl (omega (arith, twice, ap used int))
            | inr twice ↦ inr (omega (arith, twice, ap used term))
          ]
  ]

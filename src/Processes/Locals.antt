-- ===== src/Processes/Locals.antt =====
-- What the starts in the main.ts of apps/user-service/src and apps/notification-service/src share: a
-- local variable for each resource that is open, which the `catch` reads.
use trams_assignment.Base.{
  ◌≡◌, refl, Bool, List, ◌∷◌, if◌then◌else◌, M, ok, Ensures, Ensures-weaken, lift-Ensures,
}
use trams_assignment.Database.{Fault}
use trams_assignment.Processes.{Resource, Action, opened}

-- The state of a start: the world, and which of its local variables are defined.
pub record Starting (World Locals : Type 0) : Type 0 where
  pub world : World
  pub locals : Locals

module _ {World Locals : Type 0} where
  abbrev pub in_world : {A : Type 0} → M World Fault A → M (Starting World Locals) Fault A
  in_world m s = ((m s.world).0, record s { world = (m s.world).1 })

  abbrev pub assign : (Locals → Locals) → M (Starting World Locals) Fault (Unit {0})
  assign f s = (ok tt, record s { locals = f s.locals })

  module _ {A : Type 0} (log : World → List Action) (s : Starting World Locals)
      (m : M World Fault A) where
    -- A step of the start that opens a resource.
    pub opening-Ensures :
        (r : Resource)
        → ((w : World) → Ensures (λ _ w'. log w' ≡ opened r ∷ log w) (λ e w'. log w' ≡ log w) (m w))
        → Ensures
            (λ _ s'. (s'.locals ≡ s.locals) × (log s'.world ≡ opened r ∷ log s.world))
            (λ e s'. (s'.locals ≡ s.locals) × (log s'.world ≡ log s.world))
            (in_world m s)
    opening-Ensures r law =
        Ensures-weaken (λ _ s' (v, log, at). rw at (refl, log))
          (λ e s' (v, log, at). rw at (refl, log))
          (lift-Ensures (λ v. record s { world = v }) (m s.world) (law s.world))

    -- A step that opens none.
    pub keeping-Ensures :
        ((w : World) → Ensures (λ _ w'. log w' ≡ log w) (λ e w'. log w' ≡ log w) (m w))
        → Ensures
            (λ _ s'. (s'.locals ≡ s.locals) × (log s'.world ≡ log s.world))
            (λ e s'. (s'.locals ≡ s.locals) × (log s'.world ≡ log s.world))
            (in_world m s)
    keeping-Ensures law =
        Ensures-weaken (λ _ s' (v, log, at). rw at (refl, log))
          (λ e s' (v, log, at). rw at (refl, log))
          (lift-Ensures (λ v. record s { world = v }) (m s.world) (law s.world))

abbrev pub when_set : {World : Type 0} → Bool → M World Fault (Unit {0}) → M World Fault (Unit {0})
when_set b m w = if b then m w else (ok tt, w)

-- ===== src/Processes/Closing.antt =====
-- What a shutdown releases.
use trams_assignment.Base.{
  ◌≡◌, refl, ap, ◌∙◌, ◌⊎◌, inl, inr, true, Bool-cases, none, some, ◌∷◌, M, Result, ok, err, ret,
  throw, and_then, Ensures-either, after_try,
}
use trams_assignment.Database.{Fault}
use trams_assignment.Processes.{
  released, database, messaging, Host, drain_client, close_last, Stopping, shutdown,
}

module _ {World : Type 0} where
  kept_by :
      (k : M World Fault (Unit {0})) (y : Result Fault (Unit {0}) × World)
      → ((w : World) → (k w).1 ≡ w)
      → (and_then y (λ _. k)).1 ≡ y.1
  kept_by k (ok a, w) h = h w
  kept_by k (err e, w) h = refl

  -- A finalizer runs in the state that its block leaves, however the block has ended.
  pub after_try-state :
      (x : Result Fault (Unit {0}) × World) (last : M World Fault (Unit {0}))
      → (after_try x last).1 ≡ (last x.1).1
  after_try-state (ok a, w) last = kept_by (ret a) (last w) (λ w'. refl)
  after_try-state (err e, w) last = kept_by (throw e) (last w) (λ w'. refl)

module _ {World : Type 0} (host : Host World) where
  -- The connection is drained unless it is closed already.
  pub IsDrained : World → World → Type 0
  IsDrained w w' =
      (host.log w' ≡ released messaging ∷ host.log w) ⊎ ((host.is_closed w ≡ true) × (w' ≡ w))

  pub drain_client-IsDrained : (w : World) → IsDrained w (drain_client host w).1
  unfolding IsDrained
  drain_client-IsDrained w = elim (Bool-cases (host.is_closed w)) [
    | inl closed ↦ rw closed (inr (refl, refl))
    | inr live ↦ rw live (
        inl (
          Ensures-either {P = λ w'. host.log w' ≡ released messaging ∷ host.log w}
            (host.drain_law w)))
  ]

  -- Between what the first steps of a shutdown leave and its end, the connection is drained and
  -- then the database is disconnected.
  pub record IsClosed (w₁ w' : World) : Type 0 where
    pub drained : World
    pub drains : IsDrained w₁ drained
    pub disconnects : host.log w' ≡ released database ∷ host.log drained

  pub close_last-IsClosed :
      (first : M World Fault (Unit {0})) (w : World)
      → IsClosed (first w).1 (close_last host first w).1
  unfolding close_last
  close_last-IsClosed first w = record {
    drained = (drain_client host (first w).1).1;
    drains = drain_client-IsDrained (first w).1;
    disconnects =
        ap host.log (
          after_try-state (first w)
            (λ w₁. after_try (drain_client host w₁) host.disconnect_database)
          ∙ after_try-state (drain_client host (first w).1) host.disconnect_database)
        ∙ Ensures-either
            {P = λ w'. host.log w' ≡ released database ∷ host.log (drain_client host (first w).1).1}
            (host.disconnect_database_law (drain_client host (first w).1).1);
  }

-- A second call of `shutdown` answers as the first and does nothing.
pub shutdown_again :
    {World : Type 0} (close : M World Fault (Unit {0})) (s : Stopping close)
    → shutdown close (shutdown close s).1 ≡ shutdown close s
unfolding shutdown
shutdown_again close (none, w) = refl
shutdown_again close (some outcome, w) = refl

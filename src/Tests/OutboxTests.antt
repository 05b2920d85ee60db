-- ===== src/Tests/OutboxTests.antt =====
-- The outbox repository on a table of two events in memory.
use trams_assignment.Base.{
  ◌≤◌, ◌≡◌, refl, is_null, subst, Bool-cases, inl, inr, none, some, List, [], ◌∷◌, str_eq, eq_iff,
  count, arith, ok, of_ok,
}
use trams_assignment.Contracts.{UserCreatedEvent}
use trams_assignment.Database.Rows.{IsKeyed, count_id}
use trams_assignment.Database.Memory.{Memory, memory_table}
use trams_assignment.Outbox.{
  OutboxEvent, outbox_id, outbox_select, claim_batch, delete_published_before,
}
use trams_assignment.Outbox.Cleanup.{IsCleaned, delete_published_before-IsCleaned}
use trams_assignment.Outbox.Replicas.{
  Statement, claims, publishes, fails, deletes, run, is_held, run-held, is_pending_event,
  run-pending, is_published_event, run-published,
}

abbrev pub sample_event : UserCreatedEvent
sample_event = record {
  event_id = "e1";
  occurred_at = "2026-08-12T00:00:00.000Z";
  type = "user.created";
  payload = record {
    id = "u1";
    email = "ada@example.com";
    name = some "Ada";
    created_at = "2026-08-12T00:00:00.000Z";
  };
}

-- A pending event that nobody holds.
abbrev pub pending : OutboxEvent
pending = record {
  id = "e1";
  subject = "user.created";
  payload = sample_event;
  created_at = 100;
  next_attempt_at = 100;
  published_at = none;
  attempts = 0;
  locked_at = none;
  locked_by = none;
  last_error = none;
}

-- One that worker a holds since 40000.
abbrev pub held : OutboxEvent
held = record pending { id = "e2"; created_at = 90; locked_at = some 40000; locked_by = some "a" }

abbrev pub memory : List OutboxEvent → Memory OutboxEvent
memory rs = record { rows = rs; clock = 50000; faults = []; log = [] }

abbrev pub two : List OutboxEvent
two = pending ∷ held ∷ []

pub two-IsKeyed : IsKeyed outbox_id two
two-IsKeyed k = elim (Bool-cases (str_eq "e1" k)) [
  | inl e ↦ subst (λ j. count_id outbox_id j two ≤ 1) ((eq_iff "e1" k).0 e) (omega arith)
  | inr e ↦ ground arith
]

claim_batch_run :
    (claim_batch (memory_table outbox_id) "b" 10 30000 (memory two)).0
    ≡ ok (outbox_select pending ∷ [])
unfolding claim_batch
claim_batch_run = refl

-- One event published long ago and one that is pending.
abbrev old : List OutboxEvent
old = record pending { id = "e2"; published_at = some 7 } ∷ pending ∷ []

old-IsKeyed : IsKeyed outbox_id old
old-IsKeyed k = elim (Bool-cases (str_eq "e1" k)) [
  | inl e ↦ subst (λ j. count_id outbox_id j old ≤ 1) ((eq_iff "e1" k).0 e) (omega arith)
  | inr e ↦ ground arith
]

delete_published_before-IsCleaned_example : IsCleaned 1000 5 old 1 (pending ∷ [])
unfolding delete_published_before
delete_published_before-IsCleaned_example =
    of_ok
      (delete_published_before-IsCleaned (memory_table outbox_id) 1000 5 (memory old) old-IsKeyed)

-- Worker b tries to take and to end the lease of worker a.
abbrev others : List Statement
others = claims "b" "e2" 60000 30000 ∷ publishes "b" "e2" 60001 ∷ deletes ("e2" ∷ []) 70000 ∷ []

run-held_example :
    count (is_held "a" "e2" 40000) two ≤ count (is_held "a" "e2" 40000) (run others two)
run-held_example =
    run-held "a" "e2" 40000 others two
      (omega arith, ((λ e. ground (arith, eq_iff "b" "a")), (tt, tt)))

abbrev others' : List Statement
others' =
    claims "b" "e2" 60000 30000 ∷ fails "a" "e2" 90000 "timeout" ∷ deletes ("e2" ∷ []) 70000 ∷ []

run-pending_example :
    count (is_pending_event "e2") two ≤ count (is_pending_event "e2") (run others' two)
run-pending_example = run-pending "e2" others' two (absurd, (absurd, (absurd, tt)))

run-published_example :
    count (is_published_event "e2" 7 (λ r. is_null r.locked_by)) old
    ≤ count
        (is_published_event "e2" 7 (λ r. is_null r.locked_by))
        (run (claims "b" "e2" 60000 30000 ∷ deletes ("e2" ∷ []) 5 ∷ []) old)
run-published_example =
    run-published "e2" 7 (λ r. is_null r.locked_by)
      (claims "b" "e2" 60000 30000 ∷ deletes ("e2" ∷ []) 5 ∷ []) old
      (absurd, ((λ h. omega arith), tt))

-- ===== src/Tests/ProgressTests.antt =====
-- The relay on a table in memory whose connection never fails.
use trams_assignment.Base.{
  ◌+◌, ◌≡◌, refl, true, false, List, [], ◌∷◌, count, Result, String, Ensures, returns, throws,
}
use trams_assignment.Database.{Fault, Table}
use trams_assignment.Database.Memory.{Memory, memory_table}
use trams_assignment.Outbox.{OutboxEvent, outbox_id, outbox_repository, claim_batch, mark_published}
use trams_assignment.Outbox.Progress.{is_unpublished}
use trams_assignment.Messaging.Publisher.{publish}
use trams_assignment.Relay.{RelayState, run_round, run, cleanup_round, metrics_round}
use trams_assignment.Relay.Histories.{IsRun, relay-IsRun}
use trams_assignment.Relay.Progress.{IsAvailable, run_round-progress}
use trams_assignment.Tests.OutboxTests.{two, two-IsKeyed, memory}
use trams_assignment.Tests.RelayTests.{open_broker, plain, settings, zeros, start}

abbrev on_rows :
    {A : Type 0} → Result Fault A × Memory OutboxEvent → Result Fault A × List OutboxEvent
on_rows x = (x.0, x.1.rows)

on_rows-Ensures :
    {A : Type 0} {P : A → List OutboxEvent → Type 0} {Q : Fault → List OutboxEvent → Type 0}
    {x : Result Fault A × Memory OutboxEvent}
    → Ensures (λ a m. P a m.rows) (λ e m. Q e m.rows) x
    → Ensures P Q (on_rows x)
on_rows-Ensures (returns p) = returns p
on_rows-Ensures (throws q) = throws q

abbrev faulty : Table (Memory OutboxEvent) OutboxEvent outbox_id
faulty = memory_table outbox_id

abbrev calm : Table (List OutboxEvent) OutboxEvent outbox_id
calm = record {
  rows = λ rs. rs;
  clock = λ rs. 50000;
  create = λ r rs. on_rows (faulty.create r (memory rs));
  find_many = λ p by n rs. on_rows (faulty.find_many p by n (memory rs));
  find_unique = λ k rs. on_rows (faulty.find_unique k (memory rs));
  update_many = λ p f rs. on_rows (faulty.update_many p f (memory rs));
  delete_many = λ p rs. on_rows (faulty.delete_many p (memory rs));
  count_where = λ p rs. on_rows (faulty.count_where p (memory rs));
  create_law = λ r rs. on_rows-Ensures (faulty.create_law r (memory rs));
  find_many_law = λ p by n rs. on_rows-Ensures (faulty.find_many_law p by n (memory rs));
  find_unique_law = λ k rs. on_rows-Ensures (faulty.find_unique_law k (memory rs));
  update_many_law = λ p f rs. on_rows-Ensures (faulty.update_many_law p f (memory rs));
  delete_many_law = λ p rs. on_rows-Ensures (faulty.delete_many_law p (memory rs));
  count_where_law = λ p rs. on_rows-Ensures (faulty.count_where_law p (memory rs));
}

calm-IsAvailable : IsAvailable calm open_broker
calm-IsAvailable = record {
  answering = record { finds = λ p by n rs. returns tt; updates = λ p f rs. returns tt };
  publishes = λ subject bytes options b. returns tt;
}

abbrev calm_start : RelayState (List OutboxEvent) (List String)
calm_start = record { db = two; broker = []; counters = zeros }

-- Two rows wait, one of them claimable: one is left.
run_round-progress_example :
    count is_unpublished
        (run_round
          (outbox_repository calm)
          (λ rs. 50000)
          open_broker
          plain
          settings
          "b"
          calm_start).1.db
      + 1
    ≡ 2
unfolding run_round claim_batch publish mark_published
run_round-progress_example =
    run_round-progress calm open_broker plain settings "b" calm_start calm-IsAvailable two-IsKeyed
      refl

relay-IsRun_example :
    let store = outbox_repository (memory_table outbox_id) in
    IsRun
      (memory_table outbox_id)
      open_broker
      plain
      settings
      "b"
      start
      (run store (λ m. m.clock) open_broker plain settings "b" (false ∷ false ∷ true ∷ []) start)
    × IsRun
        (memory_table outbox_id)
        open_broker
        plain
        settings
        "b"
        start
        (cleanup_round store (λ m. m.clock) open_broker plain settings "b" start).1
    × IsRun
        (memory_table outbox_id)
        open_broker
        plain
        settings
        "b"
        start
        (metrics_round store (λ m. m.clock) open_broker plain settings "b" start).1
relay-IsRun_example =
    relay-IsRun (memory_table outbox_id) open_broker plain settings "b" (false ∷ false ∷ true ∷ [])
      start

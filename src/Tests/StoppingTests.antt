-- ===== src/Tests/StoppingTests.antt =====
-- `start` and `stop` of the outbox relay on a table in memory.
use trams_assignment.Base.{◌≤◌, ◌≡◌, false, some, List, [], ◌∷◌, String, arith}
use trams_assignment.Database.Memory.{Memory, memory_table}
use trams_assignment.Outbox.{OutboxEvent, outbox_id, outbox_repository}
use trams_assignment.Relay.Running.{
  waiting, working, testing, Loop, publishing, sweeping, reporting, Turn, resumes, fires, Task,
  OutboxRelay, stop,
}
use trams_assignment.Relay.Turns.{turns}
use trams_assignment.Relay.Stopping.{IsStopped, stop-returns}
use trams_assignment.Tests.RelayTests.{open_broker, plain, settings, start}

-- A loop that publishes, one that waits for an hour, and one that tests the signal.
abbrev busy : Task
busy = record {
  aborted = false;
  publishing_at = working;
  sweeping_at = waiting 3600000;
  reporting_at = testing;
}

abbrev running : OutboxRelay (Memory OutboxEvent) (List String)
running = record { state = start; task = some busy }

abbrev schedule : List Turn
schedule =
    resumes sweeping
    ∷ resumes reporting
    ∷ resumes publishing
    ∷ fires sweeping
    ∷ resumes sweeping
    ∷ resumes publishing
    ∷ resumes reporting
    ∷ []

schedule-fair : (l : Loop) → 2 ≤ turns l schedule
schedule-fair publishing = omega arith
schedule-fair sweeping = omega arith
schedule-fair reporting = omega arith

stop-returns_example :
    (later : OutboxRelay (Memory OutboxEvent) (List String)) × (stop
        (outbox_repository (memory_table outbox_id))
        (λ m. m.clock)
        open_broker
        plain
        settings
        "a"
        schedule
        running
      ≡ some later)
    × IsStopped
        (outbox_repository (memory_table outbox_id))
        (λ m. m.clock)
        open_broker
        plain
        settings
        "a"
        (some busy)
        running
        later
stop-returns_example =
    stop-returns (outbox_repository (memory_table outbox_id)) (λ m. m.clock) open_broker plain
      settings "a" schedule running schedule-fair

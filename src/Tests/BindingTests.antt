-- ===== src/Tests/BindingTests.antt =====
-- Binding to a durable consumer on a server that has at most one.
use trams_assignment.Base.{
  ◌≡◌, refl, true, false, Option, none, some, String, Result, ok, err, of_ok, ret,
}
use trams_assignment.Database.{Fault, error}
use trams_assignment.Messaging.Consumer.Binding.{
  ConsumerInfo, ConsumerManager, ensure_durable_consumer, IsBound, ensure_durable_consumer-IsBound,
}
use trams_assignment.Tests.ConsumerTests.{resolved, failing}

abbrev Server : Type 0
Server = Option ConsumerInfo

abbrev describe : Server → Result Fault ConsumerInfo × Server
describe none = (err (error "consumer not found"), none)
describe (some existing) = (ok existing, some existing)

abbrev manager : ConsumerManager Server String
manager = record {
  info = λ stream name. describe;
  add = λ stream options s.
      (ok tt, some (record { is_explicit = true; filter_subject = options.filter_subject }));
  get = λ stream name. ret name;
}

ensure_durable_consumer-IsBound_example : IsBound manager (resolved failing) none
unfolding ensure_durable_consumer
ensure_durable_consumer-IsBound_example =
    of_ok (ensure_durable_consumer-IsBound manager (resolved failing) none)

abbrev foreign : ConsumerInfo
foreign = record { is_explicit = false; filter_subject = "orders.created" }

-- A manager with which another process adds its consumer first.
abbrev racing : ConsumerManager Server String
racing = record manager {
  add = λ stream options s. (err (error "consumer name in use"), some foreign);
}

-- The foreign consumer is refused if it is there at first, and bound if it comes in between.
race_run :
    ((ensure_durable_consumer racing (resolved failing) (some foreign)).0
      ≡ err (error "Durable consumer notifications has an incompatible configuration"))
    × ((ensure_durable_consumer racing (resolved failing) none).0 ≡ ok "notifications")
unfolding ensure_durable_consumer
race_run = (refl, refl)

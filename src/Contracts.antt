-- ===== src/Contracts.antt =====
-- The shapes of libs/contracts/src that the services exchange: user events and the subjects.
pub mod Schemas
pub mod Validating
pub mod Rereading
pub mod Announcing
use trams_assignment.Base.{String, Option}

pub record UserCreatedPayload : Type 0 where
  pub id : String
  pub email : String
  pub name : Option String
  pub created_at : String

pub record UserCreatedEvent : Type 0 where
  pub event_id : String
  pub occurred_at : String
  pub type : String
  pub payload : UserCreatedPayload

abbrev pub user_events_stream : String
user_events_stream = "USER_EVENTS"

abbrev pub user_created : String
user_created = "user.created"

abbrev pub user_events_dead_letter : String
user_events_dead_letter = "user.events.dlq"

abbrev pub user_rpc_create : String
user_rpc_create = "user.rpc.create"

abbrev pub user_rpc_get_by_id : String
user_rpc_get_by_id = "user.rpc.get-by-id"

abbrev pub user_rpc_update : String
user_rpc_update = "user.rpc.update"

abbrev pub user_rpc_authenticate : String
user_rpc_authenticate = "user.rpc.authenticate"

abbrev pub user_rpc_health : String
user_rpc_health = "user.rpc.health"

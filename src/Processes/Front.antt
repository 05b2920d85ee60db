-- ===== src/Processes/Front.antt =====
-- apps/api-gateway/src/main.ts: the start of the gateway and its shutdown.
use trams_assignment.Base.{ℕ, none, String, M, ◌>>◌}
use trams_assignment.Database.{Fault}
use trams_assignment.Processes.{Host, NatsConnectionConfig, connect_nats, drain_client}

pub record GatewayNatsConfig : Type 0 where
  pub url : String
  pub user : String
  pub password : String
  pub ca_file : String

-- `connectGatewayNats` of nats/user-rpc.client.ts
abbrev pub gateway_nats : GatewayNatsConfig → NatsConnectionConfig
gateway_nats config = record {
  servers = config.url;
  name = "api-gateway";
  user = config.user;
  password = config.password;
  ca_file = config.ca_file;
  connect_timeout_ms = none;
  max_reconnect_attempts = none;
  reconnect_delay_ms = none;
}

module _ {World : Type 0} (host : Host World) where
  -- `create_services` builds the token service and the application; the first checks its secret.
  unfoldable pub start_gateway :
      GatewayNatsConfig → M World Fault (Unit {0}) → ℕ → M World Fault (Unit {0})
  start_gateway config create_services port = do
    connect_nats host (gateway_nats config)
    create_services
    host.listen port

  unfoldable pub shutdown_gateway : M World Fault (Unit {0})
  shutdown_gateway = host.close_server >> drain_client host

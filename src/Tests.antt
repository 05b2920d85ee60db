-- ===== src/Tests.antt =====
-- The models run on concrete inputs, and the theorems applied to them.
mod OutboxTests
mod RelayTests
mod DeliveryTests
mod ConsumerTests
mod ContractTests
mod UserTests
mod RpcTests
mod BindingTests
mod GatewayTests
mod ProgressTests
mod StreamsTests
mod StoppingTests
mod ParsingTests
mod EnvironmentTests
mod AppTests
mod MirrorTests
mod DlqTests
mod IssuingTests
mod ProcessTests
mod RouteTests

-- ===== src/Tests.antt =====
-- Runs of the model on concrete inputs, and the theorems applied to them.
mod Fixtures
mod Targets
mod Headers
mod Settings
mod Clients
mod Gates
mod Deliveries
mod Pools
mod Consumers
mod Serving
mod Runtimes
mod Receiving
mod Watching
mod Commands

-- ===== src/Receive.antt =====
-- nats/runtime_jetstream.go: how a JetStream message reaches its handler and is settled, as the
-- code of one callback runs; and deliveryMetadata of nats/jetstream.go.
pub mod Messages
pub mod Logs
pub mod Handed
pub mod Served
pub mod Effects
pub mod Details
pub mod Metadata
pub mod Sequence
pub mod Settled
pub mod Returned
pub mod Pending

-- ===== src/KvStore.antt =====
-- edfsm-kv-store: a store of state machines by path, itself a state machine.
pub mod KeyPath
pub mod Map
pub mod Store
mod Tests
pub mod Requester
pub mod Durable
pub mod Sent

-- ===== src/Machine.antt =====
-- edfsm-machine: adapters, output buffers and the task that drives a state machine.
pub mod Action
pub mod Adapter
pub mod Output
pub mod Task
pub mod Queue
pub mod Schedule

-- ===== src/Macros.antt =====
-- edfsm-macros: the attribute `impl_fsm`, which parses a description of a state machine and expands
-- it to an implementation of `Fsm`.
pub mod Syntax
pub mod Parse
pub mod Expand
pub mod Entry

-- ===== src/StateMachine.antt =====
-- src/side_effects_lab/state_machine.py: its data, the machine and its graph, what one call does, and
-- what holds after any sequence of calls.
pub mod Types
pub mod Machine
pub mod Graph
pub mod Branches
pub mod Outcome
pub mod Acceptance
pub mod Runs
pub mod Coherence
pub mod Safety
pub mod Opening
mod Tests

-- ===== src/Clock.antt =====
-- src/side_effects_lab/clock.py: the logical clock, the scheduler and the identifier allocator, with
-- what holds of each.
pub mod Time
pub mod Scheduler
pub mod Order
pub mod Calls
pub mod Runs
pub mod Drain
pub mod Allocator
pub mod Unique
pub mod Distinct
pub mod RunId
mod Collisions
mod RunIdTests
mod Tests

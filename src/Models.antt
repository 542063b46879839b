-- ===== src/Models.antt =====
-- src/side_effects_lab/models.py: identifiers, canonical values, and the laws of freezing.
pub mod Identifiers
pub mod Bounds
pub mod Values
pub mod Freezing
pub mod Flat
pub mod Events
pub mod Faults
mod Schedules
pub mod Revalidation
mod Tests
pub mod Schemes
pub mod Screening
mod Accepting

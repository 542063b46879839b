-- ===== src/Authority.antt =====
-- src/side_effects_lab/authority.py: the request, the decision and the check, with what holds of them.
pub mod Types
pub mod Evidence
pub mod Decision
pub mod Check
mod Precedence
mod Rows
mod Grants
mod Conditions
mod Decides
mod Verdicts
mod Samples
mod Tests
mod Payload
mod Entries
mod Delivery
mod Validity
mod Returns

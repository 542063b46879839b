-- ===== src/Ledger.antt =====
-- src/side_effects_lab/ledger.py: the table of events and the calls that append to it.
pub mod Tables
pub mod Decoding
pub mod Replay
pub mod Operations
pub mod Persisting
pub mod Transitions
pub mod Events
mod Steps
mod Trying
mod Rows
mod Replaying
mod Loading
mod Reachable
mod Advance
mod Effects
mod Contract
mod Moving
mod Dispatching
mod Attempting
mod Registering
mod Soundness
mod Refinement
mod Listing
mod Samples
mod Runs
mod Inserting
mod Continuing
mod Dating
mod Issuing
mod Permitting
mod Belonging
mod Owning
mod Matching
mod Validating
mod Paths
mod Rooted
mod Granting
mod Succeeding
mod Allowing
mod Recording
mod Appending
mod Accepting
mod Tests

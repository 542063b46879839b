-- ===== src/Canonical.antt =====
-- src/side_effects_lab/canonical.py: the canonical bytes of a value and their digest.
pub mod Json
pub mod Ascii
pub mod Order
pub mod Reordering
mod Tests

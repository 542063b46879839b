-- ===== src/Schemas.antt =====
-- src/side_effects_lab/schema_generation.py: the rendered schemas, and the files that hold them.
pub mod Rendering
pub mod Files
mod Writing
mod Current
mod Tests

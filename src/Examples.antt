-- ===== src/Examples.antt =====
-- Runs of the modelled code on small inputs.
pub mod Edits
pub mod Files
pub mod Unified
pub mod Chunks
pub mod Rows
pub mod Tests

-- ===== src/Diff.antt =====
-- Applying a diff to a file: services/diff.
pub mod Data
pub mod LineNumbered
pub mod SearchReplace
pub mod Unified
pub mod Applicator

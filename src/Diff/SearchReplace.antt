-- ===== src/Diff/SearchReplace.antt =====
-- services/diff/algo_runners/search_and_replace/runner.py, one module for each family of methods of
-- `SearchAndReplaceAlgoRunner`.
pub mod Prep
pub mod Match
pub mod Fuzzy
pub mod Locate
pub mod Blocks
pub mod Runner

-- ===== src/Chunking.antt =====
-- Cutting source files into chunks: services/chunking.
pub mod Data
pub mod Content
pub mod Spans
pub mod Legacy
pub mod Metadata
pub mod Render
pub mod Manager
pub mod Store
pub mod Indexing
pub mod PrDiff
pub mod Source

-- ===== src/Adapters.antt =====
-- The adapters that only carry values to a client library and back.
pub mod Embedder
pub mod Bank
pub mod Audit
pub mod Collection

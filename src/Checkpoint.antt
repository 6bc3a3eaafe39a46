-- ===== src/Checkpoint.antt =====
-- integrations/checkpoint/: the checkpoint value types and the in-memory store.
pub mod Errors
pub mod Normalize
pub mod Canonical
pub mod Types
pub mod MemoryStore
pub mod Examples

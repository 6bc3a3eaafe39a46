-- ===== src/Core.antt =====
-- core/: the values that the program handles, redaction, and what is safe to store of them.
pub mod Value
pub mod Compare
pub mod Redaction
pub mod Summary
pub mod ResultSafety
pub mod Examples

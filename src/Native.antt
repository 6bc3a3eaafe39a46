-- ===== src/Native.antt =====
-- The native authoring interface, native/.
pub mod Schema
pub mod Policies
pub mod Names
pub mod Buffer
pub mod Steps
pub mod Replay
pub mod Executable
pub mod Examples
pub mod Artifacts

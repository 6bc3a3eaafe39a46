-- ===== src/Integrations.antt =====
-- integrations/: artifacts, their keys and the store in memory, and the registry of workflow integrations.
pub mod ArtifactKeys
pub mod Artifacts
pub mod Emission
pub mod WorkflowRegistry
pub mod Examples

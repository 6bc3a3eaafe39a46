-- ===== src/Plugins.antt =====
-- plugins/registry.py and workflows/requirements.py. A contribution is its key and an object of a
-- type `O`, which the registry only stores.
pub mod Registry
pub mod Requirements
pub mod Examples

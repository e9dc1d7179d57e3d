-- ===== src/Router/Targets.antt =====
-- The dispatchers of each route after the settings are loaded.
pub mod Vectors
pub mod Steps
pub mod Settings

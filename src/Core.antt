-- ===== src/Core.antt =====
-- src/core.cpp: the settings of the log, and what happens when the service starts.
pub mod LogSettings
pub mod Startup
pub mod Service
pub mod Listeners

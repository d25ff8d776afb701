-- ===== src/App.antt =====
-- The package app/.
pub mod Shutdown
pub mod Logger

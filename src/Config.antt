-- ===== src/Config.antt =====
-- internal/config/config.go: the part of the configuration that the forwards use.
pub mod Forwards
pub mod Waits
mod Samples

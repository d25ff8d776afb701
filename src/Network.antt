-- ===== src/Network.antt =====
-- The package network/.
pub mod Http
pub mod Transport
pub mod Ssh

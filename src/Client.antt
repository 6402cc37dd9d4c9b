-- ===== src/Client.antt =====
-- src/client.rs: the connector.
pub mod Socket
pub mod Link
pub mod Shutdown
pub mod Options

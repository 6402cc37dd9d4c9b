-- ===== src/Setup.antt =====
-- src/setup.rs: the first configuration of a server, its diagnosis, and the unit of its service.
pub mod Private
pub mod Service
pub mod Executable
pub mod Doctor
pub mod Init

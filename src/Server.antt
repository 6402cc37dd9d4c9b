-- ===== src/Server.antt =====
-- src/server.rs: the replay buffer, the transports and the sessions of the server.
pub mod Replay
pub mod Transport
pub mod Session
pub mod Opening
pub mod Access
pub mod Socket
pub mod Readers
pub mod Tunnels

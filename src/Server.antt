-- ===== src/Server.antt =====
-- src/server.rs: the server's side of a session.
pub mod Request
pub mod Dest
pub mod Loop
mod Examples

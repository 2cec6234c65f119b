-- ===== src/Client.antt =====
-- src/client.rs: the client's side of a session.
pub mod Request
pub mod Steps
pub mod Greeting
pub mod Agreement
pub mod Loop
mod Examples

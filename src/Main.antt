-- ===== src/Main.antt =====
-- src/main.rs: the server's loop that accepts clients, and the command line.
pub mod Accept
pub mod Paths
pub mod CommandLine

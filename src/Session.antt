-- ===== src/Session.antt =====
-- A session of deltasync as a whole: src/client.rs and src/server.rs together.
pub mod Mix
pub mod Diff
pub mod Copy
pub mod Hasher
pub mod Whole
pub mod Examples

-- ===== src/Sync.antt =====
-- src/sync.rs: the ordered channel.
pub mod Channel
pub mod System
pub mod Loan
mod Examples

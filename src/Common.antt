-- ===== src/Common.antt =====
-- src/common.rs: the status codes, the strings and file blocks of the wire protocol, and the
-- structs that read and write them across cancelled futures.
pub mod Buffer
pub mod Frame
pub mod Fill
pub mod Drain
pub mod WriteString
pub mod Status
pub mod Text
pub mod ReadBlock
pub mod WriteBlock
pub mod Spin
pub mod RoundTrip
pub mod Reference
mod Examples
pub mod ReadString

-- ===== src/Bytes.antt =====
-- Bytes and the big-endian words of the wire (the loops over `0..8` in src/common.rs).
-- A byte is a number below 256 and a `u64` one below 2 ^ 64; `& 0xFF` is `% 256`, `>>= 8` is
-- `/ 256`, `<<= 8` is `* 256` with the wrap-around of the word.
mod BigEndian
mod Utf8
unfoldable pub use BigEndian.{be, be_fill, be_read}
pub use BigEndian.{
  IsByte, IsU64, All, All-append, All-append_split, length-be, be_fill-be, be_read-be, be-be_read,
  be_read-IsU64,
}
pub use Utf8.{String}
unfoldable pub use Utf8.{is_utf8, from_utf8}
pub use Utf8.{is_utf8-ascii, from_utf8-eq-some, from_utf8-cases, is_utf8-from_utf8}

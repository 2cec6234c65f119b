-- ===== src/Io.antt =====
-- What the program takes from tokio: `AsyncReadExt` and `AsyncWriteExt`, as interfaces. The code of
-- src/common.rs is generic over these traits; so is the model.
mod Calls
mod Streams
pub mod Scripted
pub use Calls.{Error, Outcome, Poll, Turn, Result, ◌>>=◌, or_io}
pub use Streams.{AsyncRead, AsyncWrite, IsPrompt, IsOpen, IsReliable, taken, accepted}

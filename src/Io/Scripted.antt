-- ===== src/Io/Scripted.antt =====
-- Streams that follow a script, to run the program on: what a call of `read` or `write` answers is
-- the next entry of a list, and once the list is used up the stream is as quick as it can be.
mod Event
mod Reader
mod Writer
mod Eager
pub use Event.{give, wait, lose}
pub use Reader.{byte, Source, reader, scripted, prompt, prompt-IsPrompt}
pub use Writer.{Sink, writer, writer-IsOpen}
pub use Eager.{eager, eager-IsOpen, eager-unfailed, not_zero}

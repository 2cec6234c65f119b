-- ===== src/Server/Loop.antt =====
-- The event loop of `process_new_client` of src/server.rs, and what follows it.
pub mod Patch
pub mod Invariant
pub mod Storing
pub mod Receiving
pub mod Answering
pub mod Run
pub mod Whole
mod Examples
use deltasync.Base.{
  ℕ, suc, List, [], ◌∷◌, Bool, true, false, not, ◌&&◌, Option, none, some, if◌then◌else◌,
}
use deltasync.Io.{AsyncRead, AsyncWrite, Outcome, Result, ◌>>=◌, or_io}
use deltasync.Common.ReadBlock
use deltasync.Common.ReadBlock.{ReadBlock}
use deltasync.Common.Status.{StatusCode}
use deltasync.Common.WriteString
use deltasync.Common.WriteString.{WriteString, WriteAll}
use deltasync.FileSystem.SeekFile.{SeekFile}
use deltasync.Select.{
  Flow, goes_on, breaks, returns_err, continue_with, Received, value, nothing, error, is_some,
}

-- The variables of the loop with the two halves of the connection and the destination file.
-- `hashed` counts the answers of the hasher.
pub record Server (Source Sink File : Type 0) : Type 0 where
  pub resumable_read_file_block : ReadBlock
  pub receive_buffer : List ℕ
  pub write_buffer : List ℕ
  pub resumable_write_block_to_disk : Option WriteAll
  pub resumable_write_hash : Option WriteString
  pub hashing_done : Bool
  pub hashed : ℕ
  pub client_rx : Source
  pub client_tx : Sink
  pub file : File

abbrev pub begin :
    {Source Sink File : Type 0} → ℕ → ℕ → Source → Sink → File → Server Source Sink File
begin block_size filesize rx tx f = record {
  resumable_read_file_block = ReadBlock.new block_size filesize;
  receive_buffer = [];
  write_buffer = [];
  resumable_write_block_to_disk = none;
  resumable_write_hash = none;
  hashing_done = false;
  hashed = 0;
  client_rx = rx;
  client_tx = tx;
  file = f;
}

-- `ResumableAsyncWriteAll::new`
abbrev pub new_write_all : WriteAll
new_write_all = record { offset = 0 }

module _ {Source Sink File : Type 0} where
  -- The branch of the disk. Its result is dropped.
  unfoldable pub on_disk :
      Outcome (Unit {0}) → Server Source Sink File → Flow (Server Source Sink File)
  on_disk Outcome.cancelled s = goes_on s
  on_disk Outcome.stuck s = goes_on s
  on_disk (Outcome.done u) s = goes_on (record s { resumable_write_block_to_disk = none })
  on_disk (Outcome.bail e) s = goes_on (record s { resumable_write_block_to_disk = none })

  -- Behind `file.seek(..).await?`.
  unfoldable pub after_seek : Server Source Sink File → Option File → Flow (Server Source Sink File)
  after_seek s none = returns_err s
  after_seek s (some f) =
      goes_on (record s { resumable_write_block_to_disk = some new_write_all; file = f })

  -- The branch of the blocks; `seek` is that of the file.
  unfoldable pub on_block :
      (ℕ → File → Option File)
      → Outcome ℕ
      → Server Source Sink File
      → Flow (Server Source Sink File)
  on_block seek Outcome.cancelled s = goes_on s
  on_block seek Outcome.stuck s = goes_on s
  on_block seek (Outcome.done offset) s =
      after_seek (record s { receive_buffer = s.write_buffer; write_buffer = s.receive_buffer })
        (seek offset s.file)
  on_block seek (Outcome.bail e) s = breaks s

  -- The branch of the hash that is written. Its result is dropped.
  unfoldable pub on_hash_written :
      Outcome (Unit {0}) → Server Source Sink File → Flow (Server Source Sink File)
  on_hash_written Outcome.cancelled s = goes_on s
  on_hash_written Outcome.stuck s = goes_on s
  on_hash_written (Outcome.done u) s = goes_on (record s { resumable_write_hash = none })
  on_hash_written (Outcome.bail e) s = goes_on (record s { resumable_write_hash = none })

  -- The branch of the hasher.
  unfoldable pub on_hash : Received → Server Source Sink File → Flow (Server Source Sink File)
  on_hash (value block) s =
      goes_on (record s {
        resumable_write_hash = some (WriteString.new block.hash);
        hashed = suc s.hashed;
      })
  on_hash nothing s = goes_on (record s { hashing_done = true })
  on_hash error s = returns_err s

-- A branch that is polled. `else` is never taken: the first branch is enabled or the second one is.
pub data Branch : Type 0 where
  write_disk read_block write_hash next_hash : Branch

module _ (r : AsyncRead) (w : AsyncWrite) (disk : SeekFile) (hasher : ℕ → Received) where
  open r use {Source}
  open w use {Sink}
  open disk use {file, seek, flush, sync_data}

  abbrev pub State : Type 0
  State = Server Source Sink file.Sink

  -- A poll of a future, behind the change that it makes to the object, the buffer and the stream.
  unfoldable pub poll_disk : State → Option WriteAll → Flow State
  poll_disk s none = goes_on s
  poll_disk s (some rwa) =
      let t = WriteString.write_all file rwa s.write_buffer s.file in
      on_disk t.outcome (record s { resumable_write_block_to_disk = some t.self; file = t.stream })

  unfoldable pub poll_block : State → Flow State
  poll_block s =
      let t = ReadBlock.read_on r s.resumable_read_file_block s.receive_buffer s.client_rx in
      on_block seek t.outcome (record s {
        resumable_read_file_block = t.self.block;
        receive_buffer = t.self.buf;
        client_rx = t.stream;
      })

  unfoldable pub poll_hash : State → Option WriteString → Flow State
  poll_hash s none = goes_on s
  poll_hash s (some rwa) =
      let t = WriteString.write_to w rwa s.client_tx in
      on_hash_written t.outcome
        (record s { resumable_write_hash = some t.self; client_tx = t.stream })

  unfoldable pub turn : Branch → State → Flow State
  turn write_disk s = poll_disk s s.resumable_write_block_to_disk
  turn read_block s =
      if not (is_some s.resumable_write_block_to_disk) then poll_block s else goes_on s
  turn write_hash s = poll_hash s s.resumable_write_hash
  turn next_hash s =
      if not (is_some s.resumable_write_hash) && not s.hashing_done
      then on_hash (hasher s.hashed) s
      else goes_on s

  unfoldable pub serve_loop : List Branch → State → Flow State
  serve_loop [] s = goes_on s
  serve_loop (b ∷ bs) s = continue_with (turn b s) (λ s'. serve_loop bs s')

  -- Behind the loop: `file.flush().await?; file.sync_data().await?; Ok(StatusCode::Ack)`.
  unfoldable pub finish : State → Result (StatusCode × file.Sink)
  finish s = do f1 ← or_io (flush s.file); f2 ← or_io (sync_data f1); Result.ok (StatusCode.ack, f2)

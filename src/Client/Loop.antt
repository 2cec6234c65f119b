-- ===== src/Client/Loop.antt =====
-- The event loop of `new_process` of src/client.rs, and `prepare_next_write_block`.
pub mod Sending
pub mod Hearing
pub mod Invariant
pub mod Writing
pub mod Comparing
pub mod Run
mod Examples
use deltasync.Base.{
  ℕ, zero, suc, ◌+◌, ◌-◌, ◌*◌, ◌/◌, ◌%◌, ◌^◌, List, [], ◌∷◌, ◌++◌, Bool, true, false, not, ◌&&◌,
  Option, none, some, ◌==◌, if◌then◌else◌,
}
use deltasync.Bytes.{String}
use deltasync.Io.{AsyncRead, AsyncWrite, Turn, Outcome}
use deltasync.Common.ReadString
use deltasync.Common.ReadString.{ReadString}
use deltasync.Common.WriteBlock
use deltasync.Common.WriteBlock.{WriteBlock}
use deltasync.HashFile.{FileBlockData}
use deltasync.Server.Request.{bytes_eq}
use deltasync.Select.{
  Flow, goes_on, breaks, returns_err, continue_with, Received, value, nothing, error, is_empty,
  is_some,
}

-- The variables of the loop with the two halves of the connection. A queue is a list, its front
-- first.
pub record Client (Source Sink : Type 0) : Type 0 where
  pub remote_hashes : List String
  pub remote_hashes_done : Bool
  pub hash_comparison_over : Bool
  pub resumable_read_string : ReadString
  pub block_idx : ℕ
  pub blocks_idx_to_send : List (ℕ × List ℕ)
  pub resumable_write_block : Option WriteBlock
  pub stream_rx : Source
  pub stream_tx : Sink

abbrev pub begin : {Source Sink : Type 0} → Source → Sink → Client Source Sink
begin rx tx = record {
  remote_hashes = [];
  remote_hashes_done = false;
  hash_comparison_over = false;
  resumable_read_string = ReadString.new 256;
  block_idx = 0;
  blocks_idx_to_send = [];
  resumable_write_block = none;
  stream_rx = rx;
  stream_tx = tx;
}

-- `src_size.div_ceil(block_size)`
abbrev pub div_ceil : ℕ → ℕ → ℕ
div_ceil n d = (n + d - 1) / d

module _ {Source Sink : Type 0} (block_size end_block_idx : ℕ) where
  unfoldable pub pop_next : List (ℕ × List ℕ) → Client Source Sink → Client Source Sink
  pop_next [] c = record c { resumable_write_block = none }
  pop_next ((idx, bytes) ∷ queue) c = record c {
    blocks_idx_to_send = queue;
    resumable_write_block = some (WriteBlock.new (idx * block_size % 2 ^ 64) bytes);
  }

  unfoldable pub prepare_next_write_block : Client Source Sink → Client Source Sink
  prepare_next_write_block c =
      if is_some c.resumable_write_block then c else pop_next c.blocks_idx_to_send c

  -- The branch of the write future. Its result is dropped.
  unfoldable pub after_write_block : Client Source Sink → Flow (Client Source Sink)
  after_write_block c =
      let idle = record c { resumable_write_block = none } in
      if c.hash_comparison_over && is_empty c.blocks_idx_to_send
      then breaks idle
      else goes_on (prepare_next_write_block idle)

  -- A poll of the write future, behind the change that it makes to the object and the stream.
  unfoldable pub on_write : Outcome (Unit {0}) → Client Source Sink → Flow (Client Source Sink)
  on_write Outcome.cancelled c = goes_on c
  on_write Outcome.stuck c = goes_on c
  on_write (Outcome.done u) c = after_write_block c
  on_write (Outcome.bail e) c = after_write_block c

  -- A poll of the read future, likewise.
  unfoldable pub on_read : Outcome String → Client Source Sink → Flow (Client Source Sink)
  on_read Outcome.cancelled c = goes_on c
  on_read Outcome.stuck c = goes_on c
  on_read (Outcome.done hash) c =
      goes_on (record c { remote_hashes = c.remote_hashes ++ hash ∷ [] })
  on_read (Outcome.bail e) c = goes_on (record c { remote_hashes_done = true })

  -- The rest of the branch of the hasher.
  unfoldable pub count_block : Client Source Sink → Flow (Client Source Sink)
  count_block c =
      let counted = record c { block_idx = c.block_idx + 1 } in
      let over = record counted { hash_comparison_over = true } in
      if c.block_idx + 1 == end_block_idx
      then (if is_some c.resumable_write_block then goes_on over else breaks over)
      else goes_on counted

  unfoldable pub compare_block : Client Source Sink → FileBlockData → String → Client Source Sink
  compare_block c block remote_hash =
      if not (bytes_eq block.hash remote_hash)
      then prepare_next_write_block (record c {
        blocks_idx_to_send = c.blocks_idx_to_send ++ (c.block_idx, block.bytes) ∷ [];
      })
      else c

  unfoldable pub on_hash : Client Source Sink → Received → List String → Flow (Client Source Sink)
  on_hash c (value block) (remote_hash ∷ hashes) =
      count_block (compare_block (record c { remote_hashes = hashes }) block remote_hash)
  on_hash c (value block) [] = goes_on c
  on_hash c nothing hashes = breaks c
  on_hash c error hashes = returns_err c

-- A branch that is polled; the one of the timer only prints, and the timer never ends.
pub data Branch : Type 0 where
  progress_timer write_next_block read_hash next_hash : Branch

module _ (r : AsyncRead) (w : AsyncWrite) (hasher : ℕ → Received)
    (block_size end_block_idx : ℕ) where
  open r use {Source}
  open w use {Sink}

  unfoldable pub poll_write : Client Source Sink → Option WriteBlock → Flow (Client Source Sink)
  poll_write c none = goes_on c
  poll_write c (some block) =
      let t = WriteBlock.write_to w block c.stream_tx in
      on_write block_size end_block_idx t.outcome
        (record c { resumable_write_block = some t.self; stream_tx = t.stream })

  unfoldable pub poll_read : Client Source Sink → Flow (Client Source Sink)
  poll_read c =
      let t = ReadString.read_on r c.resumable_read_string c.stream_rx in
      on_read block_size end_block_idx t.outcome
        (record c { resumable_read_string = t.self; stream_rx = t.stream })

  -- The branches with their conditions; the hasher's answer to the call at `block_idx` is `hasher`
  -- of it.
  unfoldable pub turn : Branch → Client Source Sink → Flow (Client Source Sink)
  turn progress_timer c = goes_on c
  turn write_next_block c = poll_write c c.resumable_write_block
  turn read_hash c = if c.remote_hashes_done then goes_on c else poll_read c
  turn next_hash c =
      if not (is_empty c.remote_hashes) && not c.hash_comparison_over
      then on_hash block_size end_block_idx c (hasher c.block_idx) c.remote_hashes
      else goes_on c

  unfoldable pub select_loop : List Branch → Client Source Sink → Flow (Client Source Sink)
  select_loop [] c = goes_on c
  select_loop (b ∷ bs) c = continue_with (turn b c) (λ c'. select_loop bs c')

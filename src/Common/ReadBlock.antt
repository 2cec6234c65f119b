-- ===== src/Common/ReadBlock.antt =====
-- `ResumableReadFileBlock` of src/common.rs: an offset and the block of the file at that offset,
-- read across cancelled futures into a buffer of the caller.
pub mod Payload
pub mod Resume
pub mod Progress
use deltasync.Base.{
  ℕ, ◌+◌, ◌-◌, ◌%◌, ◌^◌, zero, suc, List, [], take, length, replicate, ltb, if◌then◌else◌,
}
use deltasync.Bytes.{be_read}
use deltasync.Io.{AsyncRead, Outcome, Turn}
use deltasync.Common.Buffer.{resize}
use deltasync.Common.Fill.{Fill, fill}

pub record ReadBlock : Type 0 where
  pub offset : ℕ
  pub block_size : ℕ
  pub file_size : ℕ
  pub buf_offset : ℕ

-- `ResumableReadFileBlock::new`
abbrev pub new : ℕ → ℕ → ReadBlock
new block_size file_size = record {
  offset = 0;
  block_size = block_size;
  file_size = file_size;
  buf_offset = 0;
}

-- The object with the buffer that each call is given.
pub record Reading : Type 0 where
  pub block : ReadBlock
  pub buf : List ℕ

-- `current_block_size`; the subtraction is that of `usize`, which wraps in a release build.
unfoldable pub current_block_size : ReadBlock → ℕ → ℕ
current_block_size me offset =
    let rem = (me.file_size + 2 ^ 64 - offset) % 2 ^ 64 in
    if ltb rem me.block_size then rem else me.block_size

module _ (r : AsyncRead) where
  open r use {Source}

  -- Behind the loop over the payload.
  unfoldable pub after_payload : ReadBlock → Fill Source → Turn Reading Source ℕ
  after_payload me f = elim f.outcome [
    | Outcome.done _ ↦ record {
      outcome = Outcome.done me.offset;
      self = record { block = record me { offset = 0; buf_offset = 0 }; buf = f.buf };
      stream = f.stream;
    }
    | Outcome.bail e ↦ record {
      outcome = Outcome.bail e;
      self = record { block = record me { buf_offset = f.offset }; buf = f.buf };
      stream = f.stream;
    }
    | Outcome.cancelled ↦ record {
      outcome = Outcome.cancelled;
      self = record { block = record me { buf_offset = f.offset }; buf = f.buf };
      stream = f.stream;
    }
    | Outcome.stuck ↦ record {
      outcome = Outcome.stuck;
      self = record { block = me; buf = f.buf };
      stream = f.stream;
    }
  ]

  -- `while self.buf_offset < (buf.len() + 8) { … }` and what follows.
  unfoldable pub read_payload : ReadBlock → List ℕ → Source → Turn Reading Source ℕ
  read_payload me buf io = after_payload me (fill r 8 (length buf + 8) me.buf_offset buf io)

  -- The offset is decoded, and the buffer made ready for the block.
  unfoldable pub start_payload : ReadBlock → List ℕ → Source → Turn Reading Source ℕ
  start_payload me buf io =
      let offset = be_read me.offset (take 8 buf) in
      read_payload (record me { offset = offset }) (replicate (current_block_size me offset) 0) io

  -- Behind the loop over the header.
  unfoldable pub after_header : ReadBlock → Fill Source → Turn Reading Source ℕ
  after_header me f = elim f.outcome [
    | Outcome.done _ ↦ start_payload (record me { buf_offset = f.offset }) f.buf f.stream
    | Outcome.bail e ↦ record {
      outcome = Outcome.bail e;
      self = record { block = record me { buf_offset = f.offset }; buf = f.buf };
      stream = f.stream;
    }
    | Outcome.cancelled ↦ record {
      outcome = Outcome.cancelled;
      self = record { block = record me { buf_offset = f.offset }; buf = f.buf };
      stream = f.stream;
    }
    | Outcome.stuck ↦ record {
      outcome = Outcome.stuck;
      self = record { block = me; buf = f.buf };
      stream = f.stream;
    }
  ]

  -- `ResumableReadFileBlock::read_on`
  unfoldable pub read_on : ReadBlock → List ℕ → Source → Turn Reading Source ℕ
  read_on me buf io =
      if ltb me.buf_offset 8
      then after_header me (fill r 0 8 me.buf_offset (resize 8 buf) io)
      else read_payload me buf io

  -- The event loop calls `read_on` again after each call that was cancelled; here `n` times at most.
  unfoldable pub read_again : ℕ → ReadBlock → List ℕ → Source → Turn Reading Source ℕ
  read_again zero me buf io = record {
    outcome = Outcome.cancelled;
    self = record { block = me; buf = buf };
    stream = io;
  }
  read_again (suc n) me buf io =
      let t = read_on me buf io in
      let later = read_again n t.self.block t.self.buf t.stream in
      elim t.outcome [ Outcome.cancelled ↦ later | o ↦ t ]

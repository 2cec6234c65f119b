-- ===== src/Common/WriteBlock.antt =====
-- `ResumableWriteFileBlock` of src/common.rs: an offset and a block of the file, written across
-- cancelled futures.
pub mod OffsetLoop
pub mod Resume
pub mod Steady
use deltasync.Base.{
  ℕ, zero, suc, ◌+◌, ◌-◌, ◌≤◌, ◌<◌, List, [], ◌∷◌, ◌++◌, length, take, drop, replicate, ltb, ◌==◌,
  if◌then◌else◌,
}
use deltasync.Bytes.{be_fill}
use deltasync.Io.{AsyncWrite, Error, Outcome, Poll, Turn}
use deltasync.Common.Drain.{Drain, drain}

-- `buf` is what the `Loan` derefs to. `step` 0: nothing done, 1: the offset, 2: the block.
pub record WriteBlock : Type 0 where
  pub offset : ℕ
  pub offsetlen : ℕ
  pub offset_bytes : List ℕ
  pub bufoffset : ℕ
  pub buf : List ℕ
  pub step : ℕ

-- `ResumableWriteFileBlock::new`
abbrev pub new : ℕ → List ℕ → WriteBlock
new offset block_data = record {
  offset = offset;
  offsetlen = 0;
  offset_bytes = replicate 8 0;
  bufoffset = 0;
  buf = block_data;
  step = 0;
}

-- `bytes.copy_within(n.., 0)`
unfoldable pub copy_within : ℕ → List ℕ → List ℕ
copy_within n bytes = drop n bytes ++ drop (length bytes - n) bytes

-- What the loop over the offset leaves.
pub record Header (Io : Type 0) : Type 0 where
  pub outcome : Outcome (Unit {0})
  pub offsetlen : ℕ
  pub offset_bytes : List ℕ
  pub stream : Io

abbrev pub header_end : {Io : Type 0} → Outcome (Unit {0}) → ℕ → List ℕ → Io → Header Io
header_end o len bytes s = record { outcome = o; offsetlen = len; offset_bytes = bytes; stream = s }

-- `if self.step == 0 { … }`: `usize` to `u64` does not fail.
unfoldable pub prepare : WriteBlock → WriteBlock
prepare me =
    if me.step == 0
    then record me { offset_bytes = be_fill 8 me.offset me.offset_bytes; offsetlen = 8; step = 1 }
    else me

module _ (w : AsyncWrite) where
  open w use {Sink, write}

  unfoldable pub after_header_write :
      (ℕ → List ℕ → Sink → Header Sink) → ℕ → List ℕ → Poll ℕ → Sink → Header Sink
  after_header_write again len bytes (Poll.ready n) s = again (len - n) (copy_within n bytes) s
  after_header_write again len bytes Poll.pending s = header_end Outcome.cancelled len bytes s
  after_header_write again len bytes Poll.failed s = header_end (Outcome.bail Error.io) len bytes s

  -- `while self.offsetlen > 0 { let n = write.write(&self.offset_bytes[0..self.offsetlen]).await?;
  --    self.offset_bytes.copy_within(n.., 0); self.offsetlen -= n; }`
  unfoldable pub header_loop : ℕ → ℕ → List ℕ → Sink → Header Sink
  header_loop zero len bytes io =
      header_end (if ltb 0 len then Outcome.stuck else Outcome.done tt) len bytes io
  header_loop (suc fuel) len bytes io =
      let p = write (take len bytes) io in
      let again = after_header_write (λ l bs s. header_loop fuel l bs s) len bytes p.0 p.1 in
      if ltb 0 len then again else header_end (Outcome.done tt) len bytes io

  -- `while self.bufoffset < self.buf.len() { … }`
  unfoldable pub write_payload : WriteBlock → Sink → Turn WriteBlock Sink (Unit {0})
  write_payload me io =
      let d = drain w me.bufoffset me.buf io in
      record { outcome = d.outcome; self = record me { bufoffset = d.offset }; stream = d.stream }

  unfoldable pub after_header : WriteBlock → Header Sink → Turn WriteBlock Sink (Unit {0})
  after_header me h =
      let me' = record me { offsetlen = h.offsetlen; offset_bytes = h.offset_bytes } in
      elim h.outcome [
        | Outcome.done _ ↦ write_payload (record me' { step = 2 }) h.stream
        | Outcome.bail e ↦ record { outcome = Outcome.bail e; self = me'; stream = h.stream }
        | Outcome.cancelled ↦ record { outcome = Outcome.cancelled; self = me'; stream = h.stream }
        | Outcome.stuck ↦ record { outcome = Outcome.stuck; self = me'; stream = h.stream }
      ]

  -- `if self.step == 1 { … }` and the loop over the block.
  unfoldable pub write_steps : WriteBlock → Sink → Turn WriteBlock Sink (Unit {0})
  write_steps me io =
      if me.step == 1
      then after_header me (header_loop me.offsetlen me.offsetlen me.offset_bytes io)
      else write_payload me io

  -- `ResumableWriteFileBlock::write_to`
  unfoldable pub write_to : WriteBlock → Sink → Turn WriteBlock Sink (Unit {0})
  write_to me io = write_steps (prepare me) io

  -- The event loop calls again what was cancelled; here `n` times at most.
  unfoldable pub write_again : ℕ → WriteBlock → Sink → Turn WriteBlock Sink (Unit {0})
  write_again zero me io = record { outcome = Outcome.cancelled; self = me; stream = io }
  write_again (suc n) me io =
      let t = write_to me io in
      let later = write_again n t.self t.stream in
      elim t.outcome [ Outcome.cancelled ↦ later | o ↦ t ]

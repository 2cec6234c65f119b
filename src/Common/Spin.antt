-- ===== src/Common/Spin.antt =====
-- A writer that keeps answering `Ok(0)`: tokio's own `write_all` gives up with `WriteZero`, the
-- loops of src/common.rs go round for ever.
use deltasync.Base.{ℕ, zero, suc, ◌+◌, ◌<◌, ◌≡◌, List, arith, true, length, drop, ltb}
use deltasync.Io.{AsyncWrite, Outcome, Poll}
use deltasync.Common.Drain.{after_write, drain_loop}

module _ (w : AsyncWrite) where
  open w use {Sink, write}

  -- Where the writer answers `Ok(0)` and stays as it is, however many rounds the loop of `write_to`
  -- and of `write_all` is granted, it is not over: it neither returns nor fails while bytes are
  -- left.
  pub drain_loop_spins :
      (fuel offset : ℕ) (buf : List ℕ) (io : Sink)
      → write (drop offset buf) io ≡ (Poll.ready 0, io)
      → offset < length buf
      → (drain_loop w fuel offset buf io).outcome ≡ Outcome.stuck
  unfolding drain_loop after_write
  drain_loop_spins zero offset buf io dead lt =
      let e : ltb offset (length buf) ≡ true = ground arith in rw e
  drain_loop_spins (suc fuel) offset buf io dead lt =
      let e : ltb offset (length buf) ≡ true = ground arith in
      let z : offset + 0 ≡ offset = omega arith in
      rw (e, dead, after_write, z) (drain_loop_spins fuel offset buf io dead lt)

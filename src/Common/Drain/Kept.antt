-- ===== src/Common/Drain/Kept.antt =====
-- What every `write` keeps, the writing loop of src/common.rs keeps.
use deltasync.Base.{ℕ, zero, suc, ◌-◌, List, Bool-cases, inl, inr, length, drop, ltb}
use deltasync.Io.{AsyncWrite, Poll}
use deltasync.Common.Drain.{Drain, drain, drain_loop, after_write}

module _ (w : AsyncWrite) (P : w.Sink → Type 0)
    (keeps : (bs : List ℕ) (s : w.Sink) → P s → P (w.write bs s).1) where
  open w use {Sink}

  after_write-kept :
      (again : ℕ → Sink → Drain Sink) (offset : ℕ) (p : Poll ℕ) (s : Sink)
      → ((o : ℕ) (s' : Sink) → P s' → P (again o s').stream)
      → P s
      → P (after_write w again offset p s).stream
  unfolding after_write
  after_write-kept again offset (Poll.ready n) s ih h = ih _ s h
  after_write-kept again offset Poll.pending s ih h = h
  after_write-kept again offset Poll.failed s ih h = h

  drain_loop-kept :
      (fuel offset : ℕ) (buf : List ℕ) (io : Sink)
      → P io
      → P (drain_loop w fuel offset buf io).stream
  unfolding drain_loop
  drain_loop-kept zero offset buf io h = h
  drain_loop-kept (suc fuel) offset buf io h = elim (Bool-cases (ltb offset (length buf))) [
    | inl e ↦ rw e (
        after_write-kept _ offset _ _ (λ o s. drain_loop-kept fuel o buf s)
          (keeps (drop offset buf) io h))
    | inr e ↦ rw e h
  ]

  pub drain-kept : (offset : ℕ) (buf : List ℕ) (io : Sink) → P io → P (drain w offset buf io).stream
  unfolding drain
  drain-kept offset buf io h = drain_loop-kept (length buf - offset) offset buf io h

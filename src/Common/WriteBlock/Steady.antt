-- ===== src/Common/WriteBlock/Steady.antt =====
-- `ResumableWriteFileBlock::write_to` of src/common.rs fails only where the writer does.
use deltasync.Base.{
  ℕ, zero, suc, ◌-◌, ◌≢◌, refl, List, Bool, true, false, ltb, length, take, drop, if◌then◌else◌,
  Bool-cases, inl, inr, ◌==◌,
}
use deltasync.Io.{AsyncWrite, Poll, Outcome}
use deltasync.Common.Drain.{Drain, drain, drain_loop, after_write}
use deltasync.Common.WriteBlock.{
  WriteBlock, Header, prepare, after_header_write, header_loop, write_payload, after_header,
  write_steps, write_to,
}

-- A writer that never fails.
abbrev pub IsSteady : AsyncWrite → Type 0
IsSteady w = (bs : List ℕ) (s : w.Sink) → (w.write bs s).0 ≢ Poll.failed

abbrev pub IsUnfailed : {A : Type 0} → Outcome A → Type 0
IsUnfailed (Outcome.done a) = Unit
IsUnfailed (Outcome.bail e) = ⊥
IsUnfailed Outcome.cancelled = Unit
IsUnfailed Outcome.stuck = Unit

by_test-IsUnfailed :
    {A : Type 0} (b : Bool) (x y : Outcome A)
    → IsUnfailed x
    → IsUnfailed y
    → IsUnfailed (if b then x else y)
by_test-IsUnfailed true x y h h' = h
by_test-IsUnfailed false x y h h' = h'

module _ (w : AsyncWrite) (steady : IsSteady w) where
  open w use {Sink, write}

  after_write-IsUnfailed :
      (again : ℕ → Sink → Drain Sink) (offset : ℕ) (p : Poll ℕ) (s : Sink)
      → ((o : ℕ) (s' : Sink) → IsUnfailed (again o s').outcome)
      → p ≢ Poll.failed
      → IsUnfailed (after_write w again offset p s).outcome
  unfolding after_write
  after_write-IsUnfailed again offset (Poll.ready n) s h ne = h _ s
  after_write-IsUnfailed again offset Poll.pending s h ne = tt
  after_write-IsUnfailed again offset Poll.failed s h ne = ne refl

  drain_loop-IsUnfailed :
      (fuel offset : ℕ) (buf : List ℕ) (io : Sink)
      → IsUnfailed (drain_loop w fuel offset buf io).outcome
  unfolding drain_loop
  drain_loop-IsUnfailed zero offset buf io =
      by_test-IsUnfailed (ltb offset (length buf)) Outcome.stuck (Outcome.done tt) tt tt
  drain_loop-IsUnfailed (suc fuel) offset buf io = elim (Bool-cases (ltb offset (length buf))) [
    | inl e ↦ rw e (
        after_write-IsUnfailed _ offset _ _ (λ o s. drain_loop-IsUnfailed fuel o buf s)
          (steady (drop offset buf) io))
    | inr e ↦ rw e tt
  ]

  pub drain-IsUnfailed :
      (offset : ℕ) (buf : List ℕ) (io : Sink) → IsUnfailed (drain w offset buf io).outcome
  unfolding drain
  drain-IsUnfailed offset buf io = drain_loop-IsUnfailed (length buf - offset) offset buf io

  after_header_write-IsUnfailed :
      (again : ℕ → List ℕ → Sink → Header Sink) (len : ℕ) (bytes : List ℕ) (p : Poll ℕ) (s : Sink)
      → ((l : ℕ) (bs : List ℕ) (s' : Sink) → IsUnfailed (again l bs s').outcome)
      → p ≢ Poll.failed
      → IsUnfailed (after_header_write w again len bytes p s).outcome
  unfolding after_header_write
  after_header_write-IsUnfailed again len bytes (Poll.ready n) s h ne = h _ _ s
  after_header_write-IsUnfailed again len bytes Poll.pending s h ne = tt
  after_header_write-IsUnfailed again len bytes Poll.failed s h ne = ne refl

  header_loop-IsUnfailed :
      (fuel len : ℕ) (bytes : List ℕ) (io : Sink)
      → IsUnfailed (header_loop w fuel len bytes io).outcome
  unfolding header_loop
  header_loop-IsUnfailed zero len bytes io =
      by_test-IsUnfailed (ltb 0 len) Outcome.stuck (Outcome.done tt) tt tt
  header_loop-IsUnfailed (suc fuel) len bytes io = elim (Bool-cases (ltb 0 len)) [
    | inl e ↦ rw e (
        after_header_write-IsUnfailed _ len bytes _ _ (λ l bs s. header_loop-IsUnfailed fuel l bs s)
          (steady (take len bytes) io))
    | inr e ↦ rw e tt
  ]

  after_header-IsUnfailed :
      (me : WriteBlock) (o : Outcome (Unit {0})) (len : ℕ) (bytes : List ℕ) (s : Sink)
      → IsUnfailed o
      → IsUnfailed
          (after_header w me
            (record { outcome = o; offsetlen = len; offset_bytes = bytes; stream = s })).outcome
  unfolding after_header write_payload
  after_header-IsUnfailed me (Outcome.done u) len bytes s h = drain-IsUnfailed _ _ s
  after_header-IsUnfailed me (Outcome.bail e) len bytes s h = h
  after_header-IsUnfailed me Outcome.cancelled len bytes s h = tt
  after_header-IsUnfailed me Outcome.stuck len bytes s h = tt

  pub write_to-IsUnfailed : (me : WriteBlock) (io : Sink) → IsUnfailed (write_to w me io).outcome
  unfolding write_to write_steps
  write_to-IsUnfailed me io = elim (Bool-cases ((prepare me).step == 1)) [
    | inl e ↦ rw e (after_header-IsUnfailed (prepare me) _ _ _ _ (header_loop-IsUnfailed _ _ _ io))
    | inr e ↦ rw e (unfold write_payload in drain-IsUnfailed _ _ io)
  ]

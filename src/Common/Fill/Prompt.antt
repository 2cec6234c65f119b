-- ===== src/Common/Fill/Prompt.antt =====
-- The loop on a stream that is prompt.
use deltasync.Base.{
  ℕ, zero, suc, ◌-◌, ◌≡◌, ◌≢◌, List, [], ◌∷◌, inl, inr, arith, Bool-cases, length, ltb,
}
use deltasync.Io.{AsyncRead, IsPrompt, Error, Outcome, Poll}
use deltasync.Common.Fill.{Fill, after_read, fill_loop, fill}

module _ (r : AsyncRead) where
  open r use {Source, read}

  -- On a prompt stream no round waits or fails.
  abbrev pub Answers : Outcome (Unit {0}) → Type 0
  Answers o = (o ≢ Outcome.cancelled) × (o ≢ Outcome.bail Error.io)

  after_read-Answers :
      (again : ℕ → List ℕ → Source → Fill Source) (base offset : ℕ) (buf : List ℕ)
      (p : Poll (List ℕ)) (s : Source) {bs : List ℕ}
      → ((offset' : ℕ) (buf' : List ℕ) (io' : Source) → Answers (again offset' buf' io').outcome)
      → p ≡ Poll.ready bs
      → Answers (after_read r again base offset buf p s).outcome
  unfolding after_read
  after_read-Answers again base offset buf (Poll.ready []) s ih e = (λ h. cc, λ h. cc)
  after_read-Answers again base offset buf (Poll.ready (b ∷ bs)) s ih e = ih _ _ s
  after_read-Answers again base offset buf Poll.pending s ih e = cc
  after_read-Answers again base offset buf Poll.failed s ih e = cc

  fill_loop-Answers :
      IsPrompt r
      → (fuel base target offset : ℕ) (buf : List ℕ) (io : Source)
      → Answers (fill_loop r fuel base target offset buf io).outcome
  unfolding fill_loop
  fill_loop-Answers prompt zero base target offset buf io = ground arith
  fill_loop-Answers prompt (suc fuel) base target offset buf io =
      elim (Bool-cases (ltb offset target)) [
        | inl more ↦
            let (bs, e) = prompt (length buf - (offset - base)) io in
            rw more (
              after_read-Answers (fill_loop r fuel base target) base offset buf _ _
                (fill_loop-Answers prompt fuel base target) e)
        | inr over ↦ rw over (λ h. cc, λ h. cc)
      ]

  pub fill-Answers :
      IsPrompt r
      → (base target offset : ℕ) (buf : List ℕ) (io : Source)
      → Answers (fill r base target offset buf io).outcome
  unfolding fill
  fill-Answers prompt base target offset buf io =
      fill_loop-Answers prompt (target - offset) base target offset buf io

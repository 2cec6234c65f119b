-- ===== src/Common/WriteBlock/OffsetLoop.antt =====
-- The loop of `ResumableWriteFileBlock::write_to` over the eight bytes of the offset.
use deltasync.Base.{
  ℕ, zero, suc, ◌-◌, ◌≤◌, ◌<◌, ◌≡◌, ◌≢◌, refl, sym, ap, ◌∙◌, List, [], ◌∷◌, ◌++◌, ◌⊎◌, inl, inr,
  arith, Bool-cases, false, length, length-append, length-drop, length-take, take, drop, ltb, tests,
}
use deltasync.Io.{AsyncWrite, IsOpen, Error, Outcome, Poll, accepted}
use deltasync.Common.Buffer.{take-append_le}
use deltasync.Common.Drain.{write-same}
use deltasync.Common.WriteBlock.{copy_within, Header, after_header_write, header_loop}

length-copy_within :
    (n : ℕ) (bytes : List ℕ) → n ≤ length bytes → length (copy_within n bytes) ≡ length bytes
unfolding copy_within
length-copy_within n bytes h = omega (
  arith,
  length-append (drop n bytes) (drop (length bytes - n) bytes),
  length-drop n bytes,
  length-drop (length bytes - n) bytes,
)

-- The first bytes after the shift are those that were not written.
drop-take :
    (n len : ℕ) (xs : List ℕ)
    → n ≤ len
    → len ≤ length xs
    → drop n (take len xs) ≡ take (len - n) (drop n xs)
drop-take zero len xs h l = ap (λ (k : ℕ). take k xs) (let e : len ≡ len - 0 = omega arith in e)
drop-take (suc n) zero xs h l = absurd (omega arith)
drop-take (suc n) (suc len) [] h l = absurd (omega arith)
drop-take (suc n) (suc len) (x ∷ xs) h l =
    drop-take n len xs (omega arith) (omega arith)
    ∙ ap (λ (k : ℕ). take k (drop n xs)) (let e : len - n ≡ suc len - suc n = omega arith in e)

take-copy_within :
    (n len : ℕ) (bytes : List ℕ)
    → n ≤ len
    → len ≤ length bytes
    → take (len - n) (copy_within n bytes) ≡ drop n (take len bytes)
unfolding copy_within
take-copy_within n len bytes h l =
    take-append_le (len - n) (drop n bytes) _ (omega (arith, length-drop n bytes))
    ∙ sym (drop-take n len bytes h l)

module _ (w : AsyncWrite) where
  open w use {Sink, written, write, write_fits}

  -- What the loop over the offset has written and what is left.
  pub record Sent (len : ℕ) (bytes : List ℕ) (io : Sink) (h : Header Sink) : Type 0 where
    pub same : written io ++ take len bytes ≡ written h.stream ++ take h.offsetlen h.offset_bytes
    pub eight : length h.offset_bytes ≡ 8
    pub within : h.offsetlen ≤ 8
    pub ends :
        ((h.outcome ≡ Outcome.done tt) × (h.offsetlen ≡ 0))
        ⊎ (h.outcome ≡ Outcome.cancelled)
        ⊎ (h.outcome ≡ Outcome.bail Error.io)

  after_header_write-Sent :
      (again : ℕ → List ℕ → Sink → Header Sink) (len : ℕ) (bytes : List ℕ) (io : Sink) (p : Poll ℕ)
      (s : Sink)
      → length bytes ≡ 8
      → len ≤ 8
      → ((l : ℕ) (bs : List ℕ) (s' : Sink) → l < len → length bs ≡ 8 → Sent l bs s' (again l bs s'))
      → written io ++ take len bytes ≡ written s ++ drop (accepted p) (take len bytes)
      → accepted p ≤ len
      → p ≢ Poll.ready 0
      → Sent len bytes io (after_header_write w again len bytes p s)
  unfolding after_header_write
  after_header_write-Sent again len bytes io (Poll.ready zero) s eight le ih e fits open_ =
      absurd (open_ refl)
  after_header_write-Sent again len bytes io (Poll.ready (suc n)) s eight le ih e fits open_ =
      let rest =
        ih (len - suc n) (copy_within (suc n) bytes) s (omega arith)
          (length-copy_within (suc n) bytes (omega arith) ∙ eight) in
      record {
        same =
            e
            ∙ ap (◌++◌ (written s)) (sym (take-copy_within (suc n) len bytes fits (omega arith)))
            ∙ rest.same;
        eight = rest.eight;
        within = rest.within;
        ends = rest.ends;
      }
  after_header_write-Sent again len bytes io Poll.pending s eight le ih e fits open_ = record {
    same = e;
    eight = eight;
    within = le;
    ends = inr (inl refl);
  }
  after_header_write-Sent again len bytes io Poll.failed s eight le ih e fits open_ = record {
    same = e;
    eight = eight;
    within = le;
    ends = inr (inr refl);
  }

  pub header_loop-Sent :
      IsOpen w
      → (fuel len : ℕ) (bytes : List ℕ) (io : Sink) → length bytes ≡ 8
      → len ≤ 8
      → len ≤ fuel
      → Sent len bytes io (header_loop w fuel len bytes io)
  unfolding header_loop
  header_loop-Sent opened zero len bytes io eight le hf =
      let e : ltb 0 len ≡ false = ground arith in
      rw e (record { same = refl; eight = eight; within = le; ends = inl (refl, omega arith) })
  header_loop-Sent opened (suc fuel) len bytes io eight le hf = elim (Bool-cases (ltb 0 len)) [
    | inl more ↦
        let size = length-take len bytes in
        rw more (
          after_header_write-Sent (λ l bs s. header_loop w fuel l bs s) len bytes io _ _ eight le
            (λ l bs s lt e. header_loop-Sent opened fuel l bs s e (omega arith) (omega arith))
            (write-same w (take len bytes) io) (omega (arith, write_fits (take len bytes) io, size))
            (not_zero (take len bytes) io (omega (tests, size))))
    | inr over ↦
        rw over
          (record { same = refl; eight = eight; within = le; ends = inl (refl, ground arith) })
  ]
    where
      not_zero : (bs : List ℕ) (s : Sink) → 0 < length bs → (write bs s).0 ≢ Poll.ready 0
      not_zero [] s h = absurd (omega arith)
      not_zero (b ∷ bs) s h = opened b bs s

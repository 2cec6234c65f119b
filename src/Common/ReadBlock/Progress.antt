-- ===== src/Common/ReadBlock/Progress.antt =====
-- `ResumableReadFileBlock::read_on` on a stream that begins with a block: however often its future
-- is dropped, the block comes out whole, and nothing behind it is touched.
use deltasync.Base.{
  ℕ, zero, suc, ◌-◌, ◌≡◌, ◌≢◌, refl, sym, ap, ◌∙◌, List, ◌++◌, append_assoc, append-nil, ◌⊎◌, inl,
  inr, arith, length, length-append, length-take, take, subst,
}
use deltasync.Bytes.{IsU64, be, length-be}
use deltasync.Io.{AsyncRead, Error, Outcome, Turn}
use deltasync.Common.Frame.{word_injective, append_injective}
use deltasync.Common.ReadBlock.{ReadBlock, Reading, new, current_block_size, read_on, read_again}
use deltasync.Common.ReadBlock.Payload.{block_frame, IsValid, SameSizes, consumed, Ensures}
use deltasync.Common.ReadBlock.Resume.{read_on-FollowsBlock}

-- The block of a file that the transfer puts at `offset`: of the size that the receiver expects.
abbrev pub IsBlock : ReadBlock → ℕ → List ℕ → Type 0
IsBlock me offset block = IsU64 offset × (length block ≡ current_block_size me offset)

module _ (r : AsyncRead) where
  open r use {Source, unread}

  -- The offset is returned with the block in the buffer, and the object is ready for the next one;
  -- or the future was dropped and all is still to be had; or the stream failed.
  abbrev pub DeliversBlock : ReadBlock → ℕ → List ℕ → List ℕ → Turn Reading Source ℕ → Type 0
  DeliversBlock me offset block rest t =
      ((t.outcome ≡ Outcome.done offset)
        × (t.self ≡ record { block = new me.block_size me.file_size; buf = block })
        × (unread t.stream ≡ rest))
      ⊎ ((t.outcome ≡ Outcome.cancelled)
          × IsValid t.self.block t.self.buf
          × SameSizes t.self.block me
          × (consumed t.self.block t.self.buf ++ unread t.stream
              ≡ block_frame offset block ++ rest))
      ⊎ (t.outcome ≡ Outcome.bail Error.io)

  pub not_at_end :
      (me : ReadBlock) (buf : List ℕ) (offset : ℕ) (block rest : List ℕ)
      → IsValid me buf
      → IsBlock me offset block
      → consumed me buf ≢ block_frame offset block ++ rest
  not_at_end me buf offset block rest v fits e = elim v.place [
    | inl h ↦
        let at : consumed me buf ≡ take me.buf_offset buf = ground arith in
        omega (
          arith,
          ap length (sym at ∙ e),
          length-take me.buf_offset buf,
          length-append (block_frame offset block) rest,
          length-append (be 8 offset) block,
          length-be 8 offset,
        )
    | inr p ↦
        let at : consumed me buf ≡ be 8 me.offset ++ take (me.buf_offset - 8) buf = ground arith in
        let (same, body) =
          word_injective me.offset offset p.3 fits.0
            (sym at ∙ e ∙ append_assoc (be 8 offset) block rest) in
        omega (
          arith,
          p.2,
          fits.1,
          ap (current_block_size me) same,
          ap length body,
          length-take (me.buf_offset - 8) buf,
          length-append block rest,
        )
  ]

  pub same-IsBlock :
      (me other : ReadBlock) (offset : ℕ) (block : List ℕ)
      → SameSizes other me
      → IsBlock me offset block
      → IsBlock other offset block
  same-IsBlock me other offset block (b, f) (small, len) = (small, len ∙ sizes)
    where
      sizes : current_block_size me offset ≡ current_block_size other offset
      sizes = unfold current_block_size in ground arith

  deliver :
      (me : ReadBlock) (offset : ℕ) (block rest : List ℕ) (o : Outcome ℕ) (t : Reading)
      (io : Source)
      → IsBlock me offset block
      → Ensures r me (block_frame offset block ++ rest) o t io
      → DeliversBlock me offset block rest (record { outcome = o; self = t; stream = io })
  deliver me offset block rest (Outcome.done n) t io fits h =
      let (e, body) = word_injective offset n fits.0 h.3 (
        sym (append_assoc (be 8 offset) block rest)
        ∙ h.1
        ∙ append_assoc (be 8 n) t.buf (unread io)) in
      let (same, tail) =
        append_injective block t.buf (fits.1 ∙ ap (current_block_size me) e ∙ sym h.2) body in
      inl (ap Outcome.done (sym e), λ i. record { block = h.0 i; buf = sym same i }, sym tail)
  deliver me offset block rest Outcome.cancelled t io fits h = inr (inl (refl, h.0, h.1, sym h.2))
  deliver me offset block rest (Outcome.bail Error.io) t io fits h = inr (inr refl)
  deliver me offset block rest (Outcome.bail Error.closed_by_peer) t io fits (h, eof) = absurd (
      not_at_end t.block t.buf offset block rest h.0 (same-IsBlock me t.block offset block h.1 fits)
        (sym (append-nil (consumed t.block t.buf))
          ∙ ap (◌++◌ (consumed t.block t.buf)) (sym eof)
          ∙ sym h.2))
  deliver me offset block rest o t io fits h = absurd h

  -- One call, from any point of the block.
  pub read_on-DeliversBlock :
      (me : ReadBlock) (buf : List ℕ) (io : Source) (offset : ℕ) (block rest : List ℕ)
      → IsValid me buf
      → IsBlock me offset block
      → consumed me buf ++ unread io ≡ block_frame offset block ++ rest
      → DeliversBlock me offset block rest (read_on r me buf io)
  read_on-DeliversBlock me buf io offset block rest v fits e =
      deliver me offset block rest _ _ _ fits (
        subst
          (λ (xs : List ℕ).
            let t = read_on r me buf io in Ensures r me xs t.outcome t.self t.stream)
          e (read_on-FollowsBlock r me buf io v))

  fresh_after :
      (me other : ReadBlock) (offset : ℕ) (block rest : List ℕ) (t : Turn Reading Source ℕ)
      → SameSizes other me
      → DeliversBlock other offset block rest t
      → DeliversBlock me offset block rest t
  fresh_after me other offset block rest t (b, f) (inl d) =
      inl (d.0, d.1 ∙ (λ i. record { block = new (b i) (f i); buf = block }), d.2)
  fresh_after me other offset block rest t (b, f) (inr (inl c)) =
      inr (inl (c.0, c.1, (c.2.0 ∙ b, c.2.1 ∙ f), c.3))
  fresh_after me other offset block rest t (b, f) (inr (inr x)) = inr (inr x)

  -- Any number of calls, each after one that was cancelled.
  pub read_again-DeliversBlock :
      (n : ℕ) (me : ReadBlock) (buf : List ℕ) (io : Source) (offset : ℕ) (block rest : List ℕ)
      → IsValid me buf
      → IsBlock me offset block
      → consumed me buf ++ unread io ≡ block_frame offset block ++ rest
      → DeliversBlock me offset block rest (read_again r n me buf io)
  unfolding read_again
  read_again-DeliversBlock zero me buf io offset block rest v fits e =
      inr (inl (refl, v, (refl, refl), e))
  read_again-DeliversBlock (suc n) me buf io offset block rest v fits e =
      elim (read_on-DeliversBlock me buf io offset block rest v fits e) [
        | inl d ↦ rw (d.0, read_again) (inl d)
        | inr (inl c) ↦
            let t = read_on r me buf io in
            rw (c.0, read_again)
              (fresh_after me t.self.block offset block rest _ c.2 (
                read_again-DeliversBlock n t.self.block t.self.buf t.stream offset block rest c.1
                  (same-IsBlock me t.self.block offset block c.2 fits) c.3))
        | inr (inr x) ↦ rw (x, read_again) (inr (inr x))
      ]

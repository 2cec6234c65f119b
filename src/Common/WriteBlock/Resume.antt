-- ===== src/Common/WriteBlock/Resume.antt =====
-- What `ResumableWriteFileBlock::write_to` has written and what is left make up the block's frame,
-- however often its future is dropped.
use deltasync.Base.{
  subst, ℕ, zero, suc, ◌≤◌, ◌<◌, ◌≡◌, refl, sym, ap, ◌∙◌, List, ◌++◌, append_assoc, append-nil, ◌⊎◌,
  inl, inr, arith, false, true, length, take, drop, replicate, subst, ◌==◌, if◌then◌else◌,
}
use deltasync.Bytes.{be, length-be, be_fill, be_fill-be}
use deltasync.Io.{AsyncWrite, IsOpen, Error, Outcome}
use deltasync.Common.Buffer.{take_all}
use deltasync.Common.Drain.{drain, drain-Drained, drop_all}
use deltasync.Common.ReadBlock.Payload.{block_frame}
use deltasync.Common.WriteBlock.OffsetLoop.{Sent, header_loop-Sent}
use deltasync.Common.WriteBlock.{
  WriteBlock, new, Header, prepare, write_payload, after_header, write_steps, write_to, write_again,
}

-- What is still to be written.
abbrev pub left : WriteBlock → List ℕ
left me =
    if me.step == 0
    then block_frame me.offset me.buf
    else if me.step == 1
    then take me.offsetlen me.offset_bytes ++ me.buf
    else drop me.bufoffset me.buf

pub record IsValid (me : WriteBlock) : Type 0 where
  pub eight : length me.offset_bytes ≡ 8
  pub place :
      ((me.step ≡ 0) × (me.offset_bytes ≡ replicate 8 0) × (me.bufoffset ≡ 0))
      ⊎ ((me.step ≡ 1) × (me.offsetlen ≤ 8) × (me.bufoffset ≡ 0))
      ⊎ ((me.step ≡ 2) × (me.bufoffset ≤ length me.buf))

module _ (w : AsyncWrite) where
  open w use {Sink, written, write, write_fits}

  -- `total` is what is to be on the wire in the end.
  abbrev pub WroteBlock : List ℕ → Outcome (Unit {0}) → WriteBlock → Sink → Type 0
  WroteBlock total o me io =
      ((o ≡ Outcome.done tt) × (written io ≡ total))
      ⊎ ((o ≡ Outcome.cancelled) × IsValid me × (written io ++ left me ≡ total))
      ⊎ ((o ≡ Outcome.bail Error.io) × IsValid me × (written io ++ left me ≡ total))

  write_payload-WroteBlock :
      IsOpen w
      → (me : WriteBlock) (io : Sink) (total : List ℕ) → me.step ≡ 2
      → me.bufoffset ≤ length me.buf
      → length me.offset_bytes ≡ 8
      → written io ++ drop me.bufoffset me.buf ≡ total
      → let t = write_payload w me io in WroteBlock total t.outcome t.self t.stream
  unfolding write_payload
  write_payload-WroteBlock opened me io total two le eight e =
      let d = drain-Drained w opened me.bufoffset me.buf io le in
      let after : WriteBlock = record me { bufoffset = (drain w me.bufoffset me.buf io).offset } in
      let valid : IsValid after = record { eight = eight; place = inr (inr (two, d.within)) } in
      let rest : left after ≡ drop after.bufoffset me.buf = ground arith in
      elim d.ends [
        | inl (o, full) ↦ inl (
          o,
          sym (append-nil _)
              ∙ ap (◌++◌ (written _)) (sym (drop_all _ me.buf (omega arith)))
              ∙ sym d.same
              ∙ e,
        )
        | inr (inl o) ↦ inr (inl (o, valid, ap (◌++◌ (written _)) rest ∙ sym d.same ∙ e))
        | inr (inr o) ↦ inr (inr (o, valid, ap (◌++◌ (written _)) rest ∙ sym d.same ∙ e))
      ]

  after_header-WroteBlock :
      IsOpen w
      → (me : WriteBlock) (io : Sink) (total : List ℕ) (h : Header Sink) → me.step ≡ 1
      → me.bufoffset ≡ 0
      → Sent w me.offsetlen me.offset_bytes io h
      → written io ++ (take me.offsetlen me.offset_bytes ++ me.buf) ≡ total
      → let t = after_header w me h in WroteBlock total t.outcome t.self t.stream
  unfolding after_header
  after_header-WroteBlock opened me io total h one start sent e =
      let me' : WriteBlock = record me { offsetlen = h.offsetlen; offset_bytes = h.offset_bytes } in
      let valid : IsValid me' = record {
        eight = sent.eight;
        place = inr (inl (one, sent.within, start));
      } in
      let rest : left me' ≡ take h.offsetlen h.offset_bytes ++ me.buf = ground arith in
      let kept : written h.stream ++ (take h.offsetlen h.offset_bytes ++ me.buf) ≡ total =
        sym (append_assoc (written h.stream) (take h.offsetlen h.offset_bytes) me.buf)
        ∙ ap (λ (xs : List ℕ). xs ++ me.buf) (sym sent.same)
        ∙ append_assoc (written io) (take me.offsetlen me.offset_bytes) me.buf
        ∙ e in
      elim sent.ends [
        | inl (o, none_left) ↦
            rw (o, after_header)
              (write_payload-WroteBlock opened (record me' { step = 2 }) h.stream total refl
                (omega arith) sent.eight
                (ap (λ (k : ℕ). written h.stream ++ drop k me.buf) start
                  ∙ ap (λ (k : ℕ). written h.stream ++ (take k h.offset_bytes ++ me.buf))
                      (sym none_left)
                  ∙ kept))
        | inr (inl o) ↦
            rw (o, after_header) (inr (inl (refl, valid, ap (◌++◌ (written h.stream)) rest ∙ kept)))
        | inr (inr o) ↦
            rw (o, after_header) (inr (inr (refl, valid, ap (◌++◌ (written h.stream)) rest ∙ kept)))
      ]

  -- Behind the first step the offset's bytes stand ready.
  record Prepared (me m : WriteBlock) : Type 0 where
    valid : IsValid m
    left_same : left m ≡ left me
    started : (m.step ≡ 1) ⊎ (m.step ≡ 2)

  prepare-zero :
      (me : WriteBlock)
      → me.step ≡ 0
      → prepare me
        ≡ record me { offset_bytes = be_fill 8 me.offset me.offset_bytes; offsetlen = 8; step = 1 }
  unfolding prepare
  prepare-zero me h = let e : (me.step == 0) ≡ true = ground arith in rw e

  prepare-started : (me : WriteBlock) → 0 < me.step → prepare me ≡ me
  unfolding prepare
  prepare-started me h = let e : (me.step == 0) ≡ false = ground arith in rw e

  prepare-Prepared : (me : WriteBlock) → IsValid me → Prepared me (prepare me)
  prepare-Prepared me v = elim v.place [
    | inl (z, bytes, start) ↦
        let filled : be_fill 8 me.offset me.offset_bytes ≡ be 8 me.offset =
          ap (be_fill 8 me.offset) bytes ∙ be_fill-be me.offset in
        let whole : left me ≡ block_frame me.offset me.buf = ground arith in
        let size = length-be 8 me.offset in
        subst (Prepared me) (sym (prepare-zero me z)) (record {
          valid = record {
            eight = ap length filled ∙ size;
            place = inr (inl (refl, omega arith, start));
          };
          left_same =
              ap (λ (xs : List ℕ). take 8 xs ++ me.buf) filled
              ∙ ap (λ (xs : List ℕ). xs ++ me.buf)
                  (take_all 8 (be 8 me.offset) (omega (arith, size)))
              ∙ sym whole;
          started = inl refl;
        })
    | inr (inl p) ↦
        subst (Prepared me) (sym (prepare-started me (omega arith)))
          (record { valid = v; left_same = refl; started = inl p.0 })
    | inr (inr p) ↦
        subst (Prepared me) (sym (prepare-started me (omega arith)))
          (record { valid = v; left_same = refl; started = inr p.0 })
  ]

  -- From the second step on.
  write_steps-WroteBlock :
      IsOpen w
      → (me : WriteBlock) (io : Sink) (total : List ℕ) → IsValid me
      → (me.step ≡ 1) ⊎ (me.step ≡ 2)
      → written io ++ left me ≡ total
      → let t = write_steps w me io in WroteBlock total t.outcome t.self t.stream
  unfolding write_steps
  write_steps-WroteBlock opened me io total v (inl one) e =
      let at : (me.step == 1) ≡ true = ground arith in
      let whole : left me ≡ take me.offsetlen me.offset_bytes ++ me.buf = ground arith in
      let place : (me.offsetlen ≤ 8) × (me.bufoffset ≡ 0) = ground (arith, v.place) in
      rw at (
        after_header-WroteBlock opened me io total _ one place.1
          (header_loop-Sent w opened me.offsetlen me.offsetlen me.offset_bytes io v.eight place.0
            (omega arith))
          (ap (◌++◌ (written io)) (sym whole) ∙ e))
  write_steps-WroteBlock opened me io total v (inr two) e =
      let at : (me.step == 1) ≡ false = ground arith in
      let whole : left me ≡ drop me.bufoffset me.buf = ground arith in
      let place : me.bufoffset ≤ length me.buf = ground (arith, v.place) in
      rw at (
        write_payload-WroteBlock opened me io total two place v.eight
          (ap (◌++◌ (written io)) (sym whole) ∙ e))

  -- One call, from any valid state.
  pub write_to-WroteBlock :
      IsOpen w
      → (me : WriteBlock) (io : Sink) (total : List ℕ) → IsValid me
      → written io ++ left me ≡ total
      → let t = write_to w me io in WroteBlock total t.outcome t.self t.stream
  unfolding write_to
  write_to-WroteBlock opened me io total v e =
      let p = prepare-Prepared me v in
      write_steps-WroteBlock opened (prepare me) io total p.valid p.started
        (ap (◌++◌ (written io)) p.left_same ∙ e)

  -- On an open writer, any number of calls of `ResumableWriteFileBlock::write_to` from a valid
  -- state, each after one that was dropped, keep what is written and what is left to write together
  -- the same bytes: after `Ok` all of them are written, and after a drop or a failure the object is
  -- valid and holds the rest.
  pub write_again-WroteBlock :
      IsOpen w
      → (n : ℕ) (me : WriteBlock) (io : Sink) (total : List ℕ) → IsValid me
      → written io ++ left me ≡ total
      → let t = write_again w n me io in WroteBlock total t.outcome t.self t.stream
  unfolding write_again
  write_again-WroteBlock opened zero me io total v e = inr (inl (refl, v, e))
  write_again-WroteBlock opened (suc n) me io total v e =
      elim (write_to-WroteBlock opened me io total v e) [
        | inl (o, h) ↦ rw (o, write_again) (inl (o, h))
        | inr (inl (o, v', h)) ↦
            let t = write_to w me io in
            rw (o, write_again) (write_again-WroteBlock opened n t.self t.stream total v' h)
        | inr (inr (o, v', h)) ↦ rw (o, write_again) (inr (inr (o, v', h)))
      ]

pub new-IsValid : (offset : ℕ) (block : List ℕ) → IsValid (new offset block)
new-IsValid offset block = record { eight = refl; place = inl (refl, refl, refl) }

-- ===== src/Common/ReadBlock/Resume.antt =====
-- One call of `ResumableReadFileBlock::read_on`, at any point of a block and however it ends.
use deltasync.Base.{
  ℕ, ◌+◌, ◌-◌, ◌≤◌, ◌<◌, ◌≡◌, refl, sym, ap, ◌∙◌, List, ◌++◌, append_assoc, append-nil, inl, inr,
  arith, true, false, length, take, replicate, length-replicate, ltb, subst,
}
use deltasync.Bytes.{
  IsByte, IsU64, All, All-append, All-append_split, be, be_read, be-be_read, be_read-IsU64,
}
use deltasync.Io.{AsyncRead}
use deltasync.Common.Buffer.{resize, length-resize, take-resize, take_all}
use deltasync.Common.Fill.{Fill, fill, Filled, fill-Filled}
use deltasync.Common.ReadBlock.{
  ReadBlock, Reading, current_block_size, read_payload, start_payload, after_header, read_on,
}
use deltasync.Common.ReadBlock.Payload.{
  consumed, held, InHeader, IsValid, Kept, Ensures, FollowsBlock, consumed_payload, moved-Kept,
  read_payload-Ensures,
}

module _ (r : AsyncRead) where
  open r use {Source, unread, unread_bytes}

  -- The header is complete: its eight bytes are the offset.
  start_payload-Ensures :
      (me : ReadBlock) (buf : List ℕ) (io : Source) (total : List ℕ)
      → me.offset ≡ 0
      → me.buf_offset ≡ 8
      → length buf ≡ 8
      → All IsByte buf
      → total ≡ buf ++ unread io
      → let t = start_payload r me buf io in Ensures r me total t.outcome t.self t.stream
  unfolding start_payload
  start_payload-Ensures me buf io total zero_offset off len bytes e =
      let n = be_read 0 buf in
      let read : be_read me.offset (take 8 buf) ≡ n =
        ap (λ (m : ℕ). be_read m (take 8 buf)) zero_offset
        ∙ ap (be_read 0) (take_all 8 buf (omega arith)) in
      let word : be 8 n ≡ buf = be-be_read buf len bytes in
      let start : ReadBlock = record me { offset = n } in
      let block : List ℕ = replicate (current_block_size me n) 0 in
      let at : held start block ≡ be 8 n =
        ap (λ (k : ℕ). be 8 n ++ take k block) (let z : me.buf_offset - 8 ≡ 0 = omega arith in z)
        ∙ append-nil (be 8 n) in
      rw read (
        subst
          (λ (t : List ℕ).
            let u = read_payload r start block io in Ensures r me t u.outcome u.self u.stream)
          (ap (λ (xs : List ℕ). xs ++ unread io) (at ∙ word) ∙ sym e)
          (sizes me n block io (rw (at, word) bytes) (omega arith) (omega arith) (be_read-IsU64 buf)
            (length-replicate {A = ℕ} (current_block_size me n) 0)))
    where
      sizes :
          (me' : ReadBlock) (n : ℕ) (block : List ℕ) (io' : Source)
          → All IsByte (held (record me' { offset = n }) block)
          → 8 ≤ me'.buf_offset
          → me'.buf_offset ≤ length block + 8
          → IsU64 n
          → length block ≡ current_block_size me' n
          → let u = read_payload r (record me' { offset = n }) block io' in
            Ensures r me'
              (held (record me' { offset = n }) block ++ unread io')
              u.outcome
              u.self
              u.stream
      sizes me' n block io' a b c d f =
          unfold current_block_size in
          read_payload-Ensures r (record me' { offset = n }) block io' a b c d f

  -- The header is not complete yet.
  module _ (me : ReadBlock) (buf : List ℕ) (io : Source) (f : Fill Source) (v : IsValid me buf)
      (place : InHeader me buf) (filled : Filled r 0 8 me.buf_offset (resize 8 buf) io f) where
    abbrev waiting : Reading
    waiting = record { block = record me { buf_offset = f.offset }; buf = f.buf }

    consumed_header : consumed me buf ≡ take me.buf_offset buf
    consumed_header = ground arith

    waiting-taken : take f.offset f.buf ≡ consumed me buf ++ filled.got
    waiting-taken =
        ap (λ (k : ℕ). take k f.buf) (let e : f.offset ≡ f.offset - 0 = omega arith in e)
        ∙ filled.kept
        ∙ ap (λ (xs : List ℕ). xs ++ filled.got)
            (ap (λ (k : ℕ). take k (resize 8 buf))
                (let e : me.buf_offset - 0 ≡ me.buf_offset = omega arith in e)
              ∙ take-resize me.buf_offset 8 buf place.2 (omega arith)
              ∙ sym consumed_header)

    waiting-size : length f.buf ≡ 8
    waiting-size = filled.sized ∙ length-resize 8 buf

    waiting-Kept : f.offset < 8 → Kept r me (consumed me buf ++ unread io) waiting f.stream
    waiting-Kept lt =
        moved-Kept r me waiting io f.stream (consumed me buf) filled.got
          (inl (omega (arith, waiting-size))) (refl, refl) v.bytes filled.moved
          (header ∙ waiting-taken)
      where
        header : consumed waiting.block f.buf ≡ take f.offset f.buf
        header = ground arith

    header_done :
        f.offset ≡ 8
        → let t = start_payload r waiting.block f.buf f.stream in
          Ensures r me (consumed me buf ++ unread io) t.outcome t.self t.stream
    header_done full =
        let whole : f.buf ≡ consumed me buf ++ filled.got =
          sym (take_all f.offset f.buf (omega (arith, waiting-size))) ∙ waiting-taken in
        let moved = subst (All IsByte) filled.moved (unread_bytes io) in
        unfold current_block_size in
        start_payload-Ensures waiting.block f.buf f.stream _ place.0 full waiting-size
          (rw whole (
            All-append IsByte (consumed me buf) filled.got v.bytes
              (All-append_split IsByte filled.got (unread f.stream) moved).0))
          (ap (◌++◌ (consumed me buf)) filled.moved
            ∙ sym (append_assoc (consumed me buf) filled.got (unread f.stream))
            ∙ ap (λ (xs : List ℕ). xs ++ unread f.stream) (sym whole))

    after_header-FollowsBlock : FollowsBlock r me buf io (after_header r me f)
    unfolding after_header
    after_header-FollowsBlock = elim filled.ends [
      | inl (e, full) ↦ rw (e, after_header) (header_done full)
      | inr (inl (e, lt)) ↦ rw (e, after_header) (waiting-Kept lt)
      | inr (inr (inl (e, lt, eof))) ↦ rw (e, after_header) (waiting-Kept lt, eof)
      | inr (inr (inr (e, lt))) ↦ rw (e, after_header) (waiting-Kept lt)
    ]

  read_on-header :
      (me : ReadBlock) (buf : List ℕ) (io : Source)
      → me.buf_offset < 8
      → read_on r me buf io ≡ after_header r me (fill r 0 8 me.buf_offset (resize 8 buf) io)
  unfolding read_on
  read_on-header me buf io h = let e : ltb me.buf_offset 8 ≡ true = ground arith in rw e

  read_on-payload :
      (me : ReadBlock) (buf : List ℕ) (io : Source)
      → 8 ≤ me.buf_offset
      → read_on r me buf io ≡ read_payload r me buf io
  unfolding read_on
  read_on-payload me buf io h = let e : ltb me.buf_offset 8 ≡ false = ground arith in rw e

  -- One call of `ResumableReadFileBlock::read_on`, from a valid state and on any stream, whatever
  -- it answers. `Ok(offset)`: the bytes held and those of the stream were the offset and a block of
  -- the size computed from it, the block is in the buffer and the object as new. Dropped, failed or
  -- closed by the peer: the object and its buffer are valid and have lost no byte.
  pub read_on-FollowsBlock :
      (me : ReadBlock) (buf : List ℕ) (io : Source)
      → IsValid me buf
      → FollowsBlock r me buf io (read_on r me buf io)
  read_on-FollowsBlock me buf io v = elim v.place [
    | inl h ↦ subst (FollowsBlock r me buf io) (sym (read_on-header me buf io h.1)) (
        after_header-FollowsBlock me buf io _ v h (
          fill-Filled r 0 8 me.buf_offset (resize 8 buf) io (omega arith) (omega arith)
            (omega (arith, length-resize 8 buf))))
    | inr p ↦
        let at : consumed me buf ≡ held me buf = consumed_payload r me buf p.0 in
        subst (FollowsBlock r me buf io) (sym (read_on-payload me buf io p.0)) (
          subst
            (λ (xs : List ℕ).
              let t = read_payload r me buf io in
              Ensures r me (xs ++ unread io) t.outcome t.self t.stream)
            (sym at)
            (read_payload-Ensures r me buf io (subst (All IsByte) at v.bytes) p.0 (omega arith) p.3
              p.2))
  ]

-- ===== src/Common/ReadBlock/Payload.antt =====
-- What `ResumableReadFileBlock` keeps of the stream, and the part of `read_on` from the payload on.
use deltasync.Base.{
  ℕ, ◌+◌, ◌-◌, ◌≤◌, ◌<◌, ◌≡◌, refl, sym, ap, ◌∙◌, List, [], ◌++◌, append_assoc, ◌⊎◌, inl, inr,
  arith, length, take, ltb, if◌then◌else◌, subst,
}
use deltasync.Bytes.{IsByte, IsU64, All, All-append, All-append_split, be}
use deltasync.Io.{AsyncRead, Error, Outcome, Turn}
use deltasync.Common.Buffer.{take_all}
use deltasync.Common.Fill.{Fill, Filled, fill-Filled}
use deltasync.Common.ReadBlock.{
  ReadBlock, Reading, new, current_block_size, after_payload, read_payload,
}

-- A block on the wire: `u64` offset, then the bytes of the block.
abbrev pub block_frame : ℕ → List ℕ → List ℕ
block_frame offset block = be 8 offset ++ block

-- The bytes of the current block that the object and its buffer have taken from the stream.
abbrev pub consumed : ReadBlock → List ℕ → List ℕ
consumed me buf =
    if ltb me.buf_offset 8
    then take me.buf_offset buf
    else be 8 me.offset ++ take (me.buf_offset - 8) buf

abbrev pub held : ReadBlock → List ℕ → List ℕ
held me buf = be 8 me.offset ++ take (me.buf_offset - 8) buf

abbrev pub InHeader : ReadBlock → List ℕ → Type 0
InHeader me buf = (me.offset ≡ 0) × (me.buf_offset < 8) × (me.buf_offset ≤ length buf)

abbrev pub InPayload : ReadBlock → List ℕ → Type 0
InPayload me buf =
    (8 ≤ me.buf_offset)
    × (me.buf_offset < length buf + 8)
    × (length buf ≡ current_block_size me me.offset)
    × IsU64 me.offset

pub record IsValid (me : ReadBlock) (buf : List ℕ) : Type 0 where
  pub place : InHeader me buf ⊎ InPayload me buf
  pub bytes : All IsByte (consumed me buf)

-- Two objects for one transfer.
abbrev pub SameSizes : ReadBlock → ReadBlock → Type 0
SameSizes a b = (a.block_size ≡ b.block_size) × (a.file_size ≡ b.file_size)

module _ (r : AsyncRead) where
  open r use {Source, unread, unread_bytes}

  abbrev pub Kept : ReadBlock → List ℕ → Reading → Source → Type 0
  Kept me total t io =
      IsValid t.block t.buf × SameSizes t.block me × (total ≡ consumed t.block t.buf ++ unread io)

  -- What each outcome says of the stream `total`.
  abbrev pub Ensures : ReadBlock → List ℕ → Outcome ℕ → Reading → Source → Type 0
  Ensures me total (Outcome.done offset) t io =
      (t.block ≡ new me.block_size me.file_size)
      × (total ≡ block_frame offset t.buf ++ unread io)
      × (length t.buf ≡ current_block_size me offset)
      × IsU64 offset
  Ensures me total Outcome.cancelled t io = Kept me total t io
  Ensures me total (Outcome.bail Error.io) t io = Kept me total t io
  Ensures me total (Outcome.bail Error.closed_by_peer) t io = Kept me total t io × (unread io ≡ [])
  Ensures me total _ t io = ⊥

  abbrev pub FollowsBlock : ReadBlock → List ℕ → Source → Turn Reading Source ℕ → Type 0
  FollowsBlock me buf io t = Ensures me (consumed me buf ++ unread io) t.outcome t.self t.stream

  pub consumed_payload :
      (me : ReadBlock) (buf : List ℕ) → 8 ≤ me.buf_offset → consumed me buf ≡ held me buf
  consumed_payload me buf h = ground arith

  -- Bytes that `got` moves from the stream to the buffer stay in their order.
  pub moved-Kept :
      (me : ReadBlock) (t : Reading) (io s : Source) (before got : List ℕ)
      → InHeader t.block t.buf ⊎ InPayload t.block t.buf
      → SameSizes t.block me
      → All IsByte before
      → unread io ≡ got ++ unread s
      → consumed t.block t.buf ≡ before ++ got
      → Kept me (before ++ unread io) t s
  moved-Kept me t io s before got place sizes bytes e c = (
    record {
      place = place;
      bytes = rw c (
          All-append IsByte before got bytes
            (All-append_split IsByte got (unread s) (subst (All IsByte) e (unread_bytes io))).0);
    },
    sizes,
    ap (◌++◌ before) e
        ∙ sym (append_assoc before got (unread s))
        ∙ ap (λ (xs : List ℕ). xs ++ unread s) (sym c),
  )

  -- From the payload on. `me` may be at its end: a block may be empty.
  module _ (me : ReadBlock) (buf : List ℕ) (io : Source) (f : Fill Source)
      (bytes : All IsByte (held me buf)) (past : 8 ≤ me.buf_offset) (small : IsU64 me.offset)
      (sized : length buf ≡ current_block_size me me.offset)
      (filled : Filled r 8 (length buf + 8) me.buf_offset buf io f) where
    abbrev paused : Reading
    paused = record { block = record me { buf_offset = f.offset }; buf = f.buf }

    paused-held : held paused.block f.buf ≡ held me buf ++ filled.got
    paused-held =
        ap (◌++◌ (be 8 me.offset)) filled.kept
        ∙ sym (append_assoc (be 8 me.offset) (take (me.buf_offset - 8) buf) filled.got)

    paused-Kept : f.offset < length buf + 8 → Kept me (held me buf ++ unread io) paused f.stream
    paused-Kept lt =
        moved-Kept me paused io f.stream (held me buf) filled.got
          (inr (
            omega (arith, filled.counted),
            omega (arith, filled.sized),
            filled.sized ∙ same,
            small,
          ))
          (refl, refl) bytes filled.moved
          (consumed_payload paused.block f.buf (omega (arith, filled.counted)) ∙ paused-held)
      where
        same : length buf ≡ current_block_size paused.block me.offset
        same = unfold current_block_size in sized

    full_frame :
        f.offset ≡ length buf + 8
        → held me buf ++ unread io ≡ block_frame me.offset f.buf ++ unread f.stream
    full_frame e =
        let whole : take (f.offset - 8) f.buf ≡ f.buf =
          take_all (f.offset - 8) f.buf (omega (arith, filled.sized)) in
        ap (◌++◌ (held me buf)) filled.moved
        ∙ sym (append_assoc (held me buf) filled.got (unread f.stream))
        ∙ ap (λ (xs : List ℕ). xs ++ unread f.stream)
            (sym paused-held ∙ ap (◌++◌ (be 8 me.offset)) whole)

    after_payload-Ensures :
        let t = after_payload r me f in
        Ensures me (held me buf ++ unread io) t.outcome t.self t.stream
    unfolding after_payload
    after_payload-Ensures = elim filled.ends [
      | inl (e, full) ↦ rw (e, after_payload) (refl, full_frame full, filled.sized ∙ sized, small)
      | inr (inl (e, lt)) ↦ rw (e, after_payload) (paused-Kept lt)
      | inr (inr (inl (e, lt, eof))) ↦ rw (e, after_payload) (paused-Kept lt, eof)
      | inr (inr (inr (e, lt))) ↦ rw (e, after_payload) (paused-Kept lt)
    ]

  pub read_payload-Ensures :
      (me : ReadBlock) (buf : List ℕ) (io : Source)
      → All IsByte (held me buf)
      → 8 ≤ me.buf_offset
      → me.buf_offset ≤ length buf + 8
      → IsU64 me.offset
      → length buf ≡ current_block_size me me.offset
      → let t = read_payload r me buf io in
        Ensures me (held me buf ++ unread io) t.outcome t.self t.stream
  unfolding read_payload
  read_payload-Ensures me buf io bytes past le small sized =
      after_payload-Ensures me buf io _ bytes past small sized
        (fill-Filled r 8 (length buf + 8) me.buf_offset buf io le past (omega arith))

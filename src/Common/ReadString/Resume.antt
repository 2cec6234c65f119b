-- ===== src/Common/ReadString/Resume.antt =====
-- One call of `read_on`, at any point of a string and however it ends: no byte is lost or read
-- twice.
use deltasync.Base.{
  ℕ, ◌+◌, ◌-◌, ◌<◌, ◌≡◌, refl, sym, ap, ◌∙◌, List, ◌++◌, append_assoc, append-nil, inl, inr, arith,
  true, false, Bool-cases, length, take, replicate, length-replicate, ltb, ltb→lt, ◌==◌, subst,
}
use deltasync.Bytes.{
  IsByte, IsU64, All, All-append, All-append_split, be, be_read, be-be_read, be_read-IsU64,
}
use deltasync.Io.{AsyncRead}
use deltasync.Common.Buffer.{resize, length-resize, take-resize, take_all}
use deltasync.Common.Fill.{Fill, fill, Filled, fill-Filled}
use deltasync.Common.ReadString.{ReadString, read_payload, start_payload, after_header, read_on}
use deltasync.Common.ReadString.Payload.{
  consumed, held, InHeader, IsValid, Kept, Ensures, Follows, consumed_payload, moved-Kept,
  read_payload-Ensures,
}

module _ (r : AsyncRead) where
  open r use {Source, unread, unread_bytes}

  -- The header is complete: its eight bytes are the size.
  start_payload-Ensures :
      (me : ReadString) (io : Source) (total : List ℕ)
      → IsU64 (me.max_len + 8)
      → me.size ≡ 0
      → me.offset ≡ 8
      → length me.buf ≡ 8
      → All IsByte me.buf
      → total ≡ me.buf ++ unread io
      → let t = start_payload r me io in Ensures r me.max_len total t.outcome t.self t.stream
  unfolding start_payload
  start_payload-Ensures me io total fits size off len bytes e =
      let n = be_read 0 me.buf in
      let read : be_read me.size (take 8 me.buf) ≡ n =
        ap (λ (m : ℕ). be_read m (take 8 me.buf)) size
        ∙ ap (be_read 0) (take_all 8 me.buf (omega arith)) in
      let word : be 8 n ≡ me.buf = be-be_read me.buf len bytes in
      let whole : total ≡ be 8 n ++ unread io =
        e ∙ ap (λ (xs : List ℕ). xs ++ unread io) (sym word) in
      let start : ReadString = record me { size = n; buf = replicate n 0 } in
      let at : held start ≡ be 8 n =
        ap (λ (k : ℕ). be 8 n ++ take k (replicate n 0))
          (let z : me.offset - 8 ≡ 0 = omega arith in z)
        ∙ append-nil (be 8 n) in
      elim (Bool-cases (ltb me.max_len n)) [
        | inl long ↦ rw (read, long) (refl, ltb→lt me.max_len n long, be_read-IsU64 me.buf, whole)
        | inr fine ↦
            rw (read, fine)
              (subst
                (λ (t : List ℕ).
                  let u = read_payload r start io in
                  Ensures r me.max_len t u.outcome u.self u.stream)
                (ap (λ (xs : List ℕ). xs ++ unread io) at ∙ sym whole)
                (read_payload-Ensures r start io fits (rw (at, word) bytes) (ground arith)
                  (omega arith) (omega arith) (length-replicate {A = ℕ} n 0)))
      ]

  -- The header is not complete yet.
  module _ (me : ReadString) (io : Source) (f : Fill Source) (v : IsValid me) (place : InHeader me)
      (filled : Filled r 0 8 me.offset (resize 8 me.buf) io f) where
    abbrev waiting : ReadString
    waiting = record me { offset = f.offset; buf = f.buf }

    consumed_header : consumed me ≡ take me.offset me.buf
    consumed_header = ground arith

    waiting-taken : take f.offset f.buf ≡ consumed me ++ filled.got
    waiting-taken =
        ap (λ (k : ℕ). take k f.buf) (let e : f.offset ≡ f.offset - 0 = omega arith in e)
        ∙ filled.kept
        ∙ ap (λ (xs : List ℕ). xs ++ filled.got)
            (ap (λ (k : ℕ). take k (resize 8 me.buf))
                (let e : me.offset - 0 ≡ me.offset = omega arith in e)
              ∙ take-resize me.offset 8 me.buf place.2 (omega arith)
              ∙ sym consumed_header)

    waiting-size : length f.buf ≡ 8
    waiting-size = filled.sized ∙ length-resize 8 me.buf

    waiting-Kept : f.offset < 8 → Kept r me.max_len (consumed me ++ unread io) waiting f.stream
    waiting-Kept lt =
        moved-Kept r waiting me.max_len io f.stream (consumed me) filled.got
          (inl (omega (arith, waiting-size))) refl v.fits v.bytes filled.moved
          (consumed-header' ∙ waiting-taken)
      where
        consumed-header' : consumed waiting ≡ take f.offset f.buf
        consumed-header' = ground arith

    header_done :
        f.offset ≡ 8
        → let t = start_payload r waiting f.stream in
          Ensures r me.max_len (consumed me ++ unread io) t.outcome t.self t.stream
    header_done full =
        let whole : f.buf ≡ consumed me ++ filled.got =
          sym (take_all f.offset f.buf (omega (arith, waiting-size))) ∙ waiting-taken in
        let moved = subst (All IsByte) filled.moved (unread_bytes io) in
        start_payload-Ensures waiting f.stream _ v.fits place.0 full waiting-size
          (rw whole (
            All-append IsByte (consumed me) filled.got v.bytes
              (All-append_split IsByte filled.got (unread f.stream) moved).0))
          (ap (◌++◌ (consumed me)) filled.moved
            ∙ sym (append_assoc (consumed me) filled.got (unread f.stream))
            ∙ ap (λ (xs : List ℕ). xs ++ unread f.stream) (sym whole))

    after_header-Follows : Follows r me io (after_header r me f)
    unfolding after_header
    after_header-Follows = elim filled.ends [
      | inl (e, full) ↦ rw (e, after_header) (header_done full)
      | inr (inl (e, lt)) ↦ rw (e, after_header) (waiting-Kept lt)
      | inr (inr (inl (e, lt, eof))) ↦ rw (e, after_header) (waiting-Kept lt, eof)
      | inr (inr (inr (e, lt))) ↦ rw (e, after_header) (waiting-Kept lt)
    ]

  read_on-header :
      (me : ReadString) (io : Source)
      → me.size ≡ 0
      → read_on r me io ≡ after_header r me (fill r 0 8 me.offset (resize 8 me.buf) io)
  unfolding read_on
  read_on-header me io h = let e : (me.size == 0) ≡ true = ground arith in rw e

  read_on-payload :
      (me : ReadString) (io : Source) → 0 < me.size → read_on r me io ≡ read_payload r me io
  unfolding read_on
  read_on-payload me io h = let e : (me.size == 0) ≡ false = ground arith in rw e

  -- One call of `ResumableReadString::read_on`, from a valid state and on any stream, whatever it
  -- answers. `Ok(s)`: the bytes held and those of the stream were the frame of `s`, `s` is valid
  -- UTF-8 within the limit, and the object is as new. Dropped, failed, or closed by the peer: the
  -- object is valid and has lost no byte, so that the call can be repeated. Too long: the frame
  -- announced more than the limit. Not UTF-8: the frame held such bytes.
  pub read_on-Follows :
      (me : ReadString) (io : Source) → IsValid me → Follows r me io (read_on r me io)
  read_on-Follows me io v = elim v.place [
    | inl h ↦ subst (Follows r me io) (sym (read_on-header me io h.0)) (
        after_header-Follows me io _ v h (
          fill-Filled r 0 8 me.offset (resize 8 me.buf) io (omega arith) (omega arith)
            (omega (arith, length-resize 8 me.buf))))
    | inr p ↦
        let at : consumed me ≡ held me = consumed_payload r me p.0 in
        subst (Follows r me io) (sym (read_on-payload me io p.0)) (
          subst
            (λ (xs : List ℕ).
              let t = read_payload r me io in
              Ensures r me.max_len (xs ++ unread io) t.outcome t.self t.stream)
            (sym at)
            (read_payload-Ensures r me io v.fits (subst (All IsByte) at v.bytes) p.1 p.2
              (omega arith) p.4))
  ]

-- ===== src/Common/ReadString/Payload.antt =====
-- The state of a `ResumableReadString` of src/common.rs, and the loop over the payload.
use deltasync.Base.{
  ℕ, ◌+◌, ◌-◌, ◌%◌, ◌^◌, ◌≤◌, ◌<◌, ◌≡◌, refl, sym, ap, ◌∙◌, List, [], ◌++◌, append_assoc, ◌⊎◌, inl,
  inr, arith, true, false, length, take, ◌==◌, if◌then◌else◌, subst,
}
use deltasync.Bytes.{
  String, IsByte, IsU64, All, All-append, All-append_split, be, is_utf8, from_utf8, from_utf8-cases,
}
use deltasync.Io.{AsyncRead, Error, Outcome, Turn}
use deltasync.Common.Buffer.{take_all}
use deltasync.Common.Frame.{frame}
use deltasync.Common.Fill.{Fill, Filled, fill-Filled}
use deltasync.Common.ReadString.{ReadString, new, to_string, after_payload, read_payload}

-- The bytes of the current string that the object has taken from the stream.
abbrev pub consumed : ReadString → List ℕ
consumed me =
    if me.size == 0 then take me.offset me.buf else be 8 me.size ++ take (me.offset - 8) me.buf

-- The same in the payload, where the size is known.
abbrev pub held : ReadString → List ℕ
held me = be 8 me.size ++ take (me.offset - 8) me.buf

-- Within the header, and within the payload.
abbrev pub InHeader : ReadString → Type 0
InHeader me = (me.size ≡ 0) × (me.offset < 8) × (me.offset ≤ length me.buf) × (length me.buf ≤ 8)

abbrev pub InPayload : ReadString → Type 0
InPayload me =
    (0 < me.size)
    × (me.size ≤ me.max_len)
    × (8 ≤ me.offset)
    × (me.offset < me.size + 8)
    × (length me.buf ≡ me.size)

pub record IsValid (me : ReadString) : Type 0 where
  pub place : InHeader me ⊎ InPayload me
  pub fits : IsU64 (me.max_len + 8)
  pub bytes : All IsByte (consumed me)

module _ (r : AsyncRead) where
  open r use {Source, unread, unread_bytes}

  -- Nothing of the stream `total` is lost: what is not in the object is still to be read.
  abbrev pub Kept : ℕ → List ℕ → ReadString → Source → Type 0
  Kept max total me io = IsValid me × (me.max_len ≡ max) × (total ≡ consumed me ++ unread io)

  -- What each outcome says of the stream, `total` being what the current string and those behind
  -- it are made of.
  abbrev pub Ensures : ℕ → List ℕ → Outcome String → ReadString → Source → Type 0
  Ensures max total (Outcome.done s) me io =
      (me ≡ new max) × (total ≡ frame s ++ unread io) × (is_utf8 s ≡ true) × (length s ≤ max)
  Ensures max total Outcome.cancelled me io = Kept max total me io
  Ensures max total (Outcome.bail Error.io) me io = Kept max total me io
  Ensures max total (Outcome.bail Error.closed_by_peer) me io =
      Kept max total me io × (unread io ≡ [])
  Ensures max total (Outcome.bail (Error.too_long size m)) me io =
      (m ≡ max) × (max < size) × IsU64 size × (total ≡ be 8 size ++ unread io)
  Ensures max total (Outcome.bail Error.invalid_utf8) me io =
      (s : String) × (me ≡ new max)
      × (total ≡ frame s ++ unread io)
      × (is_utf8 s ≡ false)
      × (length s ≤ max)
  Ensures max total _ me io = ⊥

  abbrev pub Follows : ReadString → Source → Turn ReadString Source String → Type 0
  Follows me io t = Ensures me.max_len (consumed me ++ unread io) t.outcome t.self t.stream

  finish :
      (me : ReadString) (buf total : List ℕ) (io : Source)
      → total ≡ frame buf ++ unread io
      → length buf ≤ me.max_len
      → Ensures me.max_len total
          (to_string (from_utf8 buf))
          (record me { offset = 0; size = 0; buf = [] })
          io
  finish me buf total io e h = elim (from_utf8-cases buf) [
    | inl (some_buf, valid) ↦ rw (some_buf, to_string) (refl, e, valid, h)
    | inr (failed, invalid) ↦ rw (failed, to_string) (buf, refl, e, invalid, h)
  ]

  pub consumed_payload : (me : ReadString) → 0 < me.size → consumed me ≡ held me
  consumed_payload me h = ground arith

  -- Bytes that `got` moves from the stream to the object stay in their order.
  pub moved-Kept :
      (self : ReadString) (max : ℕ) (io s : Source) (before got : List ℕ)
      → InHeader self ⊎ InPayload self
      → self.max_len ≡ max
      → IsU64 (max + 8)
      → All IsByte before
      → unread io ≡ got ++ unread s
      → consumed self ≡ before ++ got
      → Kept max (before ++ unread io) self s
  moved-Kept self max io s before got place m fits bytes e c = (
    record {
      place = place;
      fits = rw m fits;
      bytes = rw c (
          All-append IsByte before got bytes
            (All-append_split IsByte got (unread s) (subst (All IsByte) e (unread_bytes io))).0);
    },
    m,
    ap (◌++◌ before) e
        ∙ sym (append_assoc before got (unread s))
        ∙ ap (λ (xs : List ℕ). xs ++ unread s) (sym c),
  )

  -- From the payload on. `me` may be at its end: an empty string has no payload.
  module _ (me : ReadString) (io : Source) (f : Fill Source) (fits : IsU64 (me.max_len + 8))
      (bytes : All IsByte (held me)) (short : me.size ≤ me.max_len) (past : 8 ≤ me.offset)
      (sized : length me.buf ≡ me.size)
      (filled : Filled r 8 (me.size + 8) me.offset me.buf io f) where
    abbrev paused : ReadString
    paused = record me { offset = f.offset; buf = f.buf }

    paused-held : held paused ≡ held me ++ filled.got
    paused-held =
        ap (◌++◌ (be 8 me.size)) filled.kept
        ∙ sym (append_assoc (be 8 me.size) (take (me.offset - 8) me.buf) filled.got)

    paused-Kept : f.offset < me.size + 8 → Kept me.max_len (held me ++ unread io) paused f.stream
    paused-Kept lt =
        moved-Kept paused me.max_len io f.stream (held me) filled.got
          (inr (omega (arith, filled.counted, filled.sized))) refl fits bytes filled.moved
          (consumed_payload paused (omega (arith, filled.counted)) ∙ paused-held)

    -- The payload is complete: the object held the frame.
    full_frame : f.offset ≡ me.size + 8 → held me ++ unread io ≡ frame f.buf ++ unread f.stream
    full_frame e =
        let whole : take (f.offset - 8) f.buf ≡ f.buf =
          take_all (f.offset - 8) f.buf (omega (arith, filled.sized)) in
        let size : me.size ≡ length f.buf = omega (arith, filled.sized) in
        ap (◌++◌ (held me)) filled.moved
        ∙ sym (append_assoc (held me) filled.got (unread f.stream))
        ∙ ap (λ (xs : List ℕ). xs ++ unread f.stream)
            (sym paused-held
              ∙ ap (◌++◌ (be 8 me.size)) whole
              ∙ ap (λ (n : ℕ). be 8 n ++ f.buf) size)

    after_payload-Ensures :
        let t = after_payload r me f in
        Ensures me.max_len (held me ++ unread io) t.outcome t.self t.stream
    unfolding after_payload
    after_payload-Ensures = elim filled.ends [
      | inl (e, full) ↦
          rw (e, after_payload)
            (finish me f.buf _ f.stream (full_frame full) (omega (arith, filled.sized)))
      | inr (inl (e, lt)) ↦ rw (e, after_payload) (paused-Kept lt)
      | inr (inr (inl (e, lt, eof))) ↦ rw (e, after_payload) (paused-Kept lt, eof)
      | inr (inr (inr (e, lt))) ↦ rw (e, after_payload) (paused-Kept lt)
    ]

  pub read_payload-Ensures :
      (me : ReadString) (io : Source)
      → IsU64 (me.max_len + 8)
      → All IsByte (held me)
      → me.size ≤ me.max_len
      → 8 ≤ me.offset
      → me.offset ≤ me.size + 8
      → length me.buf ≡ me.size
      → let t = read_payload r me io in
        Ensures me.max_len (held me ++ unread io) t.outcome t.self t.stream
  unfolding read_payload
  read_payload-Ensures me io fits bytes short past le sized =
      let e : (me.size + 8) % 2 ^ 64 ≡ me.size + 8 = omega arith in
      rw e (
        after_payload-Ensures me io _ fits bytes short past sized
          (fill-Filled r 8 (me.size + 8) me.offset me.buf io le past (omega arith)))

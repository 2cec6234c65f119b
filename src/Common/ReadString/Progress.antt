-- ===== src/Common/ReadString/Progress.antt =====
-- `read_on` on a stream that begins with a string: however often its future is dropped, the string
-- comes out whole, and nothing behind it is touched.
use deltasync.Base.{
  ℕ, zero, suc, ◌+◌, ◌-◌, ◌≤◌, ◌≡◌, ◌≢◌, refl, sym, ap, ◌∙◌, List, ◌++◌, append_assoc, append-nil,
  ◌⊎◌, inl, inr, arith, true, false, length, length-append, length-take, take, subst,
}
use deltasync.Bytes.{String, IsU64, be, length-be, is_utf8}
use deltasync.Io.{AsyncRead, Error, Outcome, Turn}
use deltasync.Common.Frame.{frame, word_injective, frame_injective}
use deltasync.Common.ReadString.{ReadString, new, read_on, read_again}
use deltasync.Common.ReadString.Payload.{IsValid, consumed, Ensures}
use deltasync.Common.ReadString.Resume.{read_on-Follows}

module _ (r : AsyncRead) where
  open r use {Source, unread}

  -- The string is returned, the object is ready for the next one and the stream stands behind the
  -- string; or the future was dropped and all is still to be had; or the stream failed.
  abbrev pub Delivers : ℕ → String → List ℕ → Turn ReadString Source String → Type 0
  Delivers max s rest t =
      ((t.outcome ≡ Outcome.done s) × (t.self ≡ new max) × (unread t.stream ≡ rest))
      ⊎ ((t.outcome ≡ Outcome.cancelled)
          × IsValid t.self
          × (t.self.max_len ≡ max)
          × (consumed t.self ++ unread t.stream ≡ frame s ++ rest))
      ⊎ (t.outcome ≡ Outcome.bail Error.io)

  -- An object that has not finished the string holds less than all of it.
  not_at_end :
      (me : ReadString) (s : String) (rest : List ℕ)
      → IsValid me
      → IsU64 (length s)
      → consumed me ≢ frame s ++ rest
  not_at_end me s rest v small e = elim v.place [
    | inl h ↦
        let at : consumed me ≡ take me.offset me.buf = ground arith in
        omega (
          arith,
          ap length (sym at ∙ e),
          length-take me.offset me.buf,
          length-append (frame s) rest,
          length-append (be 8 (length s)) s,
          length-be 8 (length s),
        )
    | inr p ↦
        let at : consumed me ≡ be 8 me.size ++ take (me.offset - 8) me.buf = ground arith in
        let (size, body) =
          word_injective me.size (length s) (omega (arith, v.fits)) small
            (sym at ∙ e ∙ append_assoc (be 8 (length s)) s rest) in
        omega
          (arith, size, ap length body, length-take (me.offset - 8) me.buf, length-append s rest)
  ]

  deliver :
      (max : ℕ) (s : String) (rest : List ℕ) (o : Outcome String) (me : ReadString) (io : Source)
      → IsU64 (max + 8)
      → is_utf8 s ≡ true
      → length s ≤ max
      → Ensures r max (frame s ++ rest) o me io
      → Delivers max s rest (record { outcome = o; self = me; stream = io })
  deliver max s rest (Outcome.done t) me io fits valid short h =
      let (e, f) = frame_injective s t (omega arith) (omega arith) h.1 in
      inl (ap Outcome.done (sym e), h.0, sym f)
  deliver max s rest Outcome.cancelled me io fits valid short h =
      inr (inl (refl, h.0, h.1, sym h.2))
  deliver max s rest (Outcome.bail Error.io) me io fits valid short h = inr (inr refl)
  deliver max s rest (Outcome.bail Error.closed_by_peer) me io fits valid short (h, eof) = absurd (
      not_at_end me s rest h.0 (omega arith)
        (sym (append-nil (consumed me)) ∙ ap (◌++◌ (consumed me)) (sym eof) ∙ sym h.2))
  deliver max s rest (Outcome.bail (Error.too_long size m)) me io fits valid short h =
      let (e, f) =
        word_injective (length s) size (omega arith) h.2
          (sym (append_assoc (be 8 (length s)) s rest) ∙ h.3) in
      absurd (omega (arith, e, h.1))
  deliver max s rest (Outcome.bail Error.invalid_utf8) me io fits valid short h =
      let (e, f) = frame_injective s h.0 (omega arith) (omega arith) h.2 in
      cc (subst (λ (t : String). is_utf8 t ≡ false) (sym e) h.3)
  deliver max s rest o me io fits valid short h = absurd h

  -- One call, from any point of the string.
  pub read_on-Delivers :
      (me : ReadString) (io : Source) (s : String) (rest : List ℕ)
      → IsValid me
      → consumed me ++ unread io ≡ frame s ++ rest
      → is_utf8 s ≡ true
      → length s ≤ me.max_len
      → Delivers me.max_len s rest (read_on r me io)
  read_on-Delivers me io s rest v e valid short =
      deliver me.max_len s rest _ _ _ v.fits valid short (
        subst
          (λ (xs : List ℕ).
            let t = read_on r me io in Ensures r me.max_len xs t.outcome t.self t.stream)
          e (read_on-Follows r me io v))

  -- Where the bytes held by a valid `ResumableReadString` and those of the stream start with the
  -- frame of a string within the limit, any number of calls, each after one that was dropped at a
  -- point where it waited, return that string, with the object as new and the stream just behind
  -- the frame; or the last call was dropped too and no byte is lost; or the stream failed.
  pub read_again-Delivers :
      (n : ℕ) (me : ReadString) (io : Source) (s : String) (rest : List ℕ)
      → IsValid me
      → consumed me ++ unread io ≡ frame s ++ rest
      → is_utf8 s ≡ true
      → length s ≤ me.max_len
      → Delivers me.max_len s rest (read_again r n me io)
  unfolding read_again
  read_again-Delivers zero me io s rest v e valid short = inr (inl (refl, v, refl, e))
  read_again-Delivers (suc n) me io s rest v e valid short =
      elim (read_on-Delivers me io s rest v e valid short) [
        | inl d ↦ rw (d.0, read_again) (inl d)
        | inr (inl c) ↦
            rw (c.0, read_again)
              (let t = read_on r me io in
                subst (λ (m : ℕ). Delivers m s rest (read_again r n t.self t.stream)) c.2
                  (read_again-Delivers n t.self t.stream s rest c.1 c.3 valid (rw c.2 short)))
        | inr (inr f) ↦ rw (f, read_again) (inr (inr f))
      ]

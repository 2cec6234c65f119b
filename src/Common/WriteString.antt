-- ===== src/Common/WriteString.antt =====
-- `ResumableWriteString` and `ResumableAsyncWriteAll` of src/common.rs.
use deltasync.Base.{
  ℕ, zero, suc, ◌≤◌, ◌≡◌, refl, sym, ap, ◌∙◌, List, ◌++◌, append-nil, ◌⊎◌, inl, inr, arith, length,
  drop, replicate,
}
use deltasync.Bytes.{String, be_fill, be_fill-be}
use deltasync.Io.{AsyncWrite, IsOpen, Error, Outcome, Turn}
use deltasync.Common.Frame.{frame}
use deltasync.Common.Drain.{drain, drain-Drained, drop_all}

pub record WriteString : Type 0 where
  pub offset : ℕ
  pub buf : List ℕ

-- `ResumableWriteString::new`: the length fills the first eight bytes.
unfoldable pub new : String → WriteString
new src = record { offset = 0; buf = be_fill 8 (length src) (replicate 8 0) ++ src }

-- `ResumableAsyncWriteAll`, without the borrowed writer.
pub record WriteAll : Type 0 where
  pub offset : ℕ

module _ (w : AsyncWrite) where
  open w use {Sink, written}

  -- `ResumableWriteString::write_to`
  unfoldable pub write_to : WriteString → Sink → Turn WriteString Sink (Unit {0})
  write_to me io =
      let d = drain w me.offset me.buf io in
      record { outcome = d.outcome; self = record me { offset = d.offset }; stream = d.stream }

  -- `ResumableAsyncWriteAll::write_all`
  unfoldable pub write_all : WriteAll → List ℕ → Sink → Turn WriteAll Sink (Unit {0})
  write_all me bytes io =
      let d = drain w me.offset bytes io in
      record { outcome = d.outcome; self = record { offset = d.offset }; stream = d.stream }

  -- The event loop calls again what was cancelled; here `n` times at most.
  unfoldable pub write_again : ℕ → WriteString → Sink → Turn WriteString Sink (Unit {0})
  write_again zero me io = record { outcome = Outcome.cancelled; self = me; stream = io }
  write_again (suc n) me io =
      let t = write_to me io in
      let later = write_again n t.self t.stream in
      elim t.outcome [ Outcome.cancelled ↦ later | o ↦ t ]

  unfoldable pub write_all_again : ℕ → WriteAll → List ℕ → Sink → Turn WriteAll Sink (Unit {0})
  write_all_again zero me bytes io = record { outcome = Outcome.cancelled; self = me; stream = io }
  write_all_again (suc n) me bytes io =
      let t = write_all me bytes io in
      let later = write_all_again n t.self bytes t.stream in
      elim t.outcome [ Outcome.cancelled ↦ later | o ↦ t ]

  -- `total` is all that is to be on the wire: after `Ok` it is there, and until then what is there
  -- and what is left make it up.
  abbrev pub Wrote : List ℕ → List ℕ → ℕ → Outcome (Unit {0}) → Sink → Type 0
  Wrote total buf offset o io =
      ((o ≡ Outcome.done tt) × (written io ≡ total))
      ⊎ ((o ≡ Outcome.cancelled) × (offset ≤ length buf) × (written io ++ drop offset buf ≡ total))
      ⊎ ((o ≡ Outcome.bail Error.io)
          × (offset ≤ length buf)
          × (written io ++ drop offset buf ≡ total))

  pub drain-Wrote :
      IsOpen w
      → (offset : ℕ) (buf : List ℕ) (io : Sink) (total : List ℕ) → offset ≤ length buf
      → written io ++ drop offset buf ≡ total
      → let d = drain w offset buf io in Wrote total buf d.offset d.outcome d.stream
  drain-Wrote opened offset buf io total le e =
      let d = drain-Drained w opened offset buf io le in
      elim d.ends [
        | inl (o, full) ↦ inl (
          o,
          sym (append-nil _)
              ∙ ap (◌++◌ (written _)) (sym (drop_all _ buf (omega arith)))
              ∙ sym d.same
              ∙ e,
        )
        | inr (inl o) ↦ inr (inl (o, d.within, sym d.same ∙ e))
        | inr (inr o) ↦ inr (inr (o, d.within, sym d.same ∙ e))
      ]

  -- On an open writer, any number of calls of `ResumableWriteString::write_to`, each after one that
  -- was dropped, keep what is written and what is left to write together the same bytes: after `Ok`
  -- all of them are written, and after a drop or a failure the object holds the rest.
  pub write_again-Wrote :
      IsOpen w
      → (n : ℕ) (me : WriteString) (io : Sink) (total : List ℕ) → me.offset ≤ length me.buf
      → written io ++ drop me.offset me.buf ≡ total
      → let t = write_again n me io in Wrote total me.buf t.self.offset t.outcome t.stream
  unfolding write_again write_to
  write_again-Wrote opened zero me io total le e = inr (inl (refl, le, e))
  write_again-Wrote opened (suc n) me io total le e =
      elim (drain-Wrote opened me.offset me.buf io total le e) [
        | inl (o, h) ↦ rw (o, write_again) (inl (o, h))
        | inr (inl (o, within, h)) ↦
            rw (o, write_again) (write_again-Wrote opened n _ _ total within h)
        | inr (inr (o, within, h)) ↦ rw (o, write_again) (inr (inr (o, within, h)))
      ]

  pub new-frame : (s : String) → (new s).buf ≡ frame s
  unfolding new
  new-frame s = ap (λ (xs : List ℕ). xs ++ s) (be_fill-be (length s))

  pub write_new-Wrote :
      IsOpen w
      → (n : ℕ) (s : String) (io : Sink)
      → let t = write_again n (new s) io in
        Wrote (written io ++ frame s) (new s).buf t.self.offset t.outcome t.stream
  write_new-Wrote opened n s io =
      write_again-Wrote opened n (new s) io (written io ++ frame s) (unfold new in omega arith)
        (ap (◌++◌ (written io)) (start s ∙ new-frame s))
    where
      start : (s' : String) → drop (new s').offset (new s').buf ≡ (new s').buf
      start s' = unfold new in refl

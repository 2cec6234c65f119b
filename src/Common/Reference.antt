-- ===== src/Common/Reference.antt =====
-- `ResumableReadString::read_on` of src/common.rs against `read_string`, which it stands for.
use deltasync.Base.{ℕ, ◌+◌, ◌≡◌, refl, sym, subst, ◌∙◌, inl, inr, arith}
use deltasync.Bytes.{String, IsU64}
use deltasync.Io.{AsyncRead, IsPrompt, Error, Outcome, Result}
use deltasync.Common.ReadString
use deltasync.Common.ReadString.Payload.{Ensures}
use deltasync.Common.ReadString.Prompt.{read_on_prompt}
use deltasync.Common.ReadString.Resume.{read_on-Follows}
use deltasync.Common.RoundTrip.{ReadString_new-IsValid}
use deltasync.Common.Text.{read_string, read_string-frame, read_string_sound}

module _ (r : AsyncRead) where
  open r use {Source, unread}

  -- One string, with the same bytes behind it; only a failure of the stream keeps `read_string` from
  -- it.
  abbrev pub Agrees : Result (String × Source) → Outcome String → Source → Type 0
  Agrees (Result.ok (s, io')) o io = (o ≡ Outcome.done s) × (unread io ≡ unread io')
  Agrees (Result.err e) (Outcome.done s) io = e ≡ Error.io
  Agrees (Result.err e) o io = Unit

  -- On a stream that neither waits nor fails a poll, one call of a new
  -- `ResumableReadString::read_on` does what `read_string` does: it returns the string that
  -- `read_string` returns and leaves the same bytes; and where `read_string` fails while it returns
  -- a string, `read_string` has failed to read. The limit and 8 bytes fit a `u64`.
  pub read_on-read_string :
      IsPrompt r
      → (max : ℕ) (io : Source) → IsU64 (max + 8)
      → let t = ReadString.read_on r (ReadString.new max) io in
        Agrees (read_string r max io) t.outcome t.stream
  read_on-read_string prompt max io fits = by_result (read_string r max io) refl
    where
      by_outcome :
          (e : Error) (o : Outcome String)
          → read_string r max io ≡ Result.err e
          → (ReadString.read_on r (ReadString.new max) io).outcome ≡ o
          → Agrees (Result.err e) o (ReadString.read_on r (ReadString.new max) io).stream
      by_outcome e (Outcome.done s) failed done =
          let t = ReadString.read_on r (ReadString.new max) io in
          let (same, sent, valid, short) =
            subst (λ (o : Outcome String). Ensures r max (unread io) o t.self t.stream) done
              (read_on-Follows r (ReadString.new max) io (ReadString_new-IsValid max fits)) in
          elim (read_string-frame r max io s (unread t.stream) sent valid short
            (omega (arith, fits))) [
              | inl err ↦ cc (sym failed ∙ err)
              | inr (io', ok, rest) ↦ absurd (cc (sym failed ∙ ok))
            ]
      by_outcome e (Outcome.bail x) failed done = tt
      by_outcome e Outcome.cancelled failed done = tt
      by_outcome e Outcome.stuck failed done = tt

      by_result :
          (x : Result (String × Source))
          → read_string r max io ≡ x
          → let t = ReadString.read_on r (ReadString.new max) io in Agrees x t.outcome t.stream
      by_result (Result.ok (s, io')) e =
          let (sent, short, valid) = read_string_sound r max io s io' e in
          let (done, same, rest) =
            read_on_prompt r prompt (ReadString.new max) io s (unread io')
              (ReadString_new-IsValid max fits) sent valid short in
          (done, rest)
      by_result (Result.err e) failed =
          by_outcome e (ReadString.read_on r (ReadString.new max) io).outcome failed refl

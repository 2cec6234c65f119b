-- ===== src/Common/RoundTrip.antt =====
-- Writers and readers of src/common.rs against each other: what one side of the connection writes,
-- the other reads, whatever cancellations either side goes through.
use deltasync.Base.{
  ℕ, ◌+◌, ◌≤◌, ◌≡◌, refl, ap, ◌∙◌, List, [], ◌++◌, inl, inr, arith, true, length, ◌⊎◌,
}
use deltasync.Bytes.{String, IsU64, is_utf8}
use deltasync.Io.{AsyncRead, AsyncWrite, IsOpen, Error, Outcome, Result}
use deltasync.Common.Frame.{frame}
use deltasync.Common.ReadString
use deltasync.Common.ReadString.Progress.{Delivers, read_again-Delivers}
use deltasync.Common.ReadString.Payload
use deltasync.Common.WriteString
use deltasync.Common.WriteString.{write_new-Wrote}
use deltasync.Common.Text.{write_string, read_string, write_string-frame, read_string-frame}
use deltasync.Common.ReadBlock
use deltasync.Common.ReadBlock.Payload.{block_frame, IsValid}
use deltasync.Common.ReadBlock.Progress.{IsBlock, DeliversBlock, read_again-DeliversBlock}
use deltasync.Common.WriteBlock
use deltasync.Common.WriteBlock.Resume.{write_again-WroteBlock, new-IsValid}

pub ReadString_new-IsValid : (max : ℕ) → IsU64 (max + 8) → Payload.IsValid (ReadString.new max)
ReadString_new-IsValid max fits = record { place = inl (omega arith); fits = fits; bytes = tt }

pub ReadBlock_new-IsValid :
    (block_size file_size : ℕ) (buf : List ℕ) → IsValid (ReadBlock.new block_size file_size) buf
ReadBlock_new-IsValid block_size file_size buf = record { place = inl (omega arith); bytes = tt }

module _ (w : AsyncWrite) (r : AsyncRead) where
  open w use {Sink, written}
  open r use {Source, unread}

  -- What the wire holds once a string has been written.
  written_string :
      IsOpen w
      → (n : ℕ) (s : String) (io : Sink)
      → (WriteString.write_again w n (WriteString.new s) io).outcome ≡ Outcome.done tt
      → written (WriteString.write_again w n (WriteString.new s) io).stream ≡ written io ++ frame s
  written_string opened n s io ok = elim (write_new-Wrote w opened n s io) [
    | inl (o, h) ↦ h
    | inr (inl (o, le, h)) ↦ cc
    | inr (inr (o, le, h)) ↦ cc
  ]

  -- What `ResumableWriteString::write_to` has sent on an open writer, however often it was dropped
  -- and called again, is read by `ResumableReadString::read_on`, however often it is dropped and
  -- called again: as the same string, with the bytes behind it left on the stream. The string is
  -- valid UTF-8 and within the limit of the reader; the reader may also still wait, with nothing
  -- lost, or its stream fail.
  pub read_again-write_again :
      IsOpen w
      → (n m : ℕ) (s : String) (io : Sink) (src : Source) (max : ℕ) (rest : List ℕ)
      → written io ≡ []
      → (WriteString.write_again w n (WriteString.new s) io).outcome ≡ Outcome.done tt
      → unread src ≡ written (WriteString.write_again w n (WriteString.new s) io).stream ++ rest
      → is_utf8 s ≡ true
      → length s ≤ max
      → IsU64 (max + 8)
      → Delivers r max s rest (ReadString.read_again r m (ReadString.new max) src)
  read_again-write_again opened n m s io src max rest empty ok sent valid short fits =
      read_again-Delivers r m (ReadString.new max) src s rest (ReadString_new-IsValid max fits)
        (sent
          ∙ ap (λ (xs : List ℕ). xs ++ rest)
              (written_string opened n s io ok ∙ ap (λ (xs : List ℕ). xs ++ frame s) empty))
        valid short

  -- What `ResumableWriteString::write_to` has sent on an open writer is read by `read_string` as
  -- the same string, with the bytes behind it left on the stream, unless the stream fails. The
  -- string is valid UTF-8 and within the limit of the reader.
  read_string-write_again :
      IsOpen w
      → (n : ℕ) (s : String) (io : Sink) (src : Source) (max : ℕ) (rest : List ℕ) → written io ≡ []
      → (WriteString.write_again w n (WriteString.new s) io).outcome ≡ Outcome.done tt
      → unread src ≡ written (WriteString.write_again w n (WriteString.new s) io).stream ++ rest
      → is_utf8 s ≡ true
      → length s ≤ max
      → IsU64 max
      → (read_string r max src ≡ Result.err Error.io)
        ⊎ ((src' : Source) × (read_string r max src ≡ Result.ok (s, src')) × (unread src' ≡ rest))
  read_string-write_again opened n s io src max rest empty ok sent valid short fits =
      read_string-frame r max src s rest
        (sent
          ∙ ap (λ (xs : List ℕ). xs ++ rest)
              (written_string opened n s io ok ∙ ap (λ (xs : List ℕ). xs ++ frame s) empty))
        valid short fits

  -- What `write_string` has sent is read by any number of calls of `ResumableReadString::read_on`
  -- as the same string, with the bytes behind it left on the stream; or the reader still waits,
  -- with nothing lost, or its stream fails. The string is valid UTF-8 and within the limit of the
  -- reader.
  read_again-write_string :
      (m : ℕ) (s : String) (io io' : Sink) (src : Source) (max : ℕ) (rest : List ℕ)
      → written io ≡ []
      → write_string w s io ≡ Result.ok io'
      → unread src ≡ written io' ++ rest
      → is_utf8 s ≡ true
      → length s ≤ max
      → IsU64 (max + 8)
      → Delivers r max s rest (ReadString.read_again r m (ReadString.new max) src)
  read_again-write_string m s io io' src max rest empty ok sent valid short fits =
      read_again-Delivers r m (ReadString.new max) src s rest (ReadString_new-IsValid max fits)
        (sent
          ∙ ap (λ (xs : List ℕ). xs ++ rest)
              (write_string-frame w s io io' ok ∙ ap (λ (xs : List ℕ). xs ++ frame s) empty))
        valid short

  -- What `ResumableWriteFileBlock::write_to` has sent on an open writer, however often it was
  -- dropped and called again, is read by `ResumableReadFileBlock::read_on`, however often it is
  -- dropped and called again: the same offset, the same block in the buffer, and the bytes behind
  -- it left on the stream; or the reader still waits, with nothing lost, or its stream fails. The
  -- block has the size that the reader computes from the offset.
  pub read_block-write_block :
      IsOpen w
      → (n m : ℕ) (offset : ℕ) (block : List ℕ) (io : Sink) (src : Source)
        (block_size file_size : ℕ) (buf rest : List ℕ)
      → written io ≡ []
      → (WriteBlock.write_again w n (WriteBlock.new offset block) io).outcome ≡ Outcome.done tt
      → unread src
        ≡ written (WriteBlock.write_again w n (WriteBlock.new offset block) io).stream ++ rest
      → IsBlock (ReadBlock.new block_size file_size) offset block
      → DeliversBlock r
          (ReadBlock.new block_size file_size)
          offset
          block
          rest
          (ReadBlock.read_again r m (ReadBlock.new block_size file_size) buf src)
  read_block-write_block opened n m offset block io src block_size file_size buf rest empty ok sent
        fits =
      read_again-DeliversBlock r m (ReadBlock.new block_size file_size) buf src offset block rest
        (ReadBlock_new-IsValid block_size file_size buf) fits
        (sent ∙ ap (λ (xs : List ℕ). xs ++ rest) (written_block ∙ alone))
    where
      written_block :
          written (WriteBlock.write_again w n (WriteBlock.new offset block) io).stream
          ≡ written io ++ block_frame offset block
      written_block =
          elim (write_again-WroteBlock w opened n (WriteBlock.new offset block) io
            (written io ++ block_frame offset block) (new-IsValid offset block) refl) [
              | inl (o, h) ↦ h
              | inr (inl (o, h, k)) ↦ cc
              | inr (inr (o, h, k)) ↦ cc
            ]

      alone : written io ++ block_frame offset block ≡ block_frame offset block
      alone = ap (λ (xs : List ℕ). xs ++ block_frame offset block) empty

-- ===== src/Common/ReadString/Prompt.antt =====
-- `read_on` on a stream that never makes it wait returns within one call.
use deltasync.Base.{
  ℕ, ◌≤◌, ◌≡◌, ◌≢◌, refl, List, ◌++◌, inl, inr, true, length, take, Bool-cases, Option, none, some,
  ltb, ◌==◌,
}
use deltasync.Bytes.{String, be_read, is_utf8, from_utf8}
use deltasync.Io.{AsyncRead, IsPrompt, Error, Outcome}
use deltasync.Common.Frame.{frame}
use deltasync.Common.Fill.{fill_end}
use deltasync.Common.Fill.Prompt.{Answers as FillAnswers, fill-Answers}
use deltasync.Common.ReadString.{
  ReadString, new, to_string, after_payload, read_payload, start_payload, after_header, read_on,
}
use deltasync.Common.ReadString.Payload.{IsValid, consumed}
use deltasync.Common.ReadString.Progress.{read_on-Delivers}

module _ (r : AsyncRead) where
  open r use {Source, unread}

  abbrev Answers : Outcome String → Type 0
  Answers o = (o ≢ Outcome.cancelled) × (o ≢ Outcome.bail Error.io)

  to_string-Answers : (o : Option String) → Answers (to_string o)
  to_string-Answers none = (λ h. cc, λ h. cc)
  to_string-Answers (some s) = (λ h. cc, λ h. cc)

  after_payload-Answers :
      (me : ReadString) (o : Outcome (Unit {0})) (offset : ℕ) (buf : List ℕ) (io : Source)
      → FillAnswers r o
      → Answers (after_payload r me (fill_end o offset buf io)).outcome
  unfolding after_payload
  after_payload-Answers me (Outcome.done u) offset buf io h = to_string-Answers (from_utf8 buf)
  after_payload-Answers me (Outcome.bail e) offset buf io h = (λ k. cc, λ k. h.1 (cc))
  after_payload-Answers me Outcome.cancelled offset buf io h = absurd (h.0 refl)
  after_payload-Answers me Outcome.stuck offset buf io h = (λ k. cc, λ k. cc)

  start_payload-Answers :
      IsPrompt r → (me : ReadString) (io : Source) → Answers (start_payload r me io).outcome
  unfolding start_payload read_payload
  start_payload-Answers prompt me io =
      elim (Bool-cases (ltb me.max_len (be_read me.size (take 8 me.buf)))) [
        | inl long ↦ rw long (λ k. cc, λ k. cc)
        | inr fine ↦ rw fine (after_payload-Answers _ _ _ _ _ (fill-Answers r prompt 8 _ _ _ io))
      ]

  after_header-Answers :
      IsPrompt r
      → (me : ReadString) (o : Outcome (Unit {0})) (offset : ℕ) (buf : List ℕ) (io : Source)
      → FillAnswers r o
      → Answers (after_header r me (fill_end o offset buf io)).outcome
  unfolding after_header
  after_header-Answers prompt me (Outcome.done u) offset buf io h =
      start_payload-Answers prompt _ io
  after_header-Answers prompt me (Outcome.bail e) offset buf io h = (λ k. cc, λ k. h.1 (cc))
  after_header-Answers prompt me Outcome.cancelled offset buf io h = absurd (h.0 refl)
  after_header-Answers prompt me Outcome.stuck offset buf io h = (λ k. cc, λ k. cc)

  read_on-Answers : IsPrompt r → (me : ReadString) (io : Source) → Answers (read_on r me io).outcome
  unfolding read_on read_payload
  read_on-Answers prompt me io = elim (Bool-cases (me.size == 0)) [
    | inl z ↦ rw z (after_header-Answers prompt me _ _ _ _ (fill-Answers r prompt 0 8 _ _ io))
    | inr p ↦ rw p (after_payload-Answers me _ _ _ _ (fill-Answers r prompt 8 _ _ _ io))
  ]

  -- On a stream that neither waits nor fails, a single call of `read_on` returns the string whose
  -- frame is ahead, from any valid state.
  pub read_on_prompt :
      IsPrompt r
      → (me : ReadString) (io : Source) (s : String) (rest : List ℕ) → IsValid me
      → consumed me ++ unread io ≡ frame s ++ rest
      → is_utf8 s ≡ true
      → length s ≤ me.max_len
      → let t = read_on r me io in
        (t.outcome ≡ Outcome.done s) × (t.self ≡ new me.max_len) × (unread t.stream ≡ rest)
  read_on_prompt prompt me io s rest v e valid short =
      elim (read_on-Delivers r me io s rest v e valid short) [
        | inl d ↦ d
        | inr (inl c) ↦ absurd ((read_on-Answers prompt me io).0 c.0)
        | inr (inr f) ↦ absurd ((read_on-Answers prompt me io).1 f)
      ]

-- ===== src/Common/Drain.antt =====
-- The loop by which `ResumableWriteString::write_to`, `ResumableWriteFileBlock::write_to` and
-- `ResumableAsyncWriteAll::write_all` of src/common.rs write a buffer from an offset on.
pub mod Kept
use deltasync.Base.{
  ℕ, zero, suc, ◌+◌, ◌-◌, ◌≤◌, ◌<◌, ◌≡◌, ◌≢◌, refl, sym, ap, ◌∙◌, List, [], ◌∷◌, ◌++◌, append_assoc,
  ◌⊎◌, inl, inr, arith, Bool-cases, false, length, length-drop, take, drop, take-append-drop, ltb,
  if◌then◌else◌, tests,
}
use deltasync.Io.{AsyncWrite, IsOpen, Error, Outcome, Poll, accepted}

pub record Drain (Io : Type 0) : Type 0 where
  pub outcome : Outcome (Unit {0})
  pub offset : ℕ
  pub stream : Io

abbrev drain_end : {Io : Type 0} → Outcome (Unit {0}) → ℕ → Io → Drain Io
drain_end o offset s = record { outcome = o; offset = offset; stream = s }

drop-nil {ℓ} : {A : Type ℓ} (n : ℕ) → ◌≡◌ {A = List A} (drop n []) []
drop-nil zero = refl
drop-nil (suc n) = refl

pub drop-drop {ℓ} : {A : Type ℓ} (m n : ℕ) (xs : List A) → drop n (drop m xs) ≡ drop (m + n) xs
drop-drop zero n xs = ap (λ (k : ℕ). drop k xs) (let e : n ≡ 0 + n = omega arith in e)
drop-drop (suc m) n [] = drop-nil n ∙ sym (drop-nil (suc m + n))
drop-drop (suc m) n (x ∷ xs) =
    drop-drop m n xs
    ∙ ap (λ (k : ℕ). drop k (x ∷ xs)) (let e : suc (m + n) ≡ suc m + n = omega arith in e)

pub drop_all {ℓ} : {A : Type ℓ} (n : ℕ) (xs : List A) → length xs ≤ n → drop n xs ≡ []
drop_all zero [] h = refl
drop_all zero (x ∷ xs) h = absurd (omega arith)
drop_all (suc n) [] h = refl
drop_all (suc n) (x ∷ xs) h = drop_all n xs (omega arith)

module _ (w : AsyncWrite) where
  open w use {Sink, written, write, write_takes, write_fits}

  unfoldable pub after_write : (ℕ → Sink → Drain Sink) → ℕ → Poll ℕ → Sink → Drain Sink
  after_write again offset (Poll.ready n) s = again (offset + n) s
  after_write again offset Poll.pending s = drain_end Outcome.cancelled offset s
  after_write again offset Poll.failed s = drain_end (Outcome.bail Error.io) offset s

  -- `while offset < buf.len() { let n = write.write(&buf[offset..]).await?; offset += n; }`
  -- A round in which `n` is 0 gains nothing: the fuel is enough where that does not occur.
  unfoldable pub drain_loop : ℕ → ℕ → List ℕ → Sink → Drain Sink
  drain_loop zero offset buf io =
      drain_end (if ltb offset (length buf) then Outcome.stuck else Outcome.done tt) offset io
  drain_loop (suc fuel) offset buf io =
      let p = write (drop offset buf) io in
      let again = after_write (λ o s. drain_loop fuel o buf s) offset p.0 p.1 in
      if ltb offset (length buf) then again else drain_end (Outcome.done tt) offset io

  unfoldable pub drain : ℕ → List ℕ → Sink → Drain Sink
  drain offset buf io = drain_loop (length buf - offset) offset buf io

  -- What has been written and what is left make up the same bytes as before.
  pub record Drained (offset : ℕ) (buf : List ℕ) (io : Sink) (d : Drain Sink) : Type 0 where
    pub same : written io ++ drop offset buf ≡ written d.stream ++ drop d.offset buf
    pub within : d.offset ≤ length buf
    pub ends :
        ((d.outcome ≡ Outcome.done tt) × (d.offset ≡ length buf))
        ⊎ (d.outcome ≡ Outcome.cancelled)
        ⊎ (d.outcome ≡ Outcome.bail Error.io)

  -- What one `write` does, whatever its answer.
  pub write-same :
      (bs : List ℕ) (io : Sink)
      → let p = write bs io in written io ++ bs ≡ written p.1 ++ drop (accepted p.0) bs
  write-same bs io =
      let p = write bs io in
      ap (◌++◌ (written io)) (sym (take-append-drop (accepted p.0) bs))
      ∙ sym (append_assoc (written io) (take (accepted p.0) bs) (drop (accepted p.0) bs))
      ∙ ap (λ (xs : List ℕ). xs ++ drop (accepted p.0) bs) (sym (write_takes bs io))

  after_write-Drained :
      (again : ℕ → Sink → Drain Sink) (offset : ℕ) (buf : List ℕ) (io : Sink) (p : Poll ℕ)
      (s : Sink)
      → offset < length buf
      → ((o : ℕ) (s' : Sink) → offset < o → o ≤ length buf → Drained o buf s' (again o s'))
      → written io ++ drop offset buf ≡ written s ++ drop (accepted p) (drop offset buf)
      → accepted p ≤ length buf - offset
      → p ≢ Poll.ready 0
      → Drained offset buf io (after_write again offset p s)
  unfolding after_write
  after_write-Drained again offset buf io (Poll.ready zero) s lt ih e fits open_ =
      absurd (open_ refl)
  after_write-Drained again offset buf io (Poll.ready (suc n)) s lt ih e fits open_ =
      let rest = ih (offset + suc n) s (omega arith) (omega arith) in
      record {
        same = e ∙ ap (◌++◌ (written s)) (drop-drop offset (suc n) buf) ∙ rest.same;
        within = rest.within;
        ends = rest.ends;
      }
  after_write-Drained again offset buf io Poll.pending s lt ih e fits open_ = record {
    same = e;
    within = omega arith;
    ends = inr (inl refl);
  }
  after_write-Drained again offset buf io Poll.failed s lt ih e fits open_ = record {
    same = e;
    within = omega arith;
    ends = inr (inr refl);
  }

  drain_loop-Drained :
      IsOpen w
      → (fuel offset : ℕ) (buf : List ℕ) (io : Sink) → offset ≤ length buf
      → length buf - offset ≤ fuel
      → Drained offset buf io (drain_loop fuel offset buf io)
  unfolding drain_loop
  drain_loop-Drained opened zero offset buf io le hf =
      let e : ltb offset (length buf) ≡ false = ground arith in
      rw e (record { same = refl; within = le; ends = inl (refl, omega arith) })
  drain_loop-Drained opened (suc fuel) offset buf io le hf =
      elim (Bool-cases (ltb offset (length buf))) [
        | inl more ↦ rw more (
            after_write-Drained (λ o s. drain_loop fuel o buf s) offset buf io _ _ (omega tests)
              (λ o s lt le'. drain_loop-Drained opened fuel o buf s le' (omega arith))
              (write-same (drop offset buf) io)
              (omega (arith, write_fits (drop offset buf) io, length-drop offset buf))
              (not_zero (drop offset buf) io (omega (tests, length-drop offset buf))))
        | inr over ↦ rw over (record { same = refl; within = le; ends = inl (refl, ground arith) })
      ]
    where
      not_zero : (bs : List ℕ) (s : Sink) → 0 < length bs → (write bs s).0 ≢ Poll.ready 0
      not_zero [] s h = absurd (omega arith)
      not_zero (b ∷ bs) s h = opened b bs s

  -- On an open writer the loop ends.
  pub drain-Drained :
      IsOpen w
      → (offset : ℕ) (buf : List ℕ) (io : Sink) → offset ≤ length buf
      → Drained offset buf io (drain offset buf io)
  unfolding drain
  drain-Drained opened offset buf io le =
      drain_loop-Drained opened (length buf - offset) offset buf io le (omega arith)

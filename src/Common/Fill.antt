-- ===== src/Common/Fill.antt =====
-- The loop by which `ResumableReadString::read_on` and `ResumableReadFileBlock::read_on` of
-- src/common.rs fill a buffer: eight bytes of header (`base` 0, `target` 8), then the payload.
pub mod Prompt
use deltasync.Base.{
  ℕ, zero, suc, ◌+◌, ◌-◌, ◌≤◌, ◌<◌, ◌≡◌, refl, sym, ap, ◌∙◌, List, [], ◌∷◌, ◌++◌, append_assoc,
  append-nil, ◌⊎◌, inl, inr, arith, Bool-cases, false, length, length-append, take, ltb,
  if◌then◌else◌, tests,
}
use deltasync.Common.Buffer.{write_at, take-write_at, length-write_at}
use deltasync.Io.{AsyncRead, Error, Outcome, Poll, taken}

-- What the loop leaves: how it ended, the offset, the buffer, the stream.
pub record Fill (Io : Type 0) : Type 0 where
  pub outcome : Outcome (Unit {0})
  pub offset : ℕ
  pub buf : List ℕ
  pub stream : Io

abbrev pub fill_end : {Io : Type 0} → Outcome (Unit {0}) → ℕ → List ℕ → Io → Fill Io
fill_end o offset buf s = record { outcome = o; offset = offset; buf = buf; stream = s }

module _ (r : AsyncRead) where
  open r use {Source, unread, read, read_takes, read_fits, read_eof}

  -- The body of the loop behind the `read`: `?`, the test on `n`, and the next round.
  unfoldable pub after_read :
      (ℕ → List ℕ → Source → Fill Source)
      → (base offset : ℕ) → List ℕ
      → Poll (List ℕ)
      → Source
      → Fill Source
  after_read again base offset buf (Poll.ready []) s =
      fill_end (Outcome.bail Error.closed_by_peer) offset buf s
  after_read again base offset buf (Poll.ready (b ∷ bs)) s =
      again (offset + length (b ∷ bs)) (write_at buf (offset - base) (b ∷ bs)) s
  after_read again base offset buf Poll.pending s = fill_end Outcome.cancelled offset buf s
  after_read again base offset buf Poll.failed s = fill_end (Outcome.bail Error.io) offset buf s

  -- `while offset < target { let n = read.read(&mut buf[offset - base..]).await?;
  --    if n == 0 { bail!(..) } offset += n; }`
  -- Each round takes a byte or ends, so `target - offset` rounds are enough.
  unfoldable pub fill_loop : ℕ → (base target offset : ℕ) → List ℕ → Source → Fill Source
  unfolding after_read
  fill_loop zero base target offset buf io =
      fill_end (if ltb offset target then Outcome.stuck else Outcome.done tt) offset buf io
  fill_loop (suc fuel) base target offset buf io =
      let p = read (length buf - (offset - base)) io in
      let again = after_read (fill_loop fuel base target) base offset buf p.0 p.1 in
      if ltb offset target then again else fill_end (Outcome.done tt) offset buf io

  unfoldable pub fill : (base target offset : ℕ) → List ℕ → Source → Fill Source
  unfolding fill_loop
  fill base target offset buf io = fill_loop (target - offset) base target offset buf io

  -- How the loop may end.
  abbrev pub Ends : ℕ → Fill Source → Type 0
  Ends target f =
      ((f.outcome ≡ Outcome.done tt) × (f.offset ≡ target))
      ⊎ ((f.outcome ≡ Outcome.cancelled) × (f.offset < target))
      ⊎ ((f.outcome ≡ Outcome.bail Error.closed_by_peer)
          × (f.offset < target)
          × (unread f.stream ≡ []))
      ⊎ ((f.outcome ≡ Outcome.bail Error.io) × (f.offset < target))

  -- The bytes `got` have moved from the stream to the buffer, behind those that it held.
  pub record Filled (base target offset : ℕ) (buf : List ℕ) (io : Source) (f : Fill Source)
      : Type 0 where
    pub got : List ℕ
    pub moved : unread io ≡ got ++ unread f.stream
    pub counted : f.offset ≡ offset + length got
    pub kept : take (f.offset - base) f.buf ≡ take (offset - base) buf ++ got
    pub sized : length f.buf ≡ length buf
    pub within : f.offset ≤ target
    pub ends : Ends target f

  stay :
      (base target offset : ℕ) (buf : List ℕ) (io : Source) (o : Outcome (Unit {0})) (s : Source)
      → unread io ≡ unread s
      → offset ≤ target
      → Ends target (fill_end o offset buf s)
      → Filled base target offset buf io (fill_end o offset buf s)
  stay base target offset buf io o s e w h = record {
    got = [];
    moved = e;
    counted = omega arith;
    kept = sym (append-nil _);
    sized = refl;
    within = w;
    ends = h;
  }

  advance :
      (base target offset : ℕ) (buf bs : List ℕ) (io s : Source) (f : Fill Source)
      → base ≤ offset
      → offset - base + length bs ≤ length buf
      → unread io ≡ bs ++ unread s
      → Filled base target (offset + length bs) (write_at buf (offset - base) bs) s f
      → Filled base target offset buf io f
  advance base target offset buf bs io s f hb fits e h = record {
    got = bs ++ h.got;
    moved = e ∙ ap (◌++◌ bs) h.moved ∙ sym (append_assoc bs h.got _);
    counted = omega (arith, h.counted, length-append bs h.got);
    kept =
        h.kept
        ∙ ap (λ (n : ℕ). take n (write_at buf (offset - base) bs) ++ h.got)
            (let e' : offset + length bs - base ≡ offset - base + length bs = omega arith in e')
        ∙ ap (λ (xs : List ℕ). xs ++ h.got) (take-write_at buf (offset - base) bs fits)
        ∙ append_assoc (take (offset - base) buf) bs h.got;
    sized = h.sized ∙ length-write_at buf (offset - base) bs fits;
    within = h.within;
    ends = h.ends;
  }

  -- What is known of the buffer before a round.
  abbrev Room : (base target offset fuel : ℕ) → List ℕ → Type 0
  Room base target offset fuel buf =
      (offset ≤ target) × (base ≤ offset) × (target ≡ base + length buf) × (target - offset ≤ fuel)

  -- One round of the loop, for each answer of `read`.
  after_read-Filled :
      (again : ℕ → List ℕ → Source → Fill Source) (fuel base target offset : ℕ) (buf : List ℕ)
      (io : Source) (p : Poll (List ℕ)) (s : Source)
      → ((offset' : ℕ) (buf' : List ℕ) (io' : Source)
          → Room base target offset' fuel buf'
          → Filled base target offset' buf' io' (again offset' buf' io'))
      → offset < target
      → Room base target offset (suc fuel) buf
      → unread io ≡ taken p ++ unread s
      → length (taken p) ≤ length buf - (offset - base)
      → (p ≡ Poll.ready [] → unread io ≡ [])
      → Filled base target offset buf io (after_read again base offset buf p s)
  unfolding after_read
  after_read-Filled again fuel base target offset buf io (Poll.ready []) s ih lt room e fits eof =
      stay base target offset buf io _ s e room.0 (inr (inr (inl (refl, lt, sym e ∙ eof refl))))
  after_read-Filled again fuel base target offset buf io (Poll.ready (b ∷ bs)) s ih lt room e fits
        eof =
      let p : offset - base + length (b ∷ bs) ≤ length buf = omega arith in
      advance base target offset buf (b ∷ bs) io s _ room.1 p e (
        ih (offset + length (b ∷ bs)) (write_at buf (offset - base) (b ∷ bs)) s
          (omega (arith, length-write_at buf (offset - base) (b ∷ bs) p)))
  after_read-Filled again fuel base target offset buf io Poll.pending s ih lt room e fits eof =
      stay base target offset buf io _ s e room.0 (inr (inl (refl, lt)))
  after_read-Filled again fuel base target offset buf io Poll.failed s ih lt room e fits eof =
      stay base target offset buf io _ s e room.0 (inr (inr (inr (refl, lt))))

  fill_loop-Filled :
      (fuel base target offset : ℕ) (buf : List ℕ) (io : Source)
      → Room base target offset fuel buf
      → Filled base target offset buf io (fill_loop fuel base target offset buf io)
  unfolding fill_loop
  fill_loop-Filled zero base target offset buf io room =
      rw (fill_loop, let e : ltb offset target ≡ false = ground arith in e)
        (stay base target offset buf io _ io refl room.0 (inl (refl, omega arith)))
  fill_loop-Filled (suc fuel) base target offset buf io room =
      elim (Bool-cases (ltb offset target)) [
        | inl more ↦ rw more (
            let k : ℕ = length buf - (offset - base) in
            after_read-Filled (fill_loop fuel base target) fuel base target offset buf io _ _
              (fill_loop-Filled fuel base target) (omega tests) room (read_takes k io)
              (read_fits k io) (read_eof k io (omega tests)))
        | inr over ↦
            rw over (stay base target offset buf io _ io refl room.0 (inl (refl, ground arith)))
      ]

  -- The loop ends, with the buffer filled up to the offset that it leaves.
  pub fill-Filled :
      (base target offset : ℕ) (buf : List ℕ) (io : Source)
      → offset ≤ target
      → base ≤ offset
      → target ≡ base + length buf
      → Filled base target offset buf io (fill base target offset buf io)
  unfolding fill
  fill-Filled base target offset buf io h h' e =
      fill_loop-Filled (target - offset) base target offset buf io (omega arith)

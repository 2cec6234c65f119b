-- ===== src/Server/Loop/Answering.antt =====
-- The branches of src/server.rs that send the hashes keep the invariant.
use deltasync.Base.{
  ℕ, zero, suc, ◌+◌, ◌<◌, ltb, Bool-cases, ◌≤◌, ◌≡◌, refl, sym, ap, subst, ◌∙◌, List, ◌++◌,
  append_assoc, append-nil, Option, none, some, inl, inr, length, drop, arith, false,
}
use deltasync.Bytes.{String}
use deltasync.Io.{AsyncRead, AsyncWrite, IsOpen, Outcome, Turn}
use deltasync.FileSystem.SeekFile.{SeekFile}
use deltasync.Common.Frame.{frame}
use deltasync.Common.WriteBlock.Steady.{IsSteady, IsUnfailed, drain-IsUnfailed}
use deltasync.Common.WriteString
use deltasync.Common.WriteString.{WriteString, write_to, Wrote, drain-Wrote, new-frame}
use deltasync.Client.Loop.Hearing.{incoming}
use deltasync.HashFile.{FileBlockData}
use deltasync.Select.{Received, value, nothing, error}
use deltasync.Server.Loop.{Server, on_hash_written, on_hash, poll_hash}
use deltasync.Server.Loop.Invariant.{Inv, Holds, Answers, hash_of}

module _ (r : AsyncRead) (w : AsyncWrite) (disk : SeekFile) (hasher : ℕ → Received)
    (block_size filesize : ℕ) (wire old sent : List ℕ) where
  open r use {Source}
  open w use {Sink, written}
  open disk use {file}

  abbrev pub remote : ℕ → String
  remote k = hash_of (hasher k)

  pub incoming-suc :
      (k n : ℕ) → incoming remote k (suc n) ≡ incoming remote k n ++ frame (remote (k + n))
  unfolding incoming
  incoming-suc k zero =
      append-nil (frame (remote k)) ∙ ap (λ (x : ℕ). frame (remote x)) (omega arith)
  incoming-suc k (suc n) =
      ap (◌++◌ (frame (remote k))) (incoming-suc (suc k) n)
      ∙ sym (append_assoc (frame (remote k)) (incoming remote (suc k) n) _)
      ∙ ap (λ (x : ℕ). frame (remote k) ++ incoming remote (suc k) n ++ frame (remote x))
          (omega arith)

  write_to-IsUnfailed :
      IsSteady w → (h : WriteString) (tx : Sink) → IsUnfailed (write_to w h tx).outcome
  unfolding write_to
  write_to-IsUnfailed steady h tx = drain-IsUnfailed w steady h.offset h.buf tx

  write_to-Wrote :
      IsOpen w
      → (h : WriteString) (tx : Sink) (total : List ℕ) → h.offset ≤ length h.buf
      → written tx ++ drop h.offset h.buf ≡ total
      → let t = write_to w h tx in
        Wrote w total h.buf t.self.offset t.outcome t.stream × (t.self.buf ≡ h.buf)
  unfolding write_to
  write_to-Wrote opened h tx total le e = (drain-Wrote w opened h.offset h.buf tx total le e, refl)

  abbrev pub due_hashes : ℕ → List ℕ
  due_hashes n = sent ++ incoming remote 0 n

  partly :
      (h h' : WriteString) (tx : Sink) (n : ℕ)
      → h'.buf ≡ h.buf
      → h'.offset ≤ length h.buf
      → written tx ++ drop h'.offset h.buf ≡ due_hashes n
      → Answers r w disk hasher block_size filesize wire old sent n (some h') tx
  partly h h' tx n same le e = (
    subst (λ (b : List ℕ). h'.offset ≤ length b) (sym same) le,
    ap (λ (b : List ℕ). written tx ++ drop h'.offset b) same ∙ e,
  )

  pub poll_hash-Holds :
      IsOpen w
      → IsSteady w
      → (s : Server Source Sink file.Sink) (h : Option WriteString) → s.resumable_write_hash ≡ h
      → Inv r w disk hasher block_size filesize wire old sent s
      → Holds r w disk hasher block_size filesize wire old sent (poll_hash r w disk hasher s h)
  unfolding poll_hash on_hash_written
  poll_hash-Holds opened steady s none e v = v
  poll_hash-Holds opened steady s (some h) e v =
      let t = write_to w h s.client_tx in
      let (le, kept) =
        subst
          (λ (x : Option WriteString).
            Answers r w disk hasher block_size filesize wire old sent s.hashed x s.client_tx)
          e v.answers in
      let (wrote, same) = write_to-Wrote opened h s.client_tx (due_hashes s.hashed) le kept in
      elim wrote [
        | inl (o, all) ↦ with_outcome t (Outcome.done tt) o (record {
          done = v.done;
          receives = v.receives;
          stores = v.stores;
          answers = (tt, append-nil (written t.stream) ∙ all);
          ended = v.ended;
          counted = v.counted;
        })
        | inr (inl (o, le', kept')) ↦ with_outcome t Outcome.cancelled o (record {
          done = v.done;
          receives = v.receives;
          stores = v.stores;
          answers = partly h t.self t.stream s.hashed same le' kept';
          ended = v.ended;
          counted = v.counted;
        })
        | inr (inr (o, le', kept')) ↦
            absurd (subst IsUnfailed o (write_to-IsUnfailed steady h s.client_tx))
      ]
    where
      with_outcome :
          (t : Turn WriteString Sink (Unit {0})) (o : Outcome (Unit {0}))
          → t.outcome ≡ o
          → Holds r w disk hasher block_size filesize wire old sent (
              on_hash_written o
                (record s { resumable_write_hash = some t.self; client_tx = t.stream }))
          → Holds r w disk hasher block_size filesize wire old sent (
              on_hash_written t.outcome
                (record s { resumable_write_hash = some t.self; client_tx = t.stream }))
      with_outcome t o e h =
          subst
            (λ (x : Outcome (Unit {0})). Holds r w disk hasher block_size filesize wire old sent (
              on_hash_written x
                (record s { resumable_write_hash = some t.self; client_tx = t.stream })))
            (sym e) h

  new-left :
      (hash : String) → drop (WriteString.new hash).offset (WriteString.new hash).buf ≡ frame hash
  new-left hash = start ∙ new-frame w hash
    where
      start :
          drop (WriteString.new hash).offset (WriteString.new hash).buf ≡ (WriteString.new hash).buf
      start = unfold WriteString.new in refl

  new-started : (hash : String) → (WriteString.new hash).offset ≤ length (WriteString.new hash).buf
  unfolding WriteString.new
  new-started hash = omega arith

  abbrev Counted : ℕ → Type 0
  Counted n = (j : ℕ) → j < n → (b : FileBlockData) × (hasher j ≡ value b)

  Counted-suc : (n : ℕ) (b : FileBlockData) → hasher n ≡ value b → Counted n → Counted (suc n)
  Counted-suc n b e h j lt = elim (Bool-cases (ltb j n)) [
    | inl below ↦ h j (ground (arith, below))
    | inr above ↦ let at : j ≡ n = ground (arith, above, lt) in (b, ap hasher at ∙ e)
  ]

  -- With no hash in hand all of them are sent.
  pub idle_sent :
      (s : Server Source Sink file.Sink)
      → s.resumable_write_hash ≡ none
      → Inv r w disk hasher block_size filesize wire old sent s
      → written s.client_tx ≡ due_hashes s.hashed
  idle_sent s idle v =
      sym (append-nil (written s.client_tx))
      ∙ (subst
          (λ (x : Option WriteString).
            Answers r w disk hasher block_size filesize wire old sent s.hashed x s.client_tx)
          idle v.answers).1

  -- The next hash is taken in hand.
  pub on_hash-Holds :
      (s : Server Source Sink file.Sink) (a : Received)
      → hasher s.hashed ≡ a
      → s.resumable_write_hash ≡ none
      → s.hashing_done ≡ false
      → Inv r w disk hasher block_size filesize wire old sent s
      → Holds r w disk hasher block_size filesize wire old sent (on_hash a s)
  unfolding on_hash
  on_hash-Holds s (value block) e idle going v =
      let clean = idle_sent s idle v in
      record {
        done = v.done;
        receives = v.receives;
        stores = v.stores;
        answers = (
          new-started block.hash,
          ap (◌++◌ (written s.client_tx)) (new-left block.hash)
              ∙ ap (λ (x : List ℕ). x ++ frame block.hash) clean
              ∙ append_assoc sent (incoming remote 0 s.hashed) (frame block.hash)
              ∙ ap (λ (x : String). sent ++ (incoming remote 0 s.hashed ++ frame x))
                  (sym (ap hash_of e))
              ∙ ap (λ (k : ℕ). sent ++ (incoming remote 0 s.hashed ++ frame (remote k)))
                  (let z : s.hashed ≡ 0 + s.hashed = omega arith in z)
              ∙ ap (◌++◌ sent) (sym (incoming-suc 0 s.hashed)),
        );
        ended = λ h. absurd cc;
        counted = Counted-suc s.hashed block e v.counted;
      }
  on_hash-Holds s nothing e idle going v = record {
    done = v.done;
    receives = v.receives;
    stores = v.stores;
    answers = v.answers;
    ended = λ h. e;
    counted = v.counted;
  }
  on_hash-Holds s error e idle going v = inl e

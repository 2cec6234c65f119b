-- ===== src/Server/Loop/Whole.antt =====
-- The event loop of src/server.rs on the blocks of a client, up to the end of the connection.
use deltasync.Base.{
  ℕ, true, none, ◌<◌, ◌≡◌, refl, sym, ap, subst, ◌∙◌, List, [], ◌∷◌, ◌++◌, append_assoc, append-nil,
  length, length-append, arith, Option-cases, inl, inr,
}
use deltasync.Bytes.{be, length-be}
use deltasync.Io.{AsyncRead, AsyncWrite, IsOpen, Result}
use deltasync.FileSystem.SeekFile.{SeekFile}
use deltasync.Common.Frame.{word_injective, append_injective}
use deltasync.Common.ReadBlock
use deltasync.Common.ReadBlock.{ReadBlock, current_block_size}
use deltasync.Common.ReadBlock.Payload.{block_frame, consumed, IsValid, SameSizes}
use deltasync.Common.ReadBlock.Progress.{not_at_end, same-IsBlock}
use deltasync.Common.Status.{StatusCode}
use deltasync.Common.WriteBlock.Steady.{IsSteady}
use deltasync.HashFile.{FileBlockData}
use deltasync.Client.Loop.Hearing.{incoming}
use deltasync.Server.Loop.Answering.{idle_sent}
use deltasync.Select.{goes_on, value, nothing, breaks, Received}
use deltasync.Server.Loop.{Server, begin, serve_loop, Branch, finish}
use deltasync.Server.Loop.Patch.{Blocks, frames, patch, AreBlocks}
use deltasync.Server.Loop.Invariant.{Inv, hash_of, Holds, Stores}
use deltasync.Server.Loop.Run.{serve_loop-begin}

module _ (r : AsyncRead) where
  -- Blocks that were received up to the end of a stream of blocks are all of them.
  pub all_received :
      (me : ReadBlock) (done blocks : Blocks) (partial : ReadBlock) (buf : List ℕ)
      → AreBlocks me done
      → AreBlocks me blocks
      → IsValid partial buf
      → SameSizes partial me
      → frames done ++ consumed partial buf ≡ frames blocks
      → done ≡ blocks
  unfolding frames
  all_received me [] [] partial buf hd hb v same e = refl
  all_received me [] ((o, b) ∷ bs) partial buf hd hb v same e =
      absurd
        (not_at_end r partial buf o b (frames bs) v (same-IsBlock r me partial o b same hb.0) e)
  all_received me ((o, b) ∷ ds) [] partial buf hd hb v same e = absurd (
      omega (
        arith,
        ap length e,
        length-append (block_frame o b ++ frames ds) (consumed partial buf),
        length-append (block_frame o b) (frames ds),
        length-append (be 8 o) b,
        length-be 8 o,
      ))
  all_received me ((o, b) ∷ ds) ((o', b') ∷ bs) partial buf hd hb v same e =
      let (offsets, body) = word_injective o o' hd.0.0 hb.0.0 (
        regroup (be 8 o) b (frames ds) (consumed partial buf)
        ∙ e
        ∙ append_assoc (be 8 o') b' (frames bs)) in
      let (blocks, rest) =
        append_injective b b' (hd.0.1 ∙ ap (current_block_size me) offsets ∙ sym hb.0.1) body in
      λ i. (offsets i, blocks i) ∷ all_received me ds bs partial buf hd.1 hb.1 v same rest i
    where
      regroup : (x y z u : List ℕ) → x ++ (y ++ (z ++ u)) ≡ (x ++ y) ++ z ++ u
      regroup x y z u = simp append_assoc

module _ (r : AsyncRead) (w : AsyncWrite) (disk : SeekFile) (hasher : ℕ → Received)
    (block_size filesize : ℕ) where
  open r use {Source, unread}
  open w use {Sink, written}
  open disk use {file, content, flush, sync_data, flush_keeps, sync_keeps}

  finish-content :
      (s : Server Source Sink file.Sink) (c : StatusCode) (f : file.Sink)
      → finish r w disk hasher s ≡ Result.ok (c, f)
      → (c ≡ StatusCode.ack) × (content f ≡ content s.file)
  unfolding finish
  finish-content s c f e = elim (Option-cases (flush s.file)) [
    | inl failed ↦ cc (rw failed at e)
    | inr (f1, flushed) ↦ elim (Option-cases (sync_data f1)) [
      | inl failed ↦ cc (rw (flushed, failed) at e)
      | inr (f2, synced) ↦
          let h : ◌≡◌ {A = Result (StatusCode × file.Sink)} (Result.ok (StatusCode.ack, f2))
              (Result.ok (c, f)) =
            rw (flushed, synced) at e in
          let both : ◌≡◌ {A = StatusCode × file.Sink} (StatusCode.ack, f2) (c, f) = cc in
          (
            sym (ap (λ (p : StatusCode × file.Sink). p.0) both),
            ap content (sym (ap (λ (p : StatusCode × file.Sink). p.1) both))
                ∙ sync_keeps f1 f2 synced
                ∙ flush_keeps s.file f1 flushed,
          )
    ]
  ]

  at_break :
      (wire old sent : List ℕ) (s : Server Source Sink file.Sink)
      → Holds r w disk hasher block_size filesize wire old sent (breaks s)
      → (v : Inv r w disk hasher block_size filesize wire old sent s) × (content s.file
          ≡ patch v.done old)
  at_break wire old sent s (v, idle) = (
    v,
    subst
        (λ x.
          Stores r w disk hasher block_size filesize wire old sent v.done x s.write_buffer s.file)
        idle v.stores,
  )

  -- Where a client sends blocks, each of the size that belongs to its offset, and the server leaves
  -- its loop by `break` with nothing left to read, then `flush` and `sync_data` succeeding means
  -- that it answers `Ack` with the file as it was, overwritten by all those blocks in their order,
  -- in whatever order the branches were polled and futures dropped. The writer and the file never
  -- fail and answer 0 to an empty buffer only.
  pub serve_loop-stores :
      IsOpen w
      → IsSteady w
      → IsOpen file
      → IsSteady file
      → (bs : List Branch) (rx : Source) (tx : Sink) (f f' : file.Sink)
        (s : Server Source Sink file.Sink) (c : StatusCode) (blocks : Blocks)
      → unread rx ≡ frames blocks
      → AreBlocks (ReadBlock.new block_size filesize) blocks
      → serve_loop r w disk hasher bs (begin block_size filesize rx tx f) ≡ breaks s
      → unread s.client_rx ≡ []
      → finish r w disk hasher s ≡ Result.ok (c, f')
      → (c ≡ StatusCode.ack) × (content f' ≡ patch blocks (content f))
  serve_loop-stores ow sw of sf bs rx tx f f' s c blocks wire proper e eof done =
      let (v, same) = at_break (unread rx) (content f) (written tx) s (
        subst (Holds r w disk hasher block_size filesize (unread rx) (content f) (written tx)) e (
          serve_loop-begin r w disk hasher block_size filesize (unread rx) (content f) (written tx)
            ow sw of sf bs rx tx f refl refl refl)) in
      let (ack, kept) = finish-content s c f' done in
      let all : v.done ≡ blocks =
        all_received r (ReadBlock.new block_size filesize) v.done blocks s.resumable_read_file_block
          s.receive_buffer v.receives.blocks proper v.receives.valid v.receives.sizes
          (ap (◌++◌ (frames v.done)) (
              sym (append-nil (consumed s.resumable_read_file_block s.receive_buffer))
              ∙ ap (◌++◌ (consumed s.resumable_read_file_block s.receive_buffer)) (sym eof))
            ∙ sym v.receives.total
            ∙ wire) in
      (ack, kept ∙ same ∙ ap (λ (x : Blocks). patch x (content f)) all)

  -- While the loop of the server goes on, once it is told that hashing is over and has no hash in
  -- hand, it has written the frames of all the hashes that the hasher answered with, each once and
  -- in order, behind what was written before, in whatever order the branches were polled and
  -- futures dropped. The writer and the file never fail and answer 0 to an empty buffer only.
  pub serve_loop-hashes :
      IsOpen w
      → IsSteady w
      → IsOpen file
      → IsSteady file
      → (bs : List Branch) (rx : Source) (tx : Sink) (f : file.Sink)
        (s : Server Source Sink file.Sink)
      → serve_loop r w disk hasher bs (begin block_size filesize rx tx f) ≡ goes_on s
      → s.hashing_done ≡ true
      → s.resumable_write_hash ≡ none
      → ((j : ℕ) → j < s.hashed → (b : FileBlockData) × (hasher j ≡ value b))
        × (hasher s.hashed ≡ nothing)
        × (written s.client_tx ≡ written tx ++ incoming (λ k. hash_of (hasher k)) 0 s.hashed)
  serve_loop-hashes ow sw of sf bs rx tx f s e over idle =
      let v : Inv r w disk hasher block_size filesize (unread rx) (content f) (written tx) s =
        subst (Holds r w disk hasher block_size filesize (unread rx) (content f) (written tx)) e (
          serve_loop-begin r w disk hasher block_size filesize (unread rx) (content f) (written tx)
            ow sw of sf bs rx tx f refl refl refl) in
      (
        v.counted,
        v.ended over,
        idle_sent r w disk hasher block_size filesize (unread rx) (content f) (written tx) s idle v,
      )

-- ===== src/Server/Loop/Receiving.antt =====
-- A poll of the future that reads a block in src/server.rs keeps the invariant.
use deltasync.Base.{
  ℕ, ◌≡◌, refl, sym, ap, subst, ◌∙◌, List, [], ◌∷◌, ◌++◌, append_assoc, append-nil, Option, none,
  some, inl, inr, arith,
}
use deltasync.Io.{AsyncRead, AsyncWrite, Error, Outcome}
use deltasync.FileSystem.SeekFile.{SeekFile}
use deltasync.Common.ReadBlock
use deltasync.Common.ReadBlock.{ReadBlock, Reading, current_block_size}
use deltasync.Common.ReadBlock.Payload.{block_frame, consumed, IsValid, Ensures, Kept}
use deltasync.Common.ReadBlock.Resume.{read_on-FollowsBlock}
use deltasync.Common.WriteString.{WriteAll}
use deltasync.Select.{Received}
use deltasync.Server.Loop.{Server, on_block, after_seek, poll_block}
use deltasync.Server.Loop.Patch.{Blocks, frames, frames-append, patch, AreBlocks-append}
use deltasync.Server.Loop.Invariant.{Inv, Holds, Stores, Receives}

pub new-IsValid :
    (block_size filesize : ℕ) (buf : List ℕ) → IsValid (ReadBlock.new block_size filesize) buf
new-IsValid block_size filesize buf = record {
  place = inl (refl, omega arith, omega arith);
  bytes = tt;
}

module _ (r : AsyncRead) (w : AsyncWrite) (disk : SeekFile) (hasher : ℕ → Received)
    (block_size filesize : ℕ) (wire old sent : List ℕ) where
  open r use {Source, unread}
  open w use {Sink}
  open disk use {file, start, base, content, seek, seek_lem}

  abbrev expected : ReadBlock
  expected = ReadBlock.new block_size filesize

  -- The block `(offset, buf)` has been taken from the stream.
  received :
      (done : Blocks) (me : ReadBlock) (buf0 : List ℕ) (rx0 : Source) (t : Reading) (rx : Source)
      (offset : ℕ) (next : List ℕ)
      → Receives r w disk hasher block_size filesize wire old sent done me buf0 rx0
      → Ensures r me (consumed me buf0 ++ unread rx0) (Outcome.done offset) t rx
      → Receives r w disk hasher block_size filesize wire old sent
          (done ++ (offset, t.buf) ∷ [])
          t.block
          next
          rx
  unfolding frames
  received done me buf0 rx0 t rx offset next v (fresh, total, sized, small) =
      let fresh' : t.block ≡ expected = fresh ∙ (λ i. ReadBlock.new (v.sizes.0 i) (v.sizes.1 i)) in
      rw fresh' (record {
        valid = new-IsValid block_size filesize next;
        sizes = (refl, refl);
        blocks = AreBlocks-append expected done offset t.buf v.blocks (small, sized ∙ same);
        total =
            v.total
            ∙ ap (◌++◌ (frames done)) (
                total
                ∙ ap (λ (x : List ℕ). x ++ unread rx) (sym (append-nil (block_frame offset t.buf))))
            ∙ sym (append_assoc (frames done) (block_frame offset t.buf ++ []) (unread rx))
            ∙ ap (λ (x : List ℕ). x ++ unread rx) (sym (frames-append done ((offset, t.buf) ∷ [])));
      })
    where
      same : current_block_size me offset ≡ current_block_size expected offset
      same = unfold current_block_size in ground (arith, v.sizes.0, v.sizes.1)

  kept :
      (done : Blocks) (me : ReadBlock) (buf0 : List ℕ) (rx0 : Source) (t : Reading) (rx : Source)
      → Receives r w disk hasher block_size filesize wire old sent done me buf0 rx0
      → Kept r me (consumed me buf0 ++ unread rx0) t rx
      → Receives r w disk hasher block_size filesize wire old sent done t.block t.buf rx
  kept done me buf0 rx0 t rx v (valid, sizes, total) = record {
    valid = valid;
    sizes = (sizes.0 ∙ v.sizes.0, sizes.1 ∙ v.sizes.1);
    blocks = v.blocks;
    total = v.total ∙ ap (◌++◌ (frames done)) total;
  }

  module _ (s : Server Source Sink file.Sink)
      (v : Inv r w disk hasher block_size filesize wire old sent s)
      (idle : s.resumable_write_block_to_disk ≡ none) where
    abbrev me : ReadBlock
    me = s.resumable_read_file_block

    abbrev total : List ℕ
    total = consumed me s.receive_buffer ++ unread s.client_rx

    clean : content s.file ≡ patch v.done old
    clean =
        subst
          (λ (x : Option WriteAll).
            Stores r w disk hasher block_size filesize wire old sent v.done x s.write_buffer s.file)
          idle v.stores

    abbrev polled : Reading → Source → Server Source Sink file.Sink
    polled t rx = record s {
      resumable_read_file_block = t.block;
      receive_buffer = t.buf;
      client_rx = rx;
    }

    sought :
        (offset : ℕ) (t : Reading) (rx : Source) (o : Option file.Sink)
        → seek offset s.file ≡ o
        → Ensures r me total (Outcome.done offset) t rx
        → Holds r w disk hasher block_size filesize wire old sent (
            after_seek
              (record (polled t rx) { receive_buffer = s.write_buffer; write_buffer = t.buf })
              o)
    unfolding after_seek
    sought offset t rx none e h = inr (offset, s.file, e)
    sought offset t rx (some f) e h =
        let (at, from, empty) = seek_lem offset s.file f e in
        record {
          done = v.done ++ (offset, t.buf) ∷ [];
          receives =
              received v.done me s.receive_buffer s.client_rx t rx offset s.write_buffer v.receives
                h;
          stores = (
            v.done,
            ap (λ (n : ℕ). v.done ++ (n, t.buf) ∷ []) (sym at),
            from ∙ clean,
            omega arith,
            ap (λ (x : List ℕ). x ++ t.buf) empty,
          );
          answers = v.answers;
          ended = v.ended;
          counted = v.counted;
        }

    paused :
        (t : Reading) (rx : Source)
        → Kept r me total t rx
        → Inv r w disk hasher block_size filesize wire old sent (polled t rx)
    paused t rx h = record {
      done = v.done;
      receives = kept v.done me s.receive_buffer s.client_rx t rx v.receives h;
      stores = v.stores;
      answers = v.answers;
      ended = v.ended;
      counted = v.counted;
    }

    on_block-Holds :
        (o : Outcome ℕ) (t : Reading) (rx : Source)
        → Ensures r me total o t rx
        → Holds r w disk hasher block_size filesize wire old sent (on_block seek o (polled t rx))
    unfolding on_block
    on_block-Holds (Outcome.done offset) t rx h = sought offset t rx (seek offset s.file) refl h
    on_block-Holds Outcome.cancelled t rx h = paused t rx h
    on_block-Holds (Outcome.bail Error.io) t rx h = (paused t rx h, idle)
    on_block-Holds (Outcome.bail Error.closed_by_peer) t rx h = (paused t rx h.0, idle)
    on_block-Holds o t rx h = absurd h

    pub poll_block-Holds :
        Holds r w disk hasher block_size filesize wire old sent (poll_block r w disk hasher s)
    unfolding poll_block
    poll_block-Holds =
        on_block-Holds _ _ _
          (read_on-FollowsBlock r me s.receive_buffer s.client_rx v.receives.valid)

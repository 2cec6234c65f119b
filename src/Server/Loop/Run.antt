-- ===== src/Server/Loop/Run.antt =====
-- The event loop of src/server.rs as a whole.
use deltasync.Base.{
  arith, ℕ, ◌≡◌, refl, ap, List, [], ◌∷◌, ◌++◌, Bool, true, false, not, ◌&&◌, Option, none, some,
}
use deltasync.Io.{AsyncRead, AsyncWrite, IsOpen}
use deltasync.FileSystem.SeekFile.{SeekFile}
use deltasync.Common.WriteBlock.Steady.{IsSteady}
use deltasync.Client.Loop.Hearing.{incoming}
use deltasync.Select.{Flow, goes_on, breaks, returns_err, continue_with, Received, is_some}
use deltasync.Server.Loop.{
  Server, begin, turn, serve_loop, Branch, write_disk, read_block, write_hash, next_hash,
}
use deltasync.Server.Loop.Patch.{frames, patch}
use deltasync.Server.Loop.Invariant.{Inv, Holds, by_test-Holds}
use deltasync.Server.Loop.Storing.{poll_disk-Holds}
use deltasync.Server.Loop.Receiving.{new-IsValid, poll_block-Holds}
use deltasync.Server.Loop.Answering.{poll_hash-Holds, on_hash-Holds}

not_some {ℓ} : {A : Type ℓ} (o : Option A) → not (is_some o) ≡ true → o ≡ none
unfolding is_some
not_some none h = refl
not_some (some a) h = absurd cc

both : (a b : Bool) → (a && not b) ≡ true → (a ≡ true) × (b ≡ false)
both true true h = absurd cc
both true false h = (refl, refl)
both false b h = absurd cc

module _ (r : AsyncRead) (w : AsyncWrite) (disk : SeekFile) (hasher : ℕ → Received)
    (block_size filesize : ℕ) (wire old sent : List ℕ) where
  open r use {Source, unread}
  open w use {Sink, written}
  open disk use {file, content}

  turn-Holds :
      IsOpen w
      → IsSteady w
      → IsOpen file
      → IsSteady file
      → (b : Branch) (s : Server Source Sink file.Sink)
      → Inv r w disk hasher block_size filesize wire old sent s
      → Holds r w disk hasher block_size filesize wire old sent (turn r w disk hasher b s)
  unfolding turn
  turn-Holds ow sw of sf write_disk s v =
      poll_disk-Holds r w disk hasher block_size filesize wire old sent of sf s
        s.resumable_write_block_to_disk refl v
  turn-Holds ow sw of sf read_block s v =
      by_test-Holds r w disk hasher block_size filesize wire old sent
        (not (is_some s.resumable_write_block_to_disk)) _ _
        (λ e.
          poll_block-Holds r w disk hasher block_size filesize wire old sent s v
            (not_some s.resumable_write_block_to_disk e))
        (λ e. v)
  turn-Holds ow sw of sf write_hash s v =
      poll_hash-Holds r w disk hasher block_size filesize wire old sent ow sw s
        s.resumable_write_hash refl v
  turn-Holds ow sw of sf next_hash s v =
      by_test-Holds r w disk hasher block_size filesize wire old sent
        (not (is_some s.resumable_write_hash) && not s.hashing_done) _ _
        (λ e.
          let (idle, going) = both (not (is_some s.resumable_write_hash)) s.hashing_done e in
          on_hash-Holds r w disk hasher block_size filesize wire old sent s (hasher s.hashed) refl
            (not_some s.resumable_write_hash idle) going v)
        (λ e. v)

  continue_with-Holds :
      (f : Flow (Server Source Sink file.Sink))
      (rest : Server Source Sink file.Sink → Flow (Server Source Sink file.Sink))
      → Holds r w disk hasher block_size filesize wire old sent f
      → ((s : Server Source Sink file.Sink)
          → Inv r w disk hasher block_size filesize wire old sent s
          → Holds r w disk hasher block_size filesize wire old sent (rest s))
      → Holds r w disk hasher block_size filesize wire old sent (continue_with f rest)
  continue_with-Holds (goes_on s) rest h h' = h' s h
  continue_with-Holds (breaks s) rest h h' = h
  continue_with-Holds (returns_err s) rest h h' = h

  run-Holds :
      IsOpen w
      → IsSteady w
      → IsOpen file
      → IsSteady file
      → (bs : List Branch) (s : Server Source Sink file.Sink)
      → Inv r w disk hasher block_size filesize wire old sent s
      → Holds r w disk hasher block_size filesize wire old sent (serve_loop r w disk hasher bs s)
  unfolding serve_loop
  run-Holds ow sw of sf [] s v = v
  run-Holds ow sw of sf (b ∷ bs) s v =
      continue_with-Holds (turn r w disk hasher b s) _ (turn-Holds ow sw of sf b s v)
        (λ s'. run-Holds ow sw of sf bs s')

  begin-Inv :
      (rx : Source) (tx : Sink) (f : file.Sink)
      → wire ≡ unread rx
      → content f ≡ old
      → written tx ≡ sent
      → Inv r w disk hasher block_size filesize wire old sent (begin block_size filesize rx tx f)
  unfolding frames patch incoming
  begin-Inv rx tx f e c h = record {
    done = [];
    receives = record {
      valid = new-IsValid block_size filesize [];
      sizes = (refl, refl);
      blocks = tt;
      total = e;
    };
    stores = c;
    answers = (tt, ap (λ (x : List ℕ). x ++ []) h);
    ended = λ e. absurd cc;
    counted = λ j h. absurd (omega (arith, h));
  }

  -- Whatever the order in which the branches of the server's loop are polled and futures dropped:
  -- while it goes on and where it is left by `break`, no byte of the client is lost, the file is
  -- the old one overwritten by the blocks received, the last one up to what is left of it, and the
  -- hashes written with what is left of the one in hand are those of the hasher in order; at a
  -- `break` no block is left to write; an error is one of the hasher or of a seek. The writer and
  -- the file never fail and answer 0 to an empty buffer only.
  pub serve_loop-begin :
      IsOpen w
      → IsSteady w
      → IsOpen file
      → IsSteady file
      → (bs : List Branch) (rx : Source) (tx : Sink) (f : file.Sink) → wire ≡ unread rx
      → content f ≡ old
      → written tx ≡ sent
      → Holds r w disk hasher block_size filesize wire old sent
          (serve_loop r w disk hasher bs (begin block_size filesize rx tx f))
  serve_loop-begin ow sw of sf bs rx tx f e c h =
      run-Holds ow sw of sf bs (begin block_size filesize rx tx f) (begin-Inv rx tx f e c h)

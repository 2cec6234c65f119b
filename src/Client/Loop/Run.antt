-- ===== src/Client/Loop/Run.antt =====
-- The event loop of src/client.rs as a whole.
use deltasync.Base.{
  ℕ, ◌<◌, ◌≡◌, refl, subst, ◌∙◌, List, [], ◌∷◌, append-nil, Bool, true, false, not, ◌&&◌, inl, inr,
}
use deltasync.Bytes.{String}
use deltasync.Io.{AsyncRead, AsyncWrite, IsOpen}
use deltasync.Common.WriteBlock.Steady.{IsSteady}
use deltasync.HashFile.{FileBlockData}
use deltasync.Client.Loop.{
  Client, turn, select_loop, Branch, progress_timer, write_next_block, read_hash, next_hash, begin,
}
use deltasync.Select.{Flow, goes_on, breaks, returns_err, value, is_empty, continue_with}
use deltasync.Client.Loop.Sending.{due, queued}
use deltasync.Client.Loop.Hearing.{coming, incoming, new-IsValid}
use deltasync.Client.Loop.Invariant.{Holds, IsProper, poll_read-Holds, by_test-Holds, Inv}
use deltasync.Client.Loop.Writing.{both, poll_write-Holds}
use deltasync.Client.Loop.Comparing.{next_hash-Holds}

module _ (r : AsyncRead) (w : AsyncWrite) (local : ℕ → FileBlockData) (remote : ℕ → String)
    (earlier : List ℕ) (block_size end_block_idx : ℕ) where
  open r use {Source, unread}
  open w use {Sink, written}

  turn-Holds :
      IsOpen w
      → IsSteady w
      → IsProper r w local remote earlier block_size end_block_idx
      → (b : Branch) (c : Client Source Sink)
      → Inv r w local remote earlier block_size end_block_idx c
      → Holds r w local remote earlier block_size end_block_idx
          (turn r w (λ k. value (local k)) block_size end_block_idx b c)
  unfolding turn
  turn-Holds opened steady proper progress_timer c v = v
  turn-Holds opened steady proper write_next_block c v =
      poll_write-Holds r w local remote earlier block_size end_block_idx opened steady c
        c.resumable_write_block refl v
  turn-Holds opened steady proper read_hash c v =
      by_test-Holds r w local remote earlier block_size end_block_idx c.remote_hashes_done _ _
        (λ e. v)
        (λ e. poll_read-Holds r w local remote earlier block_size end_block_idx proper c v e)
  turn-Holds opened steady proper next_hash c v =
      by_test-Holds r w local remote earlier block_size end_block_idx
        (not (is_empty c.remote_hashes) && not c.hash_comparison_over) _ _
        (λ e.
          let (some_left, going) = both r w local remote earlier block_size end_block_idx _ _ e in
          let (n, hashes, h) = v.heard in
          next_hash-Holds r w local remote earlier block_size end_block_idx c n hashes h v
            (flip _ some_left) (flip _ going))
        (λ e. v)
    where
      flip : (b : Bool) → not b ≡ true → b ≡ false
      flip true h = absurd cc
      flip false h = refl

  continue_with-Holds :
      (f : Flow (Client Source Sink)) (rest : Client Source Sink → Flow (Client Source Sink))
      → Holds r w local remote earlier block_size end_block_idx f
      → ((c : Client Source Sink)
          → Inv r w local remote earlier block_size end_block_idx c
          → Holds r w local remote earlier block_size end_block_idx (rest c))
      → Holds r w local remote earlier block_size end_block_idx (continue_with f rest)
  continue_with-Holds (goes_on c) rest h h' = h' c h
  continue_with-Holds (breaks c) rest h h' = h
  continue_with-Holds (returns_err c) rest h h' = h

  select_loop-Holds :
      IsOpen w
      → IsSteady w
      → IsProper r w local remote earlier block_size end_block_idx
      → (bs : List Branch) (c : Client Source Sink)
      → Inv r w local remote earlier block_size end_block_idx c
      → Holds r w local remote earlier block_size end_block_idx
          (select_loop r w (λ k. value (local k)) block_size end_block_idx bs c)
  unfolding select_loop
  select_loop-Holds opened steady proper [] c v = v
  select_loop-Holds opened steady proper (b ∷ bs) c v =
      continue_with-Holds (turn r w (λ k. value (local k)) block_size end_block_idx b c) _
        (turn-Holds opened steady proper b c v) (λ c'. select_loop-Holds opened steady proper bs c')

  begin-Inv :
      (rx : Source) (tx : Sink) (m : ℕ)
      → 0 < end_block_idx
      → unread rx ≡ incoming remote 0 m
      → written tx ≡ earlier
      → Inv r w local remote earlier block_size end_block_idx (begin rx tx)
  unfolding coming due queued
  begin-Inv rx tx m more wire empty_wire = record {
    heard = (0, refl, inr (m, (new-IsValid r remote, refl, wire)));
    counted = inl (refl, more);
    sends = record { total = append-nil (written tx) ∙ empty_wire; valid = tt; idle = λ e. refl };
  }

  -- At every moment of the event loop of the client, whatever the order in which its branches were
  -- polled and the futures dropped, what is written, what is left of the block in hand and what is
  -- queued are together what was written before and the frames of the blocks compared so far whose
  -- hashes differ; the hashes in hand are those of the next blocks; the comparison is over behind
  -- the last block and not before; a `break` leaves all written, and no error is returned. The
  -- server's hashes arrive in order, each valid UTF-8 of at most 256 bytes, all or the first ones;
  -- the hasher answers with the local blocks in order, of which there is one at least; the writer
  -- never fails and answers 0 to an empty buffer only.
  pub select_loop-begin :
      IsOpen w
      → IsSteady w
      → IsProper r w local remote earlier block_size end_block_idx
      → (bs : List Branch) (rx : Source) (tx : Sink) (m : ℕ) → 0 < end_block_idx
      → unread rx ≡ incoming remote 0 m
      → written tx ≡ earlier
      → Holds r w local remote earlier block_size end_block_idx
          (select_loop r w (λ k. value (local k)) block_size end_block_idx bs (begin rx tx))
  select_loop-begin opened steady proper bs rx tx m more wire empty_wire =
      select_loop-Holds opened steady proper bs (begin rx tx)
        (begin-Inv rx tx m more wire empty_wire)

  -- Where the event loop of the client is left by `break`, whatever the order in which its branches
  -- were polled and the futures dropped, the bytes written are those written before and the frames
  -- of the blocks whose hashes differ from those of the server, each once and in the order of the
  -- file, and no others. The server's hashes arrive in order, each valid UTF-8 of at most 256
  -- bytes, all or the first ones, with reads that may wait and fail; the hasher answers with the
  -- local blocks in order, of which there is one at least; the writer never fails and answers 0 to
  -- an empty buffer only.
  pub select_loop-breaks :
      IsOpen w
      → IsSteady w
      → IsProper r w local remote earlier block_size end_block_idx
      → (bs : List Branch) (rx : Source) (tx : Sink) (m : ℕ) (c : Client Source Sink)
      → 0 < end_block_idx
      → unread rx ≡ incoming remote 0 m
      → written tx ≡ earlier
      → select_loop r w (λ k. value (local k)) block_size end_block_idx bs (begin rx tx) ≡ breaks c
      → written c.stream_tx ≡ due local remote earlier block_size end_block_idx
  select_loop-breaks opened steady proper bs rx tx m c more wire empty_wire e =
      subst (Holds r w local remote earlier block_size end_block_idx) e (
        select_loop-Holds opened steady proper bs (begin rx tx)
          (begin-Inv rx tx m more wire empty_wire))

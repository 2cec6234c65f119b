-- ===== src/Client/Loop/Comparing.antt =====
-- A comparison in the event loop of src/client.rs keeps the invariant.
use deltasync.Base.{
  ℕ, zero, suc, ◌+◌, ◌<◌, ◌≡◌, ◌≢◌, refl, sym, ap, subst, ◌∙◌, List, ◌++◌, append-nil, true, false,
  Option, none, some, ◌==◌, arith, inl, inr, ◌⊎◌, ==_iff,
}
use deltasync.Bytes.{String}
use deltasync.Io.{AsyncRead, AsyncWrite}
use deltasync.Common.WriteBlock.{WriteBlock}
use deltasync.HashFile.{FileBlockData}
use deltasync.Client.Loop.{Client, count_block, on_hash}
use deltasync.Select.{value, is_some, is_empty}
use deltasync.Client.Loop.Sending.{Sends, due, compare-Changed}
use deltasync.Client.Loop.Hearing.{coming, IsHearing}
use deltasync.Client.Loop.Invariant.{Counted, Holds, by_test-Holds, Inv}
use deltasync.Client.Loop.Writing.{nothing_queued}

module _ (r : AsyncRead) (w : AsyncWrite) (local : ℕ → FileBlockData) (remote : ℕ → String)
    (earlier : List ℕ) (block_size end_block_idx : ℕ) where
  open r use {Source, unread}
  open w use {Sink, written}

  idle_sent :
      (out : List ℕ) (wb : Option WriteBlock) (q : List (ℕ × List ℕ)) (k : ℕ)
      → is_some wb ≡ false
      → Sends local remote earlier block_size out wb q k
      → out ≡ due local remote earlier block_size k
  unfolding is_some
  idle_sent out none q k free s =
      sym (append-nil out)
      ∙ ap (◌++◌ out)
          (sym (nothing_queued r w local remote earlier block_size end_block_idx q (s.idle refl)))
      ∙ s.total
  idle_sent out (some b) q k free s = absurd cc

  -- Behind a comparison: the block is counted.
  counted-Inv :
      (c : Client Source Sink) (n : ℕ)
      → c.remote_hashes ≡ coming remote (suc c.block_idx) n
      → (c.remote_hashes_done ≡ true)
        ⊎ ((m : ℕ) × IsHearing r remote c.resumable_read_string c.stream_rx (c.block_idx + suc n) m)
      → Sends local remote earlier block_size
          (written c.stream_tx)
          c.resumable_write_block
          c.blocks_idx_to_send
          (suc c.block_idx)
      → c.hash_comparison_over ≡ false
      → c.block_idx < end_block_idx
      → Holds r w local remote earlier block_size end_block_idx
          (count_block block_size end_block_idx c)
  unfolding count_block
  counted-Inv c n hashes h sent going more =
      let next : suc c.block_idx ≡ c.block_idx + 1 = omega arith in
      let hashes' = hashes ∙ ap (λ (x : ℕ). coming remote x n) next in
      let sent' : Sends local remote earlier block_size (written c.stream_tx)
          c.resumable_write_block c.blocks_idx_to_send (c.block_idx + 1) =
        subst
          (λ (x : ℕ).
            Sends local remote earlier block_size (written c.stream_tx) c.resumable_write_block
              c.blocks_idx_to_send x)
          next sent in
      by_test-Holds r w local remote earlier block_size end_block_idx
        (c.block_idx + 1 == end_block_idx) _ _
        (λ e.
          let last : c.block_idx + 1 ≡ end_block_idx =
            (==_iff (c.block_idx + 1) end_block_idx).0 e in
          by_test-Holds r w local remote earlier block_size end_block_idx
            (is_some c.resumable_write_block) _ _
            (λ busy. record {
              heard = (n, hashes', ahead);
              counted = inr (refl, last);
              sends = sent';
            })
            (λ free. all_sent c.resumable_write_block c.blocks_idx_to_send free last sent'))
        (λ e. record {
          heard = (n, hashes', ahead);
          counted = inl (going, ground (arith, e, more));
          sends = sent';
        })
    where
      ahead :
          (c.remote_hashes_done ≡ true)
          ⊎ ((m : ℕ) × IsHearing r remote c.resumable_read_string c.stream_rx
                (c.block_idx + 1 + n)
                m)
      ahead = elim h [
        | inl over ↦ inl over
        | inr (m, hearing) ↦ inr (
          m,
          subst (λ (x : ℕ). IsHearing r remote c.resumable_read_string c.stream_rx x m)
              (omega arith) hearing,
        )
      ]

      all_sent :
          (wb : Option WriteBlock) (q : List (ℕ × List ℕ))
          → is_some wb ≡ false
          → c.block_idx + 1 ≡ end_block_idx
          → Sends local remote earlier block_size (written c.stream_tx) wb q (c.block_idx + 1)
          → written c.stream_tx ≡ due local remote earlier block_size end_block_idx
      all_sent wb q free last s =
          idle_sent (written c.stream_tx) wb q (c.block_idx + 1) free s
          ∙ ap (due local remote earlier block_size) last

  pub next_hash-Holds :
      (c : Client Source Sink) (n : ℕ)
      → c.remote_hashes ≡ coming remote c.block_idx n
      → (c.remote_hashes_done ≡ true)
        ⊎ ((m : ℕ) × IsHearing r remote c.resumable_read_string c.stream_rx (c.block_idx + n) m)
      → Inv r w local remote earlier block_size end_block_idx c
      → is_empty c.remote_hashes ≡ false
      → c.hash_comparison_over ≡ false
      → Holds r w local remote earlier block_size end_block_idx
          (on_hash block_size end_block_idx c (value (local c.block_idx)) c.remote_hashes)
  unfolding on_hash coming is_empty
  next_hash-Holds c zero hashes h v some_left going =
      absurd (subst (λ (xs : List String). is_empty xs ≢ false) (sym hashes) (λ e. cc) some_left)
  next_hash-Holds c (suc n) hashes h v some_left going =
      let c1 = record c { remote_hashes = coming remote (suc c.block_idx) n } in
      let (wb, q, same, sent) =
        compare-Changed local remote earlier block_size end_block_idx (written c.stream_tx)
          c.block_idx c1 refl v.sends in
      subst
        (λ (xs : List String).
          Holds r w local remote earlier block_size end_block_idx
            (on_hash block_size end_block_idx c (value (local c.block_idx)) xs))
        (sym hashes)
        (subst
          (λ (x : Client Source Sink).
            Holds r w local remote earlier block_size end_block_idx
              (count_block block_size end_block_idx x))
          (sym same)
          (counted-Inv (record c1 { blocks_idx_to_send = q; resumable_write_block = wb }) n refl h
            sent going (below v.counted)))
    where
      below :
          Counted r w local remote earlier block_size end_block_idx c → c.block_idx < end_block_idx
      below (inl (off, more)) = more
      below (inr (on, all)) = absurd cc

-- ===== src/Client/Loop/Invariant.antt =====
-- What holds of the event loop of src/client.rs at every moment, and that a poll of the read future
-- keeps it.
use deltasync.Base.{
  ℕ, suc, ◌+◌, ◌≤◌, ◌<◌, ◌≡◌, refl, sym, ap, subst, ◌∙◌, List, [], ◌∷◌, ◌++◌, Bool, true, false,
  if◌then◌else◌, arith, inl, inr, ◌⊎◌, length,
}
use deltasync.Bytes.{String, is_utf8}
use deltasync.Io.{AsyncRead, AsyncWrite, Turn, Outcome}
use deltasync.Common.ReadString
use deltasync.Common.ReadString.{ReadString}
use deltasync.HashFile.{FileBlockData}
use deltasync.Client.Loop.{Client, on_read, poll_read}
use deltasync.Select.{Flow, goes_on, breaks, returns_err, value}
use deltasync.Client.Loop.Sending.{Sends, due}
use deltasync.Client.Loop.Hearing.{coming, coming-append, IsHearing, read_on-Hears}

module _ (r : AsyncRead) (w : AsyncWrite) (local : ℕ → FileBlockData) (remote : ℕ → String)
    (earlier : List ℕ) (block_size end_block_idx : ℕ) where
  open r use {Source, unread}
  open w use {Sink, written}

  -- The hashes in hand are those of the blocks from `block_idx` on, and the next ones are on the
  -- wire, until a read has failed.
  abbrev pub Heard : Client Source Sink → Type 0
  Heard c =
      (n : ℕ) × (c.remote_hashes ≡ coming remote c.block_idx n)
      × ((c.remote_hashes_done ≡ true)
          ⊎ ((m : ℕ) × IsHearing r remote c.resumable_read_string c.stream_rx (c.block_idx + n) m))

  -- The comparison is over behind the last block.
  abbrev pub Counted : Client Source Sink → Type 0
  Counted c =
      ((c.hash_comparison_over ≡ false) × (c.block_idx < end_block_idx))
      ⊎ ((c.hash_comparison_over ≡ true) × (c.block_idx ≡ end_block_idx))

  pub record Inv (c : Client Source Sink) : Type 0 where
    pub heard : Heard c
    pub counted : Counted c
    pub sends :
        Sends local remote earlier block_size
          (written c.stream_tx)
          c.resumable_write_block
          c.blocks_idx_to_send
          c.block_idx

  -- While the loop goes on the invariant holds; behind a `break` all is sent; it does not fail.
  abbrev pub Holds : Flow (Client Source Sink) → Type 0
  Holds (goes_on c) = Inv c
  Holds (breaks c) = written c.stream_tx ≡ due local remote earlier block_size end_block_idx
  Holds (returns_err c) = ⊥

  -- The hashes of the server are the ones that `hash_data` can have made.
  abbrev pub IsProper : Type 0
  IsProper = (j : ℕ) → (is_utf8 (remote j) ≡ true) × (length (remote j) ≤ 256)

  pub poll_read-Holds :
      IsProper
      → (c : Client Source Sink) → Inv c
      → c.remote_hashes_done ≡ false
      → Holds (poll_read r w (λ k. value (local k)) block_size end_block_idx c)
  unfolding poll_read on_read
  poll_read-Holds proper c v going =
      let (n, hashes, h) = v.heard in
      elim h [
        | inl over ↦ absurd cc
        | inr (m, hearing) ↦
            let t = ReadString.read_on r c.resumable_read_string c.stream_rx in
            elim (read_on-Hears r remote proper (c.block_idx + n) m c.resumable_read_string
              c.stream_rx hearing) [
                | inl (m', o, next) ↦
                    with_outcome t (Outcome.done (remote (c.block_idx + n))) o (record {
                      heard = (
                        suc n,
                        ap (λ (xs : List String). xs ++ remote (c.block_idx + n) ∷ []) hashes
                            ∙ coming-append remote c.block_idx n,
                        inr (
                          m',
                          subst (λ (x : ℕ). IsHearing r remote t.self t.stream x m') (omega arith)
                              next,
                        ),
                      );
                      counted = v.counted;
                      sends = v.sends;
                    })
                | inr (inl (o, next)) ↦ with_outcome t Outcome.cancelled o (record {
                  heard = (n, hashes, inr (m, next));
                  counted = v.counted;
                  sends = v.sends;
                })
                | inr (inr (e, o)) ↦
                    with_outcome t (Outcome.bail e) o (record {
                      heard = (n, hashes, inl refl);
                      counted = v.counted;
                      sends = v.sends;
                    })
              ]
      ]
    where
      with_outcome :
          (t : Turn ReadString Source String) (o : Outcome String)
          → t.outcome ≡ o
          → Holds (
              on_read block_size end_block_idx o
                (record c { resumable_read_string = t.self; stream_rx = t.stream }))
          → Holds (
              on_read block_size end_block_idx t.outcome
                (record c { resumable_read_string = t.self; stream_rx = t.stream }))
      with_outcome t o e h =
          subst
            (λ (x : Outcome String). Holds (
              on_read block_size end_block_idx x
                (record c { resumable_read_string = t.self; stream_rx = t.stream })))
            (sym e) h

  pub by_test-Holds :
      (b : Bool) (x y : Flow (Client Source Sink))
      → (b ≡ true → Holds x)
      → (b ≡ false → Holds y)
      → Holds (if b then x else y)
  by_test-Holds true x y h h' = h refl
  by_test-Holds false x y h h' = h' refl

-- ===== src/Client/Loop/Writing.antt =====
-- A poll of the write future of src/client.rs keeps the invariant.
use deltasync.Base.{
  ℕ, ◌≡◌, refl, sym, ap, subst, ◌∙◌, List, [], ◌∷◌, ◌++◌, append_assoc, append-nil, Bool, true,
  false, ◌&&◌, Option, none, some, inl, inr,
}
use deltasync.Bytes.{String}
use deltasync.Io.{AsyncRead, AsyncWrite, IsOpen, Turn, Outcome}
use deltasync.Common.WriteBlock
use deltasync.Common.WriteBlock.{WriteBlock}
use deltasync.Common.WriteBlock.Resume.{left, write_to-WroteBlock}
use deltasync.Common.WriteBlock.Steady.{IsSteady, IsUnfailed, write_to-IsUnfailed}
use deltasync.HashFile.{FileBlockData}
use deltasync.Client.Loop.{
  Client, prepare_next_write_block, on_write, after_write_block, poll_write,
}
use deltasync.Select.{value, is_empty}
use deltasync.Client.Loop.Sending.{due, queued, writing, IsWriting, prepare-Changed}
use deltasync.Client.Loop.Invariant.{Heard, Counted, Holds, by_test-Holds, Inv}

module _ (r : AsyncRead) (w : AsyncWrite) (local : ℕ → FileBlockData) (remote : ℕ → String)
    (earlier : List ℕ) (block_size end_block_idx : ℕ) where
  open r use {Source, unread}
  open w use {Sink, written}

  pub both : (a b : Bool) → (a && b) ≡ true → (a ≡ true) × (b ≡ true)
  both true b h = (refl, h)
  both false b h = absurd cc

  pub empty : (q : List (ℕ × List ℕ)) → is_empty q ≡ true → q ≡ []
  unfolding is_empty
  empty [] h = refl
  empty (x ∷ q) h = absurd cc

  pub nothing_queued :
      (q : List (ℕ × List ℕ)) → q ≡ [] → queued local remote earlier block_size q ≡ []
  unfolding queued
  nothing_queued [] e = refl
  nothing_queued (x ∷ q) e = absurd cc

  prepared-Inv :
      (c : Client Source Sink)
      → Heard r w local remote earlier block_size end_block_idx c
      → Counted r w local remote earlier block_size end_block_idx c
      → written c.stream_tx
          ++ (writing local remote earlier block_size c.resumable_write_block
              ++ queued local remote earlier block_size c.blocks_idx_to_send)
        ≡ due local remote earlier block_size c.block_idx
      → IsWriting local remote earlier block_size c.resumable_write_block
      → Inv r w local remote earlier block_size end_block_idx
          (prepare_next_write_block block_size end_block_idx c)
  prepared-Inv c h n total valid =
      let (wb, q, same, s) =
        prepare-Changed local remote earlier block_size end_block_idx (written c.stream_tx)
          c.block_idx c total valid in
      subst (Inv r w local remote earlier block_size end_block_idx) (sym same)
        (record { heard = h; counted = n; sends = s })

  -- Behind a block that is written.
  after_write_block-Holds :
      (c : Client Source Sink)
      → Heard r w local remote earlier block_size end_block_idx c
      → Counted r w local remote earlier block_size end_block_idx c
      → written c.stream_tx ++ queued local remote earlier block_size c.blocks_idx_to_send
        ≡ due local remote earlier block_size c.block_idx
      → Holds r w local remote earlier block_size end_block_idx
          (after_write_block block_size end_block_idx c)
  unfolding after_write_block
  after_write_block-Holds c h n total =
      by_test-Holds r w local remote earlier block_size end_block_idx
        (c.hash_comparison_over && is_empty c.blocks_idx_to_send) _ _
        (λ e.
          let (over, none_left) = both c.hash_comparison_over (is_empty c.blocks_idx_to_send) e in
          elim n [
            | inl (going, more) ↦ absurd cc
            | inr (done, all) ↦
                sym (append-nil (written c.stream_tx))
                ∙ ap (◌++◌ (written c.stream_tx)) (
                    sym
                      (nothing_queued c.blocks_idx_to_send (empty c.blocks_idx_to_send none_left)))
                ∙ total
                ∙ ap (due local remote earlier block_size) all
          ])
        (λ e. prepared-Inv (record c { resumable_write_block = none }) h n total tt)

  pub poll_write-Holds :
      IsOpen w
      → IsSteady w
      → (c : Client Source Sink) (wb : Option WriteBlock) → c.resumable_write_block ≡ wb
      → Inv r w local remote earlier block_size end_block_idx c
      → Holds r w local remote earlier block_size end_block_idx
          (poll_write r w (λ k. value (local k)) block_size end_block_idx c wb)
  unfolding poll_write on_write
  poll_write-Holds opened steady c none e v = v
  poll_write-Holds opened steady c (some block) e v =
      let t = WriteBlock.write_to w block c.stream_tx in
      let total : written c.stream_tx
            ++ (left block ++ queued local remote earlier block_size c.blocks_idx_to_send)
          ≡ due local remote earlier block_size c.block_idx =
        rw e at v.sends.total in
      elim (write_to-WroteBlock w opened block c.stream_tx _ (rw e at v.sends.valid) refl) [
        | inl (o, all) ↦ with_outcome t (Outcome.done tt) o (
            after_write_block-Holds
              (record c { resumable_write_block = some t.self; stream_tx = t.stream }) v.heard
              v.counted
              (ap (λ (x : List ℕ). x ++ queued local remote earlier block_size c.blocks_idx_to_send)
                  all
                ∙ append_assoc (written c.stream_tx) (left block) _
                ∙ total))
        | inr (inl (o, valid, kept)) ↦ with_outcome t Outcome.cancelled o (record {
          heard = v.heard;
          counted = v.counted;
          sends = record {
            total =
                sym (append_assoc (written t.stream) (left t.self) _)
                ∙ ap
                    (λ (x : List ℕ).
                      x ++ queued local remote earlier block_size c.blocks_idx_to_send)
                    kept
                ∙ append_assoc (written c.stream_tx) (left block) _
                ∙ total;
            valid = valid;
            idle = λ h. absurd cc;
          };
        })
        | inr (inr (o, valid, kept)) ↦
            absurd (subst IsUnfailed o (write_to-IsUnfailed w steady block c.stream_tx))
      ]
    where
      with_outcome :
          (t : Turn WriteBlock Sink (Unit {0})) (o : Outcome (Unit {0}))
          → t.outcome ≡ o
          → Holds r w local remote earlier block_size end_block_idx (
              on_write block_size end_block_idx o
                (record c { resumable_write_block = some t.self; stream_tx = t.stream }))
          → Holds r w local remote earlier block_size end_block_idx (
              on_write block_size end_block_idx t.outcome
                (record c { resumable_write_block = some t.self; stream_tx = t.stream }))
      with_outcome t o e h =
          subst
            (λ (x : Outcome (Unit {0})). Holds r w local remote earlier block_size end_block_idx (
              on_write block_size end_block_idx x
                (record c { resumable_write_block = some t.self; stream_tx = t.stream })))
            (sym e) h

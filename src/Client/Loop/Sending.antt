-- ===== src/Client/Loop/Sending.antt =====
-- What the event loop of src/client.rs has sent: the blocks whose hashes differ.
use deltasync.Base.{
  ℕ, zero, suc, ◌*◌, ◌%◌, ◌^◌, ◌≡◌, refl, sym, ap, ◌∙◌, List, [], ◌∷◌, ◌++◌, append_assoc,
  append-nil, Bool, true, not, Option, none, some, if◌then◌else◌, inl, inr, Bool-cases,
}
use deltasync.Bytes.{String}
use deltasync.Common.ReadBlock.Payload.{block_frame}
use deltasync.Common.WriteBlock
use deltasync.Common.WriteBlock.{WriteBlock}
use deltasync.Common.WriteBlock.Resume.{left, IsValid}
use deltasync.HashFile.{FileBlockData}
use deltasync.Server.Request.{bytes_eq}
use deltasync.Client.Loop.{Client, pop_next, prepare_next_write_block, compare_block}
use deltasync.Select.{is_some}

module _ (local : ℕ → FileBlockData) (remote : ℕ → String) (earlier : List ℕ) (block_size : ℕ) where
  abbrev pub differs : ℕ → Bool
  differs k = not (bytes_eq (local k).hash (remote k))

  -- What was written before the loop, and the frames of the blocks below `k` that differ.
  unfoldable pub due : ℕ → List ℕ
  due zero = earlier
  due (suc k) =
      due k ++ (if differs k then block_frame (k * block_size % 2 ^ 64) (local k).bytes else [])

  unfoldable pub queued : List (ℕ × List ℕ) → List ℕ
  queued [] = []
  queued ((k, bytes) ∷ q) = block_frame (k * block_size % 2 ^ 64) bytes ++ queued q

  abbrev pub writing : Option WriteBlock → List ℕ
  writing none = []
  writing (some b) = left b

  abbrev pub IsWriting : Option WriteBlock → Type 0
  IsWriting none = Unit
  IsWriting (some b) = IsValid b

  -- What is written, being written and queued makes up what is due; the queue is empty where nothing
  -- is being written.
  pub record Sends (out : List ℕ) (wb : Option WriteBlock) (q : List (ℕ × List ℕ)) (k : ℕ)
      : Type 0 where
    pub total : out ++ (writing wb ++ queued q) ≡ due k
    pub valid : IsWriting wb
    pub idle : wb ≡ none → q ≡ []

  queued-append : (xs ys : List (ℕ × List ℕ)) → queued (xs ++ ys) ≡ queued xs ++ queued ys
  unfolding queued
  queued-append [] ys = refl
  queued-append ((k, bytes) ∷ xs) ys =
      ap (◌++◌ (block_frame (k * block_size % 2 ^ 64) bytes)) (queued-append xs ys)
      ∙ sym (append_assoc (block_frame (k * block_size % 2 ^ 64) bytes) (queued xs) (queued ys))

  five_parts : (a b c d : List ℕ) → a ++ (b ++ (c ++ (d ++ []))) ≡ (a ++ (b ++ c)) ++ d
  five_parts a b c d = simp (append_assoc, append-nil)

  -- A block that differs is put at the end of the queue.
  enlarged :
      (out : List ℕ) (wb : Option WriteBlock) (q : List (ℕ × List ℕ)) (k : ℕ)
      → differs k ≡ true
      → out ++ (writing wb ++ queued q) ≡ due k
      → out ++ (writing wb ++ queued (q ++ (k, (local k).bytes) ∷ [])) ≡ due (suc k)
  unfolding due queued
  enlarged out wb q k differ total =
      let f = block_frame (k * block_size % 2 ^ 64) (local k).bytes in
      ap (λ (x : List ℕ). out ++ (writing wb ++ x)) (queued-append q ((k, (local k).bytes) ∷ []))
      ∙ five_parts out (writing wb) (queued q) f
      ∙ ap (λ (x : List ℕ). x ++ f) total
      ∙ ap (λ (b : Bool). due k ++ (if b then f else [])) (sym differ)

  module _ {Source Sink : Type 0} (end_block_idx : ℕ) where
    -- The queue and the block in hand have changed, and nothing else.
    abbrev pub Changed : List ℕ → ℕ → Client Source Sink → Client Source Sink → Type 0
    Changed out k c c' =
        (wb : Option WriteBlock) × (q : List (ℕ × List ℕ)) × (c'
          ≡ record c { blocks_idx_to_send = q; resumable_write_block = wb })
        × Sends out wb q k

    pop_next-Changed :
        (out : List ℕ) (k : ℕ) (q : List (ℕ × List ℕ)) (c : Client Source Sink)
        → c.blocks_idx_to_send ≡ q
        → out ++ queued q ≡ due k
        → Changed out k c (pop_next block_size end_block_idx q c)
    unfolding pop_next queued
    pop_next-Changed out k [] c e total = (
      none,
      [],
      ap
          (λ (q : List (ℕ × List ℕ)). record c {
            blocks_idx_to_send = q;
            resumable_write_block = none;
          })
          e,
      record { total = total; valid = tt; idle = λ h. refl },
    )
    pop_next-Changed out k ((idx, bytes) ∷ q) c e total = (
      some (WriteBlock.new (idx * block_size % 2 ^ 64) bytes),
      q,
      refl,
      record {
        total = total;
        valid = WriteBlock.Resume.new-IsValid (idx * block_size % 2 ^ 64) bytes;
        idle = λ h. absurd cc;
      },
    )

    pub prepare-Changed :
        (out : List ℕ) (k : ℕ) (c : Client Source Sink)
        → out ++ (writing c.resumable_write_block ++ queued c.blocks_idx_to_send) ≡ due k
        → IsWriting c.resumable_write_block
        → Changed out k c (prepare_next_write_block block_size end_block_idx c)
    unfolding prepare_next_write_block is_some
    prepare-Changed out k c total valid = go c.resumable_write_block refl
      where
        go :
            (wb : Option WriteBlock)
            → c.resumable_write_block ≡ wb
            → Changed out k c
                (if is_some wb then c else pop_next block_size end_block_idx c.blocks_idx_to_send c)
        go none e = pop_next-Changed out k c.blocks_idx_to_send c refl (rw e at total)
        go (some b) e = (
          c.resumable_write_block,
          c.blocks_idx_to_send,
          refl,
          record { total = total; valid = valid; idle = λ h. absurd cc },
        )

    -- A comparison changes the queue and the block in hand only, and keeps what is written, what is
    -- left of the block in hand and what is queued together what was written before the loop and
    -- the frames of the blocks that differ, now up to the block compared, with an empty queue where
    -- no block is in hand. They were so before.
    pub compare-Changed :
        (out : List ℕ) (k : ℕ) (c : Client Source Sink)
        → c.block_idx ≡ k
        → Sends out c.resumable_write_block c.blocks_idx_to_send k
        → Changed out (suc k) c (compare_block block_size end_block_idx c (local k) (remote k))
    unfolding compare_block due
    compare-Changed out k c at h = elim (Bool-cases (differs k)) [
      | inr same ↦ rw same (
        c.resumable_write_block,
        c.blocks_idx_to_send,
        refl,
        record {
          total =
              h.total
              ∙ sym (append-nil (due k))
              ∙ ap
                  (λ (b : Bool).
                    due k
                    ++ (if b then block_frame (k * block_size % 2 ^ 64) (local k).bytes else []))
                  (sym same);
          valid = h.valid;
          idle = h.idle;
        },
      )
      | inl differ ↦
          let c1 = record c {
            blocks_idx_to_send = c.blocks_idx_to_send ++ (c.block_idx, (local k).bytes) ∷ [];
          } in
          rw differ (
            prepare-Changed out (suc k) c1
              (rw at (enlarged out c.resumable_write_block c.blocks_idx_to_send k differ h.total))
              h.valid)
    ]

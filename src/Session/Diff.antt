-- ===== src/Session/Diff.antt =====
-- The blocks that the client sends, as the server receives them, and what they do to the file.
use deltasync.Base.{
  ℕ, zero, suc, ◌+◌, ◌*◌, ◌%◌, ◌^◌, ◌≤◌, ◌<◌, ◌≡◌, refl, sym, ap, ◌∙◌, List, [], ◌∷◌, ◌++◌,
  append-nil, append_assoc, Bool, true, false, not, length, length-take, length-drop, drop, arith,
  ltb, if◌then◌else◌, inl, inr, Bool-cases,
}
use native.Mathlib.Nat.{mod-eq_of_lt, suc-mul}
use deltasync.Bytes.{String}
use deltasync.Common.Buffer.{take_all}
use deltasync.Common.Drain.{drop_all}
use deltasync.Common.ReadBlock
use deltasync.Common.ReadBlock.{ReadBlock, current_block_size}
use deltasync.Common.ReadBlock.Payload.{block_frame}
use deltasync.Common.ReadBlock.Progress.{IsBlock}
use deltasync.Client.Loop.Sending.{due, differs}
use deltasync.FileSystem.SeekFile.{overwrite}
use deltasync.HashAlgorithm.{HashAlgorithm}
use deltasync.HashFile.{Digests, FileBlockData}
use deltasync.HashFile.Offsets.{block_of, entry}
use deltasync.Select.{Received, value, nothing}
use deltasync.Server.Loop.Invariant.{hash_of}
use deltasync.Server.Loop.Patch.{
  Blocks, frames, frames-append, patch, patch-append, AreBlocks, AreBlocks-append,
}
use deltasync.Server.Request.Secret.{bytes_eq_sound}
use deltasync.Session.Mix.{mix, mix-same, overwrite-mix}

module _ (local : ℕ → FileBlockData) (remote : ℕ → String) (block_size : ℕ) where
  -- The blocks below `k` that differ, in order.
  unfoldable pub diffs : ℕ → Blocks
  diffs zero = []
  diffs (suc k) =
      diffs k
      ++ (if differs local remote [] block_size k
          then (k * block_size % 2 ^ 64, (local k).bytes) ∷ []
          else [])

  pub due-frames :
      (earlier : List ℕ) (k : ℕ)
      → due local remote earlier block_size k ≡ earlier ++ frames (diffs k)
  unfolding due diffs frames
  due-frames earlier zero = sym (append-nil earlier)
  due-frames earlier (suc k) = elim (Bool-cases (differs local remote [] block_size k)) [
    | inl e ↦ rw e (
        ap (λ (x : List ℕ). x ++ block_frame (k * block_size % 2 ^ 64) (local k).bytes)
          (due-frames earlier k)
        ∙ append_assoc earlier (frames (diffs k)) _
        ∙ ap (◌++◌ earlier) (
            ap (◌++◌ (frames (diffs k)))
              (sym (append-nil (block_frame (k * block_size % 2 ^ 64) (local k).bytes)))
            ∙ sym (frames-append (diffs k) ((k * block_size % 2 ^ 64, (local k).bytes) ∷ []))))
    | inr e ↦ rw e (
        append-nil (due local remote earlier block_size k)
        ∙ due-frames earlier k
        ∙ ap (λ (x : _). earlier ++ frames x) (sym (append-nil (diffs k))))
  ]

-- What the hasher of a file answers: its blocks in order, and `None` behind the last one.
unfoldable pub hashing : Digests → HashAlgorithm → ℕ → List ℕ → ℕ → Received
hashing d algorithm block_size file k =
    if ltb (k * block_size) (length file)
    then value (entry d algorithm block_size file k).1
    else nothing

module _ (d : Digests) (algorithm : HashAlgorithm) (block_size : ℕ) (src old : List ℕ) where
  abbrev pub local : ℕ → FileBlockData
  local k = (entry d algorithm block_size src k).1

  abbrev pub remote : ℕ → String
  remote k = hash_of (hashing d algorithm block_size old k)

  -- Blocks of the two files at the same place that have one hash are the same.
  abbrev pub HasNoCollision : Type 0
  HasNoCollision =
      (k : ℕ)
      → (local k).hash ≡ (entry d algorithm block_size old k).1.hash
      → block_of block_size src k ≡ block_of block_size old k

  -- `n` blocks begin within the source.
  abbrev pub Within : ℕ → Type 0
  Within n = (k : ℕ) → k < n → k * block_size < length src

  block_of-IsBlock :
      (k : ℕ)
      → length src < 2 ^ 64
      → k * block_size < length src
      → IsBlock
          (ReadBlock.new block_size (length src))
          (k * block_size % 2 ^ 64)
          (block_of block_size src k)
  unfolding current_block_size
  block_of-IsBlock k small lt = (
    omega arith,
    ground (
      arith,
      mod-eq_of_lt (let h : k * block_size < 2 ^ 64 = omega arith in h),
      length-take block_size (drop (k * block_size) src),
      length-drop (k * block_size) src,
    ),
  )

  pub diffs-AreBlocks :
      (n : ℕ)
      → length src < 2 ^ 64
      → Within n
      → AreBlocks (ReadBlock.new block_size (length src)) (diffs local remote block_size n)
  unfolding diffs
  diffs-AreBlocks zero small within = tt
  diffs-AreBlocks (suc n) small within =
      let before = diffs-AreBlocks n small (λ k h. within k (omega (arith, h))) in
      elim (Bool-cases (differs local remote [] block_size n)) [
        | inl e ↦ rw e (
            AreBlocks-append (ReadBlock.new block_size (length src))
              (diffs local remote block_size n) _ _ before
              (block_of-IsBlock n small (within n (omega arith))))
        | inr e ↦ rw (e, append-nil) before
      ]

  flip : (b : Bool) → not b ≡ false → b ≡ true
  flip true h = refl
  flip false h = absurd cc

  remote-hash :
      (k : ℕ) → k * block_size < length old → remote k ≡ (entry d algorithm block_size old k).1.hash
  unfolding hashing
  remote-hash k lt = let e : ltb (k * block_size) (length old) ≡ true = ground arith in rw e

  -- The blocks that differ, put into the old file, make it the source up to there.
  pub patch-diffs :
      (n : ℕ)
      → HasNoCollision
      → length src ≡ length old
      → length src < 2 ^ 64
      → Within n
      → patch (diffs local remote block_size n) old ≡ mix (n * block_size) src old
  unfolding diffs patch
  patch-diffs zero sound same small within =
      ap (λ (p : ℕ). mix p src old) (let e : 0 ≡ 0 * block_size = omega arith in e)
  patch-diffs (suc n) sound same small within =
      let ih = patch-diffs n sound same small (λ k h. within k (omega (arith, h))) in
      let at = within n (omega arith) in
      let next : n * block_size + block_size ≡ suc n * block_size = sym (suc-mul n block_size) in
      elim (Bool-cases (differs local remote [] block_size n)) [
        | inl e ↦ rw e (
            patch-append (diffs local remote block_size n) _ old
            ∙ ap (λ (c : List ℕ). overwrite c (n * block_size % 2 ^ 64) (block_of block_size src n))
                ih
            ∙ ap (λ (p : ℕ). overwrite (mix (n * block_size) src old) p (block_of block_size src n))
                (mod-eq_of_lt (omega (arith, at)))
            ∙ overwrite-mix (n * block_size) block_size src old same (omega (arith, at))
            ∙ ap (λ (p : ℕ). mix p src old) next)
        | inr e ↦
            let equal : (local n).hash ≡ remote n =
              bytes_eq_sound (local n).hash (remote n) (flip _ e) in
            let bytes = sound n (equal ∙ remote-hash n (omega (arith, at))) in
            rw (e, append-nil)
              (ih
                ∙ sym (mix-same (n * block_size) block_size src old bytes)
                ∙ ap (λ (p : ℕ). mix p src old) next)
      ]

  -- All of them make it the source.
  pub patch-all :
      (n : ℕ)
      → HasNoCollision
      → length src ≡ length old
      → length src < 2 ^ 64
      → Within n
      → length src ≤ n * block_size
      → patch (diffs local remote block_size n) old ≡ src
  patch-all n sound same small within past =
      patch-diffs n sound same small within
      ∙ ap (λ (x : List ℕ). x ++ drop (n * block_size) old) (take_all (n * block_size) src past)
      ∙ ap (◌++◌ src) (drop_all (n * block_size) old (omega arith))
      ∙ append-nil src

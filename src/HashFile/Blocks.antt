-- ===== src/HashFile/Blocks.antt =====
-- What a thread of src/hash_file.rs sends where nothing fails.
use deltasync.Base.{
  ℕ, zero, suc, ◌+◌, ◌-◌, ◌*◌, ◌%◌, ◌^◌, ◌≤◌, ◌<◌, ◌≡◌, refl, sym, subst, ◌∙◌, List, ◌∷◌, false,
  ltb, ltb→lt, length, arith, Bool-cases, inl, inr,
}
use native.Mathlib.Nat.{mul-suc, mod-eq_of_lt, mul-le-mul_left, mul-le-mul_right}
use deltasync.HashAlgorithm.{HashAlgorithm}
use deltasync.HashFile.{
  Digests, Surroundings, Log, size_at, next_block, send_block, hash_block, hash_loop, started,
  worker,
}
use deltasync.HashFile.Stride.{stride}
use deltasync.HashFile.Offsets.{
  entry, IsFine, entries, Sends, read_block, size_fits, more, over, IsSmall, stride_step,
  next_offset, jump,
}

module _ (d : Digests) (os : Surroundings) (algorithm : HashAlgorithm) (file : List ℕ)
    (block_size workers : ℕ) where
  landed :
      IsSmall d os algorithm file block_size workers
      → (i n : ℕ) → stride workers i n * block_size < length file
      → stride workers i (suc n) * block_size < length file
      → stride workers i n * block_size
          + size_at d os algorithm
              (length file)
              block_size
              workers
              (stride workers i n * block_size)
          + (workers - 1) * block_size
        ≡ stride workers i (suc n) * block_size
  landed small i n lt lt' =
      let (word, short, sum) = jump d os algorithm file block_size workers small in
      elim (size_fits d os algorithm file block_size workers (stride workers i n * block_size)
        lt).1 [
          | inl whole ↦
              omega (arith, whole, sum, stride_step d os algorithm file block_size workers i n)
          | inr last ↦ absurd (
              omega (arith, last, lt', sum, stride_step d os algorithm file block_size workers i n))
        ]

  closer :
      IsSmall d os algorithm file block_size workers
      → (i n fuel : ℕ) → length file ≤ stride workers i n * block_size + suc fuel
      → length file ≤ stride workers i (suc n) * block_size + fuel
  closer small i n fuel enough = omega (
    arith,
    enough,
    (jump d os algorithm file block_size workers small).2,
    stride_step d os algorithm file block_size workers i n,
    small.0,
  )

  hash_round :
      IsFine os file
      → IsSmall d os algorithm file block_size workers
      → (rest : ℕ → ℕ → ℕ → Log) (i n : ℕ) → stride workers i n * block_size < length file
      → let size =
          size_at d os algorithm
            (length file)
            block_size
            workers
            (stride workers i n * block_size) in
        let later =
          rest
            (stride workers i (suc n) * block_size)
            (stride workers i (suc n))
            (stride workers i n * block_size + size + (workers - 1) * block_size) in
        hash_block d os algorithm
          (length file)
          block_size
          workers
          rest
          (stride workers i n * block_size)
          (stride workers i n)
          (stride workers i n * block_size)
        ≡ record {
          sent = entry d algorithm block_size file (stride workers i n) ∷ later.sent;
          end = later.end;
        }
  unfolding hash_block send_block next_block
  hash_round fine small rest i n lt =
      let offset = stride workers i n * block_size in
      let (fits, full) = size_fits d os algorithm file block_size workers offset lt in
      let (word, short, sum) = jump d os algorithm file block_size workers small in
      let idx : (stride workers i n + workers) % 2 ^ 64 ≡ stride workers i (suc n) =
        mod-eq_of_lt (
          omega (
            arith,
            mul-le-mul_left {m = 1} {n = block_size} (stride workers i n) small.0,
            mul-le-mul_left {m = 1} {n = block_size} workers small.0,
            lt,
            small.2,
          ))
        ∙ omega (arith, mul-suc workers n) in
      rw
        (
          fine.no_error (stride workers i n),
          fine.read offset _ fits,
          read_block d os algorithm file block_size workers offset lt,
          fine.sent (stride workers i n),
          word,
          fine.sought ((workers - 1) * block_size) _ short,
          next_block,
          next_offset d os algorithm file block_size workers i n small lt,
          idx,
        )
        refl

  hash_loop-Sends :
      IsFine os file
      → IsSmall d os algorithm file block_size workers
      → (fuel i n pos : ℕ)
      → (stride workers i n * block_size < length file → pos ≡ stride workers i n * block_size)
      → length file ≤ stride workers i n * block_size + fuel
      → Sends d os algorithm file block_size workers i n (
          hash_loop d os algorithm
            (length file)
            block_size
            workers
            fuel
            (stride workers i n * block_size)
            (stride workers i n)
            pos)
  unfolding hash_loop entries
  hash_loop-Sends fine small zero i n pos at enough =
      let e : ltb (stride workers i n * block_size) (length file) ≡ false =
        ground (arith, enough) in
      (0, rw e refl, over d os algorithm file block_size workers i n (omega (arith, enough)))
  hash_loop-Sends fine small (suc fuel) i n pos at enough =
      elim (Bool-cases (ltb (stride workers i n * block_size) (length file))) [
        | inr e ↦
            (0, rw e refl, over d os algorithm file block_size workers i n (ground (arith, e)))
        | inl e ↦
            let offset = stride workers i n * block_size in
            let lt = ltb→lt offset (length file) e in
            let size = size_at d os algorithm (length file) block_size workers offset in
            let (count, same, ends) =
              hash_loop-Sends fine small fuel i (suc n) (offset + size + (workers - 1) * block_size)
                (landed small i n lt) (closer small i n fuel enough) in
            let round =
              hash_round fine small (hash_loop d os algorithm (length file) block_size workers fuel)
                i n lt in
            (
              suc count,
              rw (e, at lt, round, same) refl,
              more d os algorithm file block_size workers i n count lt ends,
            )
      ]

  -- Where nothing fails, a thread `i` of `hash_file` ends past the end of the file and has sent the
  -- blocks `i`, `i + workers`, `i + 2 * workers`, ... of the file, in this order and no other, each
  -- with its hash. The file keeps its content, there is a thread and a byte per block at least, and
  -- the file and a block of each thread are below 2^63 bytes.
  pub worker-Sends :
      (i : ℕ)
      → IsFine os file
      → IsSmall d os algorithm file block_size workers
      → i < workers
      → Sends d os algorithm file block_size workers i 0
          (worker d os algorithm (length file) block_size workers i)
  unfolding worker started
  worker-Sends i fine small lt =
      let first : stride workers i 0 ≡ i = omega arith in
      let word : i * block_size % 2 ^ 64 ≡ i * block_size = mod-eq_of_lt (
        omega (
          arith,
          mul-le-mul_right {m = i} {n = workers} block_size (omega (arith, lt)),
          small.2,
        )) in
      subst (Sends d os algorithm file block_size workers i 0)
        (sym (simp (fine.opened, word, fine.sought_start (i * block_size), word)))
        (subst
          (λ (x : ℕ). Sends d os algorithm file block_size workers i 0 (
            hash_loop d os algorithm (length file) block_size workers (length file) (x * block_size)
              x (x * block_size)))
          first (hash_loop-Sends fine small (length file) i 0 _ (λ h. refl) (omega arith)))

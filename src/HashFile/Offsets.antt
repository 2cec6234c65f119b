-- ===== src/HashFile/Offsets.antt =====
-- The blocks of a file and where a thread of src/hash_file.rs stands in it.
use deltasync.Base.{
  ℕ, zero, suc, ◌+◌, ◌-◌, ◌*◌, ◌%◌, ◌^◌, ◌≤◌, ◌<◌, ◌≡◌, refl, sym, ap, subst, ◌∙◌, List, [], ◌∷◌,
  true, false, some, ltb, ltb→lt, length, take, drop, arith, Bool-cases, inl, inr, ◌⊎◌, length-drop,
}
use native.Mathlib.Nat.{mul-suc, add-mul, suc-mul, mod-eq_of_lt}
use deltasync.Common.Buffer.{take_all}
use deltasync.HashAlgorithm.{HashAlgorithm}
use deltasync.HashFile.{Digests, hash_data, FileBlockData, Surroundings, finished, Log, size_at}
use deltasync.HashFile.Stride.{stride}

-- Nothing fails, and the file keeps its content.
pub record IsFine (os : Surroundings) (file : List ℕ) : Type 0 where
  pub opened : os.opens ≡ true
  pub sought_start : (n : ℕ) → os.seek_start n ≡ some n
  pub sought : (n pos : ℕ) → n < 2 ^ 63 → os.seek_current n pos ≡ some (pos + n)
  pub read :
      (pos n : ℕ) → pos + n ≤ length file → os.read_exact pos n ≡ some (take n (drop pos file))
  pub no_error : (k : ℕ) → os.errored k ≡ false
  pub sent : (k : ℕ) → os.sends k ≡ true

-- Block `k` of a file, with its hash.
abbrev pub block_of : ℕ → List ℕ → ℕ → List ℕ
block_of block_size file k = take block_size (drop (k * block_size) file)

abbrev pub entry : Digests → HashAlgorithm → ℕ → List ℕ → ℕ → ℕ × FileBlockData
entry d algorithm block_size file k = (
  k,
  record {
    hash = hash_data d (block_of block_size file k) algorithm;
    bytes = block_of block_size file k;
  },
)

module _ (d : Digests) (os : Surroundings) (algorithm : HashAlgorithm) (file : List ℕ)
    (block_size workers : ℕ) where
  -- The entries of thread `i` from round `n` on, `count` of them.
  unfoldable pub entries : ℕ → ℕ → ℕ → List (ℕ × FileBlockData)
  entries i zero n = []
  entries i (suc count) n =
      entry d algorithm block_size file (stride workers i n) ∷ entries i count (suc n)

  -- `count` rounds from round `n` on reach the end of the file, and no fewer do.
  abbrev pub Ends : ℕ → ℕ → ℕ → Type 0
  Ends i n count =
      ((m : ℕ) → m < count → stride workers i (n + m) * block_size < length file)
      × (length file ≤ stride workers i (n + count) * block_size)

  abbrev pub Sends : ℕ → ℕ → Log → Type 0
  Sends i n log =
      (count : ℕ) × (log ≡ record { sent = entries i count n; end = finished }) × Ends i n count

  -- The part that is read is the block, the last one too.
  pub read_block :
      (offset : ℕ)
      → offset < length file
      → take (size_at d os algorithm (length file) block_size workers offset) (drop offset file)
        ≡ take block_size (drop offset file)
  unfolding size_at
  read_block offset lt = elim (Bool-cases (ltb (length file - offset) block_size)) [
    | inr e ↦ rw e refl
    | inl e ↦
        let small : length (drop offset file) ≡ length file - offset = length-drop offset file in
        let short = ltb→lt (length file - offset) block_size e in
        rw e (
          take_all (length file - offset) (drop offset file) (omega (arith, small))
          ∙ sym (take_all block_size (drop offset file) (omega (arith, small, short))))
  ]

  pub size_fits :
      (offset : ℕ)
      → offset < length file
      → (offset + size_at d os algorithm (length file) block_size workers offset ≤ length file)
        × ((size_at d os algorithm (length file) block_size workers offset ≡ block_size)
            ⊎ (length file < offset + block_size))
  unfolding size_at
  size_fits offset lt = elim (Bool-cases (ltb (length file - offset) block_size)) [
    | inr e ↦ rw e (ground arith, inl refl)
    | inl e ↦ rw e (omega arith, inr (ground arith))
  ]

  -- One round before `count` rounds.
  pub more :
      (i n count : ℕ)
      → stride workers i n * block_size < length file
      → Ends i (suc n) count
      → Ends i n (suc count)
  more i n count lt (below, past) =
      (each, subst (λ (x : ℕ). length file ≤ stride workers i x * block_size) (omega arith) past)
    where
      each : (m : ℕ) → m < suc count → stride workers i (n + m) * block_size < length file
      each zero h =
          subst (λ (x : ℕ). stride workers i x * block_size < length file) (omega arith) lt
      each (suc m) h =
          subst (λ (x : ℕ). stride workers i x * block_size < length file) (omega arith)
            (below m (omega (arith, h)))

  pub over : (i n : ℕ) → length file ≤ stride workers i n * block_size → Ends i n 0
  over i n h = (
    λ m lt. absurd (omega (arith, lt)),
    subst (λ (x : ℕ). length file ≤ stride workers i x * block_size) (omega arith) h,
  )

  -- The sizes are positive and far below the bound of the words.
  abbrev pub IsSmall : Type 0
  IsSmall = (0 < block_size) × (0 < workers) × (length file + workers * block_size < 2 ^ 63)

  pub stride_step :
      (i n : ℕ)
      → stride workers i (suc n) * block_size
        ≡ stride workers i n * block_size + workers * block_size
  stride_step i n =
      ap (λ (x : ℕ). x * block_size) (omega (arith, mul-suc workers n))
      ∙ add-mul (stride workers i n) workers block_size

  pub next_offset :
      (i n : ℕ)
      → IsSmall
      → stride workers i n * block_size < length file
      → (stride workers i n * block_size + workers * block_size) % 2 ^ 64
        ≡ stride workers i (suc n) * block_size
  next_offset i n small lt =
      mod-eq_of_lt (omega (arith, lt, small.2))
      ∙ sym (add-mul (stride workers i n) workers block_size)
      ∙ ap (λ (x : ℕ). x * block_size) (omega (arith, mul-suc workers n))

  -- The seek lands on the next block of the thread, where the block was a full one.
  pub jump :
      IsSmall
      → ((workers - 1) * block_size % 2 ^ 64 ≡ (workers - 1) * block_size)
        × ((workers - 1) * block_size < 2 ^ 63)
        × ((workers - 1) * block_size + block_size ≡ workers * block_size)
  jump small =
      let sum : (workers - 1) * block_size + block_size ≡ workers * block_size =
        sym (suc-mul (workers - 1) block_size)
        ∙ ap (λ (x : ℕ). x * block_size) (omega (arith, small.1)) in
      let short : (workers - 1) * block_size < 2 ^ 63 = omega (arith, sum, small.2) in
      (mod-eq_of_lt (omega (arith, short)), short, sum)

-- ===== src/HashFile/Cover.antt =====
-- The threads of src/hash_file.rs together.
use deltasync.Base.{
  ℕ, zero, suc, ◌+◌, ◌*◌, ◌/◌, ◌%◌, ◌≤◌, ◌<◌, ◌≡◌, ap, ◌∙◌, List, ltb, some, length, get_elem?,
  arith, Bool-cases, inl, inr,
}
use native.Mathlib.Nat.{mul-le-mul_right, mul-le-mul_left}
use deltasync.HashAlgorithm.{HashAlgorithm}
use deltasync.HashFile.{Digests, Surroundings, Log, worker}
use deltasync.HashFile.Stride.{stride, stride_onto}
use deltasync.HashFile.Offsets.{IsFine, IsSmall, entry, entries}
use deltasync.HashFile.Blocks.{worker-Sends}

module _ (d : Digests) (os : Surroundings) (algorithm : HashAlgorithm) (file : List ℕ)
    (block_size workers : ℕ) where
  get_elem?-entries :
      (i count n m : ℕ)
      → m < count
      → get_elem? (entries d os algorithm file block_size workers i count n) m
        ≡ some (entry d algorithm block_size file (stride workers i (n + m)))
  unfolding entries
  get_elem?-entries i zero n m h = absurd (omega (arith, h))
  get_elem?-entries i (suc count) n zero h =
      ap (λ (x : ℕ). some (entry d algorithm block_size file (stride workers i x))) (omega arith)
  get_elem?-entries i (suc count) n (suc m) h =
      get_elem?-entries i count (suc n) m (omega (arith, h))
      ∙ ap (λ (x : ℕ). some (entry d algorithm block_size file (stride workers i x))) (omega arith)

  -- A round before the end of the file is one of the rounds.
  reached :
      (i count n k : ℕ)
      → stride workers i n ≡ k
      → k * block_size < length file
      → length file ≤ stride workers i (0 + count) * block_size
      → n < count
  reached i count n k e lt past = elim (Bool-cases (ltb n count)) [
    | inl h ↦ ground (arith, h)
    | inr h ↦
        let le : count ≤ n = ground (arith, h) in
        let le' : workers * (0 + count) ≤ workers * n =
          mul-le-mul_left {m = 0 + count} {n = n} workers (omega (arith, le)) in
        let less : stride workers i (0 + count) * block_size ≤ k * block_size =
          mul-le-mul_right {m = stride workers i (0 + count)} {n = k} block_size
            (omega (arith, le', e)) in
        absurd (omega (arith, less, lt, past))
  ]

  -- Each block of the file is hashed: where nothing fails, thread `k % workers` of `hash_file`
  -- sends block `k` in its round `k / workers`, with its index, its bytes, those of the last block
  -- being fewer, and their hash. The file keeps its content, there is a thread and a byte per block
  -- at least, and the file and a block of each thread are below 2^63 bytes.
  pub get_elem?-worker :
      (k : ℕ)
      → IsFine os file
      → IsSmall d os algorithm file block_size workers
      → k * block_size < length file
      → get_elem?
          (worker d os algorithm (length file) block_size workers (k % workers)).sent
          (k / workers)
        ≡ some (entry d algorithm block_size file k)
  get_elem?-worker k fine small lt =
      let (thread, at) = stride_onto workers k small.1 in
      let (count, same, (below, past)) =
        worker-Sends d os algorithm file block_size workers (k % workers) fine small thread in
      let within = reached (k % workers) count (k / workers) k at lt past in
      ap (λ (l : Log). get_elem? l.sent (k / workers)) same
      ∙ get_elem?-entries (k % workers) count 0 (k / workers) within
      ∙ ap (λ (x : ℕ). some (entry d algorithm block_size file x))
          (ap (stride workers (k % workers)) (omega arith) ∙ at)

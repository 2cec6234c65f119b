-- ===== src/Session/Hasher.antt =====
-- The threads of src/hash_file.rs and the ordered channel of src/sync.rs together: what the loops
-- of a session are told by their hasher.
mod Examples
use deltasync.Base.{
  ℕ, zero, suc, ◌*◌, ◌/◌, ◌%◌, ◌<◌, ◌≡◌, refl, sym, ap, ◌∙◌, List, [], ◌∷◌, ◌++◌, none, some,
  some_injective, length, get_elem?, get_or, true, ltb, arith, ◌⊎◌, inl, inr,
}
use deltasync.HashAlgorithm.{HashAlgorithm}
use deltasync.HashFile.{Digests, FileBlockData, Surroundings, worker}
use deltasync.HashFile.Stride.{stride, stride-AreDistinct}
use deltasync.HashFile.Offsets.{IsFine, IsSmall, entry}
use deltasync.HashFile.Stream.{received, recv}
use deltasync.HashFile.Cover.{get_elem?-worker}
use deltasync.Select.{value}
use deltasync.Session.Diff.{hashing}
use deltasync.Sync.System.{start, Move, run}
use deltasync.Sync.System.Invariant.{items, length-items}
use deltasync.Sync.System.Safety.{run-received}

get_elem?-append_one :
    {A : Type 0} (xs : List A) (y : A) (k : ℕ) (x : A)
    → get_elem? (xs ++ y ∷ []) k ≡ some x
    → (get_elem? xs k ≡ some x) ⊎ ((k ≡ length xs) × (x ≡ y))
get_elem?-append_one [] y zero x e = inr (refl, sym (some_injective e))
get_elem?-append_one [] y (suc k) x e = absurd cc
get_elem?-append_one (z ∷ xs) y zero x e = inl e
get_elem?-append_one (z ∷ xs) y (suc k) x e = elim (get_elem?-append_one xs y k x e) [
  | inl found ↦ inl found
  | inr (at, same) ↦ inr (ap suc at, same)
]

get_elem?-items :
    {A : Type 0} (item : ℕ → A) (n k : ℕ) (x : A) → get_elem? (items item n) k ≡ some x → x ≡ item k
unfolding items
get_elem?-items item zero k x e = absurd cc
get_elem?-items item (suc n) k x e = elim (get_elem?-append_one (items item n) (item n) k x e) [
  | inl found ↦ get_elem?-items item n k x found
  | inr (at, same) ↦ same ∙ ap item (sym (at ∙ length-items item n))
]

get_or-some :
    {A : Type 0} (xs : List A) (k : ℕ) (x y : A) → get_elem? xs k ≡ some x → get_or xs k y ≡ x
get_or-some [] k x y e = absurd cc
get_or-some (z ∷ xs) zero x y e = some_injective e
get_or-some (z ∷ xs) (suc k) x y e = get_or-some xs k x y e

module _ (d : Digests) (os : Surroundings) (algorithm : HashAlgorithm) (file : List ℕ)
    (block_size workers : ℕ) where
  -- What the thread of an index sends there: in round `k / workers`, thread `k % workers`.
  abbrev pub sent_at : ℕ → ℕ × FileBlockData
  sent_at k =
      get_or (worker d os algorithm (length file) block_size workers (k % workers)).sent
        (k / workers) (0, record { hash = []; bytes = [] })

  hashing-entry :
      (k : ℕ)
      → k * block_size < length file
      → hashing d algorithm block_size file k ≡ value (entry d algorithm block_size file k).1
  unfolding hashing
  hashing-entry k within =
      let t : ltb (k * block_size) (length file) ≡ true = ground (arith, within) in rw t refl

  -- Where nothing fails, the value that a task receives as the one of number `k` is block `k` of
  -- the file with its index and its hash, and `HashStream::recv` answers with it what the event
  -- loops of a session rely on, whatever the order in which the threads send, futures are dropped
  -- and the channel is closed. `k` is a block of the file; the file keeps its content, there is a
  -- thread and a byte per block at least, and the file and a block of each thread are below 2^63
  -- bytes.
  pub received-entry :
      IsFine os file
      → IsSmall d os algorithm file block_size workers
      → (ms : List Move) (k : ℕ) (x : ℕ × FileBlockData) → k * block_size < length file
      → get_elem? (run (stride workers) sent_at workers ms start).received k ≡ some x
      → (x ≡ entry d algorithm block_size file k)
        × (recv none (received (some x)) ≡ hashing d algorithm block_size file k)
  unfolding recv
  received-entry fine small ms k x within e =
      let sent : sent_at k ≡ entry d algorithm block_size file k =
        get_or-some (worker d os algorithm (length file) block_size workers (k % workers)).sent
          (k / workers) (entry d algorithm block_size file k) (0, record { hash = []; bytes = [] })
          (get_elem?-worker d os algorithm file block_size workers k fine small within) in
      let items_ = run-received workers (stride workers) sent_at (stride-AreDistinct workers) ms in
      let here : x ≡ sent_at k =
        get_elem?-items sent_at _ k x
          (sym (ap (λ (l : List (ℕ × FileBlockData)). get_elem? l k) items_) ∙ e) in
      (
        here ∙ sent,
        ap (λ (y : ℕ × FileBlockData). value y.1) (here ∙ sent) ∙ sym (hashing-entry k within),
      )

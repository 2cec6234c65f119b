-- ===== src/HashFile/Stride.antt =====
-- The indices of the threads of src/hash_file.rs.
use deltasync.Base.{ℕ, zero, suc, ◌+◌, ◌*◌, ◌/◌, ◌%◌, ◌<◌, ◌≡◌, refl, ap, arith}
use native.Mathlib.Nat.{mod-lt, mod-add-div, mul-suc}
use deltasync.Sync.System.Invariant.{AreDistinct}

-- `block_idx` of thread `i` in round `n`.
abbrev pub stride : ℕ → ℕ → ℕ → ℕ
stride workers i n = i + workers * n

-- No index has two threads or two rounds.
pub stride-AreDistinct : (workers : ℕ) → AreDistinct workers (stride workers)
stride-AreDistinct workers i j zero zero a b e = (omega arith, refl)
stride-AreDistinct workers i j zero (suc m) a b e = absurd (omega (arith, mul-suc workers m))
stride-AreDistinct workers i j (suc n) zero a b e = absurd (omega (arith, mul-suc workers n))
stride-AreDistinct workers i j (suc n) (suc m) a b e =
    let (x, y) = stride-AreDistinct workers i j n m a b (omega (arith, e)) in (x, ap suc y)

-- Each index has one.
pub stride_onto :
    (workers k : ℕ)
    → 0 < workers
    → (k % workers < workers) × (stride workers (k % workers) (k / workers) ≡ k)
stride_onto workers k h = (mod-lt k h, mod-add-div k workers)

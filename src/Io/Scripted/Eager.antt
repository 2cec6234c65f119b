-- ===== src/Io/Scripted/Eager.antt =====
-- A writer that accepts all that it is given.
use deltasync.Base.{ℕ, suc, ◌≡◌, ◌≢◌, refl, sym, ap, List, ◌∷◌, ◌++◌, arith, length}
use deltasync.Common.Buffer.{take_all}
use deltasync.Io.Calls.{Poll}
use deltasync.Io.Streams.{AsyncWrite, IsOpen}
use deltasync.Io.Scripted.Writer.{writer}

abbrev pub eager : AsyncWrite
eager = record writer {
  write = λ bs s. (Poll.ready (length bs), record s { out = s.out ++ bs });
  write_takes = λ bs s. ap (◌++◌ s.out) (sym (take_all (length bs) bs (omega arith)));
  write_fits = λ bs s. omega arith;
}

pub not_zero : (n m : ℕ) → m ≡ suc n → ◌≢◌ {A = Poll ℕ} (Poll.ready m) (Poll.ready 0)
not_zero n m e h = let z : m ≡ 0 = cc in omega (arith, z, e)

pub eager-IsOpen : IsOpen eager
eager-IsOpen b bs s = not_zero (length bs) (length (b ∷ bs)) refl

pub eager-unfailed : (bs : List ℕ) (s : eager.Sink) → (eager.write bs s).0 ≢ Poll.failed
eager-unfailed bs s = λ e. cc

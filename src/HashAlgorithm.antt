-- ===== src/HashAlgorithm.antt =====
-- `HashAlgorithm` of src/main.rs, with its derived conversions.
use deltasync.Base.{ℕ, ◌≡◌, refl, Option, none, some, arith, ◌==◌, if◌then◌else◌}

pub data HashAlgorithm : Type 0 where
  crc32 md5 : HashAlgorithm

abbrev pub to_u8 : HashAlgorithm → ℕ
to_u8 HashAlgorithm.crc32 = 1
to_u8 HashAlgorithm.md5 = 2

unfoldable pub try_from : ℕ → Option HashAlgorithm
try_from n =
    if n == 1 then some HashAlgorithm.crc32 else if n == 2 then some HashAlgorithm.md5 else none

pub try_from-to_u8 : (a : HashAlgorithm) → try_from (to_u8 a) ≡ some a
unfolding try_from
try_from-to_u8 HashAlgorithm.crc32 = refl
try_from-to_u8 HashAlgorithm.md5 = refl

pub try_from-eq-some : (n : ℕ) (a : HashAlgorithm) → try_from n ≡ some a → n ≡ to_u8 a
unfolding try_from
try_from-eq-some n a h = ground arith

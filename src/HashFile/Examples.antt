-- ===== src/HashFile/Examples.antt =====
-- The theorems about src/hash_file.rs at concrete inputs.
use deltasync.Base.{
  ℕ, ◌+◌, ◌≡◌, refl, List, [], ◌∷◌, none, some, true, false, leb, if◌then◌else◌, take, drop, arith,
}
use deltasync.HashAlgorithm.{HashAlgorithm}
use deltasync.HashFile.{Digests, Surroundings, worker}
use deltasync.HashFile.Offsets.{IsFine, IsSmall, Sends}
use deltasync.HashFile.Blocks.{worker-Sends}

-- Five bytes in blocks of two, with two threads.
abbrev pub five : List ℕ
five = 1 ∷ 2 ∷ 3 ∷ 4 ∷ 5 ∷ []

abbrev pub plain : Digests
plain = record { hex_encode = λ bs. bs; crc32c_le_bytes = λ bs. take 1 bs; md5_digest = λ bs. bs }

abbrev pub calm : Surroundings
calm = record {
  opens = true;
  seek_start = some;
  seek_current = λ n pos. some (pos + n);
  read_exact = λ pos n. if leb (pos + n) 5 then some (take n (drop pos five)) else none;
  errored = λ k. false;
  sends = λ k. true;
}

pub calm-IsFine : IsFine calm five
calm-IsFine = record {
  opened = refl;
  sought_start = λ n. refl;
  sought = λ n pos h. refl;
  read = λ pos n h. let e : leb (pos + n) 5 ≡ true = ground (arith, h) in rw e refl;
  no_error = λ k. refl;
  sent = λ k. refl;
}

pub five-IsSmall : IsSmall plain calm HashAlgorithm.md5 five 2 2
five-IsSmall = (omega arith, omega arith, omega arith)

worker-Sends_example :
    Sends plain calm HashAlgorithm.md5 five 2 2 0 0 (worker plain calm HashAlgorithm.md5 5 2 2 0)
worker-Sends_example =
    worker-Sends plain calm HashAlgorithm.md5 five 2 2 0 calm-IsFine five-IsSmall (omega arith)

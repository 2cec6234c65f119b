-- ===== src/Session/Hasher/Examples.antt =====
-- What the loops are told by their hasher, on a small file.
use deltasync.Base.{ℕ, ◌≡◌, refl, List, [], ◌∷◌, none, some, get_elem?, arith}
use deltasync.HashAlgorithm.{HashAlgorithm}
use deltasync.HashFile.{
  FileBlockData, worker, started, hash_loop, hash_block, send_block, next_block, size_at, hash_data,
}
use deltasync.HashFile.Examples.{five, plain, calm, calm-IsFine, five-IsSmall}
use deltasync.HashFile.Offsets.{entry}
use deltasync.HashFile.Stream.{received, recv}
use deltasync.HashFile.Stride.{stride}
use deltasync.Session.Diff.{hashing}
use deltasync.Session.Hasher.{sent_at, received-entry}
use deltasync.Sync.Channel.{wants, blocking_send, send, next_wanted, ask, finish}
use deltasync.Sync.System.{
  System, start, Move, call, round, ask_next, take_value, return_value, put, notify_all,
  after_round, round_by, call_by, ask_by, take_by, return_by, step, run,
}

abbrev moves : List Move
moves = call 1 ∷ ask_next ∷ round 1 ∷ call 0 ∷ round 0 ∷ take_value ∷ return_value ∷ []

abbrev after : System (ℕ × FileBlockData)
after = run (stride 2) (sent_at plain calm HashAlgorithm.md5 five 2 2) 2 moves start

ran : System (ℕ × FileBlockData)
unfolding run step call_by round_by ask_by take_by return_by after_round send blocking_send wants
    next_wanted ask finish put notify_all worker started hash_loop hash_block send_block next_block
    size_at hash_data
ran = after

first : get_elem? after.received 0 ≡ some (entry plain HashAlgorithm.md5 2 five 0)
unfolding ran
first = refl

received-entry_example :
    (entry plain HashAlgorithm.md5 2 five 0 ≡ entry plain HashAlgorithm.md5 2 five 0)
    × (recv none (received (some (entry plain HashAlgorithm.md5 2 five 0)))
        ≡ hashing plain HashAlgorithm.md5 2 five 0)
received-entry_example =
    received-entry plain calm HashAlgorithm.md5 five 2 2 calm-IsFine five-IsSmall moves 0
      (entry plain HashAlgorithm.md5 2 five 0) (omega arith) first

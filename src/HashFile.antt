-- ===== src/HashFile.antt =====
-- src/hash_file.rs: the threads that hash the blocks of a file, each every `workers`-th one.
pub mod Stride
pub mod Offsets
pub mod Blocks
pub mod Cover
pub mod Stream
pub mod Examples
use deltasync.Base.{
  ℕ, zero, suc, ◌+◌, ◌-◌, ◌*◌, ◌%◌, ◌^◌, List, [], ◌∷◌, ◌++◌, Bool, true, false, Option, none, some,
  ltb, if◌then◌else◌,
}
use deltasync.Bytes.{String}
use deltasync.HashAlgorithm.{HashAlgorithm}
use deltasync.Io.{Error, Result}

-- What is taken of the crates hex, crc32c and md-5.
pub record Digests : Type 0 where
  pub hex_encode : List ℕ → String
  pub crc32c_le_bytes : List ℕ → List ℕ
  pub md5_digest : List ℕ → List ℕ

unfoldable pub hash_data : Digests → List ℕ → HashAlgorithm → String
hash_data d bs HashAlgorithm.crc32 = d.hex_encode (d.crc32c_le_bytes bs)
hash_data d bs HashAlgorithm.md5 = d.hex_encode (d.md5_digest bs)

-- `FileBlockData`; a loan is the value that it holds.
pub record FileBlockData : Type 0 where
  pub hash : String
  pub bytes : List ℕ

-- What a thread meets: its file, by the position in it, `error_tx.borrow().is_some()` before the
-- block of an index, and whether `tx.send` of an index is `Ok`. The argument of a relative seek is
-- the `i64` as a word.
pub record Surroundings : Type 0 where
  pub opens : Bool
  pub seek_start : ℕ → Option ℕ
  pub seek_current : ℕ → ℕ → Option ℕ
  pub read_exact : ℕ → ℕ → Option (List ℕ)
  pub errored : ℕ → Bool
  pub sends : ℕ → Bool

-- How a thread ends: past the file, since another one has failed, with an error that it reports,
-- whereupon it closes the channel, or since the receiver is closed; `stuck` is out of fuel.
pub data End : Type 0 where
  finished stopped failed receiver_closed stuck : End

pub record Log : Type 0 where
  pub sent : List (ℕ × FileBlockData)
  pub end : End

abbrev pub ending : End → Log
ending e = record { sent = []; end = e }

module _ (d : Digests) (os : Surroundings) (algorithm : HashAlgorithm)
    (file_size block_size workers : ℕ) where
  unfoldable pub size_at : ℕ → ℕ
  size_at offset = let rem = file_size - offset in if ltb rem block_size then rem else block_size

  -- Behind the reclaimed buffer: the seek over the blocks of the other threads, and the next round.
  unfoldable pub next_block : (ℕ → ℕ → ℕ → Log) → ℕ → ℕ → Option ℕ → Log
  next_block rest offset block_idx none = ending failed
  next_block rest offset block_idx (some pos) =
      rest ((offset + workers * block_size) % 2 ^ 64) ((block_idx + workers) % 2 ^ 64) pos

  unfoldable pub send_block : (ℕ → ℕ → ℕ → Log) → ℕ → ℕ → ℕ → Option (List ℕ) → Log
  send_block rest offset block_idx pos none = ending failed
  send_block rest offset block_idx pos (some bs) =
      let later =
        next_block rest offset block_idx
          (os.seek_current ((workers - 1) * block_size % 2 ^ 64) pos) in
      let block : FileBlockData = record { hash = hash_data d bs algorithm; bytes = bs } in
      if os.sends block_idx
      then record { sent = (block_idx, block) ∷ later.sent; end = later.end }
      else ending receiver_closed

  -- The body of `while offset < file_size`.
  unfoldable pub hash_block : (ℕ → ℕ → ℕ → Log) → ℕ → ℕ → ℕ → Log
  hash_block rest offset block_idx pos =
      if os.errored block_idx
      then ending stopped
      else send_block rest offset block_idx (pos + size_at offset)
          (os.read_exact pos (size_at offset))

  unfoldable pub hash_loop : ℕ → ℕ → ℕ → ℕ → Log
  hash_loop zero offset block_idx pos =
      if ltb offset file_size then ending stuck else ending finished
  hash_loop (suc fuel) offset block_idx pos =
      let round = hash_block (hash_loop fuel) offset block_idx pos in
      if ltb offset file_size then round else ending finished

  unfoldable pub started : ℕ → Option ℕ → Log
  started i none = ending failed
  started i (some pos) = hash_loop file_size (i * block_size % 2 ^ 64) i pos

  -- Thread `i` of `hash_file`. A round moves by a byte at least, so the file size is enough fuel.
  unfoldable pub worker : ℕ → Log
  worker i = if os.opens then started i (os.seek_start (i * block_size % 2 ^ 64)) else ending failed

-- `file.seek(SeekFrom::End(0))`, or none where the file cannot be opened or sought, and the threads,
-- each with what it meets.
abbrev hash_file :
    Digests
    → (ℕ → Surroundings)
    → HashAlgorithm
    → Option ℕ
    → (block_size workers : ℕ) → Result (List Log)
hash_file d os algorithm none block_size workers = Result.err Error.io
hash_file d os algorithm (some file_size) block_size workers = Result.ok (spawn workers)
  where
    spawn : ℕ → List Log
    spawn zero = []
    spawn (suc i) = spawn i ++ worker d (os i) algorithm file_size block_size workers i ∷ []

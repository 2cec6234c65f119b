-- ===== src/Server/Loop/Invariant.antt =====
-- What holds of the event loop of src/server.rs at every moment.
use deltasync.Base.{
  ℕ, ◌≤◌, ◌<◌, ◌≡◌, refl, List, [], ◌∷◌, ◌++◌, Bool, true, false, Option, none, some, length, drop,
  ◌⊎◌, if◌then◌else◌,
}
use deltasync.Bytes.{String}
use deltasync.Io.{AsyncRead, AsyncWrite}
use deltasync.FileSystem.SeekFile.{SeekFile}
use deltasync.Common.ReadBlock
use deltasync.Common.ReadBlock.{ReadBlock}
use deltasync.Common.ReadBlock.Payload.{consumed, IsValid, SameSizes}
use deltasync.Common.WriteString.{WriteString, WriteAll}
use deltasync.Client.Loop.Hearing.{incoming}
use deltasync.HashFile.{FileBlockData}
use deltasync.Select.{Flow, goes_on, breaks, returns_err, Received, value, nothing, error}
use deltasync.Server.Loop.{Server}
use deltasync.Server.Loop.Patch.{Blocks, frames, patch, AreBlocks}

-- The hash that the hasher answers with.
abbrev pub hash_of : Received → String
hash_of (value block) = block.hash
hash_of nothing = []
hash_of error = []

abbrev pub left_hash : Option WriteString → List ℕ
left_hash none = []
left_hash (some h) = drop h.offset h.buf

abbrev pub IsStarted : Option WriteString → Type 0
IsStarted none = Unit
IsStarted (some h) = h.offset ≤ length h.buf

-- `wire` are the bytes that the client sends, `old` is the content of the destination, `sent` what
-- the server has sent before.
module _ (r : AsyncRead) (w : AsyncWrite) (disk : SeekFile) (hasher : ℕ → Received)
    (block_size filesize : ℕ) (wire old sent : List ℕ) where
  open r use {Source, unread}
  open w use {Sink, written}
  open disk use {file, start, base, content, seek}

  -- `done` are the blocks that have been received.
  pub record Receives (done : Blocks) (me : ReadBlock) (buf : List ℕ) (rx : Source) : Type 0 where
    pub valid : IsValid me buf
    pub sizes : SameSizes me (ReadBlock.new block_size filesize)
    pub blocks : AreBlocks (ReadBlock.new block_size filesize) done
    pub total : wire ≡ frames done ++ (consumed me buf ++ unread rx)

  -- They are in the file, the last one up to what is left of it.
  abbrev pub Stores : Blocks → Option WriteAll → List ℕ → file.Sink → Type 0
  Stores done none buf f = content f ≡ patch done old
  Stores done (some rwa) buf f =
      (prev : Blocks) × (done ≡ prev ++ (start f, buf) ∷ [])
      × (base f ≡ patch prev old)
      × (rwa.offset ≤ length buf)
      × (file.written f ++ drop rwa.offset buf ≡ buf)

  -- What is sent and what is left of the hash in hand make up the frames of the hashes so far.
  abbrev pub Answers : ℕ → Option WriteString → Sink → Type 0
  Answers n h tx =
      IsStarted h × (written tx ++ left_hash h ≡ sent ++ incoming (λ k. hash_of (hasher k)) 0 n)

  pub record Inv (s : Server Source Sink file.Sink) : Type 0 where
    pub done : Blocks
    pub receives : Receives done s.resumable_read_file_block s.receive_buffer s.client_rx
    pub stores : Stores done s.resumable_write_block_to_disk s.write_buffer s.file
    pub answers : Answers s.hashed s.resumable_write_hash s.client_tx
    pub ended : s.hashing_done ≡ true → hasher s.hashed ≡ nothing
    pub counted : (j : ℕ) → j < s.hashed → (b : FileBlockData) × (hasher j ≡ value b)

  -- Where the loop is left, nothing is left to write to the file.
  abbrev pub AllStored : Server Source Sink file.Sink → Type 0
  AllStored s = s.resumable_write_block_to_disk ≡ none

  -- An error is one of the hasher or of a seek.
  abbrev pub HasFailed : Server Source Sink file.Sink → Type 0
  HasFailed s = (hasher s.hashed ≡ error) ⊎ ((n : ℕ) × (f : file.Sink) × (seek n f ≡ none))

  abbrev pub Holds : Flow (Server Source Sink file.Sink) → Type 0
  Holds (goes_on s) = Inv s
  Holds (breaks s) = Inv s × AllStored s
  Holds (returns_err s) = HasFailed s

  pub by_test-Holds :
      (b : Bool) (x y : Flow (Server Source Sink file.Sink))
      → (b ≡ true → Holds x)
      → (b ≡ false → Holds y)
      → Holds (if b then x else y)
  by_test-Holds true x y h h' = h refl
  by_test-Holds false x y h h' = h' refl

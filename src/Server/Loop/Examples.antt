-- ===== src/Server/Loop/Examples.antt =====
-- A run of the event loop of src/server.rs.
use deltasync.Base.{ℕ, true, none, ◌<◌, ◌≡◌, refl, List, [], ◌∷◌, ◌++◌, arith, ltb, if◌then◌else◌}
use deltasync.Bytes.{be, be_fill, be_read}
use deltasync.Io.{Result}
use deltasync.Io.Scripted.{Source, Sink, prompt, eager, eager-IsOpen, eager-unfailed}
use deltasync.FileSystem.Memory.{Memory, memory, memory-IsOpen, memory-unfailed}
use deltasync.FileSystem.SeekFile.{overwrite}
use deltasync.Common.Buffer.{resize, write_at}
use deltasync.Common.Drain.{drain, drain_loop, after_write}
use deltasync.Common.Fill.{fill, fill_loop, after_read}
use deltasync.Common.ReadBlock
use deltasync.Common.Status.{StatusCode}
use deltasync.Common.WriteString
use deltasync.HashFile.{FileBlockData}
use deltasync.Client.Loop.Hearing.{incoming}
use deltasync.Select.{goes_on, Flow, breaks, Received, value, nothing, is_some, left_with}
use deltasync.Server.Loop.{
  Server, begin, Branch, write_disk, read_block, write_hash, next_hash, turn, serve_loop, finish,
  poll_disk, poll_block, poll_hash, on_disk, on_block, after_seek, on_hash_written, on_hash,
}
use deltasync.Server.Loop.Patch.{Blocks, frames, patch, AreBlocks}
use deltasync.Server.Loop.Invariant.{hash_of, Holds}
use deltasync.Server.Loop.Run.{serve_loop-begin}
use deltasync.Server.Loop.Whole.{serve_loop-stores, serve_loop-hashes}

-- The last block of a file of five bytes, then the first one; blocks have two bytes.
abbrev blocks : Blocks
blocks = (4, 9 ∷ []) ∷ (0, 7 ∷ 8 ∷ []) ∷ []

abbrev zeros : List ℕ
zeros = 0 ∷ 0 ∷ 0 ∷ 0 ∷ 0 ∷ 0 ∷ 0 ∷ []

abbrev sending : Source
sending = record { raw = zeros ++ 4 ∷ 9 ∷ zeros ++ 0 ∷ 7 ∷ 8 ∷ []; script = [] }

abbrev unsent : Sink
unsent = record { out = []; script = [] }

abbrev dest : Memory
dest = record { old = 1 ∷ 2 ∷ 3 ∷ 4 ∷ 5 ∷ []; place = 0; out = [] }

abbrev hasher : ℕ → Received
hasher k = if ltb k 1 then value (record { hash = k ∷ []; bytes = [] }) else nothing

abbrev polls : List Branch
polls =
    next_hash ∷ read_block ∷ write_hash ∷ write_disk ∷ next_hash ∷ read_block ∷ write_disk
    ∷ read_block ∷ []

abbrev run : Flow (Server Source Sink Memory)
run = serve_loop prompt eager memory hasher polls (begin 2 5 sending unsent dest)

ran : Flow (Server Source Sink Memory)
unfolding serve_loop turn poll_disk poll_block poll_hash on_disk on_block after_seek on_hash_written
    on_hash is_some ReadBlock.read_on ReadBlock.after_header ReadBlock.start_payload
    ReadBlock.read_payload ReadBlock.after_payload ReadBlock.current_block_size fill fill_loop
    after_read resize write_at be_read be_fill WriteString.write_all WriteString.write_to
    WriteString.new drain drain_loop after_write overwrite
ran = run

ran_breaks : run ≡ breaks (left_with run)
unfolding ran
ran_breaks = refl

run_finished :
    finish prompt eager memory hasher (left_with run)
    ≡ Result.ok (StatusCode.ack, (left_with run).file)
unfolding ran finish
run_finished = refl

run_at_end : prompt.unread (left_with run).client_rx ≡ []
unfolding ran
run_at_end = refl

blocks_framed : prompt.unread sending ≡ frames blocks
unfolding frames be
blocks_framed = refl

blocks-AreBlocks : AreBlocks (ReadBlock.new 2 5) blocks
unfolding ReadBlock.current_block_size
blocks-AreBlocks = ((omega arith, refl), ((omega arith, refl), tt))

-- The hash is sent and the blocks are in the file.
run_result :
    ((left_with run).client_tx.out ≡ zeros ++ 1 ∷ 0 ∷ [])
    × (memory.content (left_with run).file ≡ 7 ∷ 8 ∷ 3 ∷ 4 ∷ 9 ∷ [])
unfolding ran
run_result = (refl, refl)

serve_loop-begin_example :
    Holds prompt eager memory hasher 2 5 (prompt.unread sending) (memory.content dest) [] run
serve_loop-begin_example =
    serve_loop-begin prompt eager memory hasher 2 5 (prompt.unread sending) (memory.content dest) []
      eager-IsOpen eager-unfailed memory-IsOpen memory-unfailed polls sending unsent dest refl refl
      refl

serve_loop-stores_example :
    (StatusCode.ack ≡ StatusCode.ack)
    × (memory.content (left_with run).file ≡ patch blocks (memory.content dest))
serve_loop-stores_example =
    serve_loop-stores prompt eager memory hasher 2 5 eager-IsOpen eager-unfailed memory-IsOpen
      memory-unfailed polls sending unsent dest (left_with run).file (left_with run) StatusCode.ack
      blocks blocks_framed blocks-AreBlocks ran_breaks run_at_end run_finished

abbrev hash_polls : List Branch
hash_polls = next_hash ∷ write_hash ∷ next_hash ∷ []

abbrev hash_run : Flow (Server Source Sink Memory)
hash_run = serve_loop prompt eager memory hasher hash_polls (begin 2 5 sending unsent dest)

hash_ran : Flow (Server Source Sink Memory)
unfolding ran
hash_ran = hash_run

hash_run_goes_on : hash_run ≡ goes_on (left_with hash_run)
unfolding hash_ran
hash_run_goes_on = refl

hash_run_idle :
    ((left_with hash_run).hashing_done ≡ true) × ((left_with hash_run).resumable_write_hash ≡ none)
unfolding hash_ran
hash_run_idle = (refl, refl)

serve_loop-hashes_example :
    ((j : ℕ) → j < (left_with hash_run).hashed → (b : FileBlockData) × (hasher j ≡ value b))
    × (hasher (left_with hash_run).hashed ≡ nothing)
    × ((left_with hash_run).client_tx.out
        ≡ [] ++ incoming (λ k. hash_of (hasher k)) 0 (left_with hash_run).hashed)
serve_loop-hashes_example =
    serve_loop-hashes prompt eager memory hasher 2 5 eager-IsOpen eager-unfailed memory-IsOpen
      memory-unfailed hash_polls sending unsent dest (left_with hash_run) hash_run_goes_on
      hash_run_idle.0 hash_run_idle.1

-- ===== src/Session/Examples.antt =====
-- A session on two small files.
use deltasync.Base.{
  ℕ, none, zero, suc, ◌*◌, ◌%◌, ◌≡◌, ◌≢◌, refl, sym, ap, ◌∙◌, List, [], ◌∷◌, arith, length, get_or,
  drop, take, some_injective, get_elem?,
}
use deltasync.Bytes.{is_utf8-ascii, String, be_fill, be_read, from_utf8, is_utf8}
use deltasync.Io.{Result}
use deltasync.Io.Scripted.{Source, Sink, prompt, eager, eager-IsOpen, eager-unfailed}
use deltasync.FileSystem.Memory.{Memory, memory, memory-IsOpen, memory-unfailed}
use deltasync.FileSystem.SeekFile.{overwrite}
use deltasync.Common.Buffer.{resize, write_at}
use deltasync.Common.Drain.{drain, drain_loop, after_write, drop_all}
use deltasync.Common.Fill.{fill, fill_loop, after_read}
use deltasync.Common.ReadBlock
use deltasync.Common.ReadString
use deltasync.Common.Status.{StatusCode}
use deltasync.Common.WriteBlock
use deltasync.Common.WriteString
use deltasync.Client.Loop as ClientLoop
use deltasync.Client.Loop.{Client, div_ceil}
use deltasync.HashAlgorithm.{HashAlgorithm}
use deltasync.HashFile.{Digests, hash_data}
use deltasync.HashFile.Offsets.{block_of}
use deltasync.Select.{Flow, breaks, value, is_some, is_empty, left_with}
use deltasync.Server.Loop as ServerLoop
use deltasync.Server.Loop.{Server, finish}
use deltasync.Server.Request.{bytes_eq}
use deltasync.Session.Diff.{hashing, local, HasNoCollision}
use deltasync.Session.Copy.{HasProperHashes, session_copies}

abbrev pub src : List ℕ
src = 7 ∷ 1 ∷ 7 ∷ 2 ∷ []

abbrev pub dest : Memory
dest = record { old = 7 ∷ 1 ∷ 0 ∷ 0 ∷ []; place = 0; out = [] }

-- A hash of one letter: the second byte of a block.
abbrev pub digests : Digests
digests = record {
  hex_encode = λ bs. get_or bs 0 0 % 128 ∷ [];
  crc32c_le_bytes = λ bs. drop 1 bs;
  md5_digest = λ bs. bs;
}

abbrev wire_hashes : Source
wire_hashes = record {
  raw = 0 ∷ 0 ∷ 0 ∷ 0 ∷ 0 ∷ 0 ∷ 0 ∷ 1 ∷ 1 ∷ 0 ∷ 0 ∷ 0 ∷ 0 ∷ 0 ∷ 0 ∷ 0 ∷ 1 ∷ 0 ∷ [];
  script = [];
}

abbrev wire_blocks : Source
wire_blocks = record { raw = 0 ∷ 0 ∷ 0 ∷ 0 ∷ 0 ∷ 0 ∷ 0 ∷ 2 ∷ 7 ∷ 2 ∷ []; script = [] }

-- Something was sent before, as by the handshake.
abbrev sent : Sink
sent = record { out = 0 ∷ []; script = [] }

abbrev pub client_polls : List ClientLoop.Branch
client_polls =
    ClientLoop.read_hash ∷ ClientLoop.read_hash ∷ ClientLoop.next_hash ∷ ClientLoop.next_hash
    ∷ ClientLoop.write_next_block ∷ []

abbrev pub server_polls : List ServerLoop.Branch
server_polls =
    ServerLoop.next_hash ∷ ServerLoop.write_hash ∷ ServerLoop.next_hash ∷ ServerLoop.write_hash
    ∷ ServerLoop.next_hash ∷ ServerLoop.read_block ∷ ServerLoop.write_disk ∷ ServerLoop.read_block
    ∷ []

abbrev client_run : Flow (Client Source Sink)
client_run =
    ClientLoop.select_loop prompt eager
      (λ k. value (local digests HashAlgorithm.crc32 2 src (memory.content dest) k)) 2
      (div_ceil (length src) 2) client_polls (ClientLoop.begin wire_hashes sent)

abbrev server_run : Flow (Server Source Sink Memory)
server_run =
    ServerLoop.serve_loop prompt eager memory
      (hashing digests HashAlgorithm.crc32 2 (memory.content dest)) server_polls
      (ServerLoop.begin 2 (length src) wire_blocks sent dest)

client_ran : Flow (Client Source Sink)
unfolding ClientLoop.select_loop ClientLoop.turn ClientLoop.poll_read ClientLoop.poll_write
    ClientLoop.on_read ClientLoop.on_write ClientLoop.on_hash ClientLoop.count_block
    ClientLoop.compare_block ClientLoop.prepare_next_write_block ClientLoop.pop_next
    ClientLoop.after_write_block is_empty is_some bytes_eq ReadString.read_on
    ReadString.after_header ReadString.start_payload ReadString.read_payload
    ReadString.after_payload fill fill_loop after_read resize write_at be_read from_utf8 is_utf8
    WriteBlock.write_to WriteBlock.prepare WriteBlock.write_steps WriteBlock.after_header
    WriteBlock.write_payload WriteBlock.header_loop WriteBlock.after_header_write
    WriteBlock.copy_within drain drain_loop after_write be_fill overwrite hash_data
client_ran = client_run

server_ran : Flow (Server Source Sink Memory)
unfolding ServerLoop.serve_loop ServerLoop.turn ServerLoop.poll_disk ServerLoop.poll_block
    ServerLoop.poll_hash ServerLoop.on_disk ServerLoop.on_block ServerLoop.after_seek
    ServerLoop.on_hash_written ServerLoop.on_hash is_some ReadBlock.read_on ReadBlock.after_header
    ReadBlock.start_payload ReadBlock.read_payload ReadBlock.after_payload
    ReadBlock.current_block_size fill fill_loop after_read resize write_at be_read be_fill
    WriteString.write_all WriteString.write_to WriteString.new drain drain_loop after_write
    overwrite hashing hash_data
server_ran = server_run

client_breaks : client_run ≡ breaks (left_with client_run)
unfolding client_ran
client_breaks = refl

server_breaks : server_run ≡ breaks (left_with server_run)
unfolding server_ran
server_breaks = refl

hashes_arrive : eager.written (left_with server_run).client_tx ≡ 0 ∷ prompt.unread wire_hashes
unfolding server_ran
hashes_arrive = refl

blocks_arrive : eager.written (left_with client_run).stream_tx ≡ 0 ∷ prompt.unread wire_blocks
unfolding client_ran
blocks_arrive = refl

server_idle :
    ((left_with server_run).resumable_write_hash ≡ none)
    × (prompt.unread (left_with server_run).client_rx ≡ [])
unfolding server_ran
server_idle = (refl, refl)

server_finishes :
    finish prompt eager memory
      (hashing digests HashAlgorithm.crc32 2 (memory.content dest))
      (left_with server_run)
    ≡ Result.ok (StatusCode.ack, (left_with server_run).file)
unfolding server_ran finish
server_finishes = refl

pub hashes-proper :
    (a : HashAlgorithm) → HasProperHashes prompt eager prompt eager memory digests a 2 src
unfolding hash_data
hashes-proper HashAlgorithm.crc32 bs =
    (is_utf8-ascii (get_or (drop 1 bs) 0 0 % 128) (omega arith), omega arith)
hashes-proper HashAlgorithm.md5 bs =
    (is_utf8-ascii (get_or bs 0 0 % 128) (omega arith), omega arith)

other_hash : (a b : ℕ) → a ≢ b → ◌≢◌ {A = List ℕ} (a ∷ []) (b ∷ [])
other_hash a b ne e = ne (some_injective (ap (λ (s : String). get_elem? s 0) e))

past_end : (k : ℕ) (file : List ℕ) → length file ≡ 4 → block_of 2 file (suc (suc k)) ≡ []
past_end k file size = ap (take 2) (drop_all (suc (suc k) * 2) file (omega arith))

pub no_collision : HasNoCollision digests HashAlgorithm.crc32 2 src (memory.content dest)
unfolding overwrite hash_data
no_collision zero h = refl
no_collision (suc zero) h = absurd (other_hash 2 0 (λ e. omega arith) h)
no_collision (suc (suc k)) h = past_end k src refl ∙ sym (past_end k (memory.content dest) refl)

same_size : length src ≡ length (memory.content dest)
unfolding overwrite
same_size = refl

session_copies_example :
    (StatusCode.ack ≡ StatusCode.ack) × (memory.content (left_with server_run).file ≡ src)
session_copies_example =
    session_copies prompt eager prompt eager memory digests HashAlgorithm.crc32 2 src eager-IsOpen
      eager-unfailed eager-IsOpen eager-unfailed memory-IsOpen memory-unfailed
      (hashes-proper HashAlgorithm.crc32) (omega arith) (omega arith) (omega arith) client_polls
      server_polls wire_hashes sent wire_blocks sent dest (left_with server_run).file
      (left_with client_run) (left_with server_run) StatusCode.ack same_size no_collision
      client_breaks server_breaks hashes_arrive blocks_arrive server_idle.0 server_idle.1
      server_finishes

-- ===== src/Session/Whole/Examples.antt =====
-- A session on two small files, from its first byte on.
use deltasync.Base.{ℕ, false, if◌then◌else◌, ◌++◌, some, none, ◌≡◌, refl, List, [], ◌∷◌, arith}
use deltasync.Bytes.{be, be_fill, be_read, from_utf8, is_utf8}
use deltasync.Io.{Result}
use deltasync.Io.Scripted.{Source, Sink, prompt, eager, eager-IsOpen, eager-unfailed}
use deltasync.FileSystem.Memory.{Memory, memory, memory-IsOpen, memory-unfailed}
use deltasync.FileSystem.SeekFile.{overwrite}
use deltasync.Common.Buffer.{resize, write_at}
use deltasync.Common.Drain.{drain, drain_loop, after_write}
use deltasync.Common.Fill.{fill, fill_loop, after_read}
use deltasync.Common.ReadBlock
use deltasync.Common.ReadString
use deltasync.Common.Status.{StatusCode}
use deltasync.Common.WriteBlock
use deltasync.Common.WriteString
use deltasync.Client.Loop as ClientLoop
use deltasync.Client.Loop.{Client, div_ceil}
use deltasync.HashAlgorithm.{HashAlgorithm}
use deltasync.HashFile.{hash_data}
use deltasync.Select.{Flow, breaks, value, is_some, is_empty, left_with}
use deltasync.Server.Loop as ServerLoop
use deltasync.Server.Loop.{Server, finish}
use deltasync.Server.Request.{bytes_eq}
use deltasync.Session.Diff.{hashing, local}
use deltasync.Session.Examples.{
  src, dest, digests, client_polls, server_polls, no_collision, hashes-proper,
}
use deltasync.Session.Whole.{session_whole}
use deltasync.FileSystem.Disk.{disk, put, Files}
use deltasync.Common.Text.{read_string, read_body, write_string}
use deltasync.Common.Status.{write_status, check_status, report, try_from}
use deltasync.Client.Request.{
  ClientProcessOptions, greet, send_secret, send_version, send_request, send_options, try_into,
  not_empty, flag_of,
}
use deltasync.Client.Steps.{request_of}
use deltasync.Server.Dest.{prepare_dest, by_metadata, resize_dest}
use deltasync.Server.Request.{pass, accept, check_secret, check_version, read_request, read_options}
use deltasync.HashAlgorithm

-- The file "a", to "b".
abbrev options : ClientProcessOptions
options = record {
  secret = 0x6b ∷ [];
  src_path = 0x61 ∷ [];
  dest = 0x62 ∷ [];
  force_truncate = false;
  workers = 1;
  block_size = 2;
  hash_algorithm = HashAlgorithm.crc32;
}

abbrev client_files : Files
client_files p = if bytes_eq p options.src_path then some src else none

abbrev server_files : Files
server_files p = if bytes_eq p options.dest then some (7 ∷ 1 ∷ 0 ∷ 0 ∷ []) else none

abbrev prepared_files : Files
prepared_files = put options.dest (resize 4 (7 ∷ 1 ∷ 0 ∷ 0 ∷ [])) server_files

abbrev hashes : List ℕ
hashes = 0 ∷ 0 ∷ 0 ∷ 0 ∷ 0 ∷ 0 ∷ 0 ∷ 1 ∷ 1 ∷ 0 ∷ 0 ∷ 0 ∷ 0 ∷ 0 ∷ 0 ∷ 0 ∷ 1 ∷ 0 ∷ []

abbrev asking : List ℕ
asking =
    1 ∷ 0x6b ∷ 1 ∷ 0 ∷ 0 ∷ 0 ∷ 0 ∷ 0 ∷ 0 ∷ 0 ∷ 1 ∷ 0x62 ∷ 0 ∷ 0 ∷ 0 ∷ 0 ∷ 0 ∷ 0 ∷ 0 ∷ 2 ∷ 0 ∷ 0 ∷ 0
    ∷ 0 ∷ 0 ∷ 0 ∷ 0 ∷ 4 ∷ 0 ∷ 1 ∷ []

abbrev block : List ℕ
block = 0 ∷ 0 ∷ 0 ∷ 0 ∷ 0 ∷ 0 ∷ 0 ∷ 2 ∷ 7 ∷ 2 ∷ []

abbrev from : List ℕ → Source
from bs = record { raw = bs; script = [] }

abbrev holding : List ℕ → Sink
holding bs = record { out = bs; script = [] }

greeted :
    greet prompt eager disk options client_files (from (0 ∷ 0 ∷ 0 ∷ hashes)) (holding [])
    ≡ Result.ok (4, from hashes, holding asking)
unfolding greet send_secret send_version send_request send_options try_into not_empty flag_of
    check_status report try_from write_string from_utf8 is_utf8 be bytes_eq
greeted = refl

accepted :
    accept prompt eager options.secret (from (asking ++ block)) (holding [])
    ≡ pass (request_of options 4, from block, holding (0 ∷ 0 ∷ []))
unfolding accept check_secret check_version read_request read_options read_string read_body
    from_utf8 is_utf8 be_read bytes_eq write_status HashAlgorithm.try_from
accepted = refl

prepared : prepare_dest disk (request_of options 4) server_files ≡ pass prepared_files
unfolding prepare_dest by_metadata resize_dest bytes_eq
prepared = refl

source : disk.contents client_files options.src_path ≡ some src
unfolding bytes_eq
source = refl

found : disk.contents prepared_files options.dest ≡ some (memory.content dest)
unfolding put bytes_eq resize overwrite
found = refl

told : write_status eager StatusCode.ack (holding (0 ∷ 0 ∷ [])) ≡ some (holding (0 ∷ 0 ∷ 0 ∷ []))
unfolding write_status
told = refl

abbrev client_run : Flow (Client Source Sink)
client_run =
    ClientLoop.select_loop prompt eager
      (λ k. value (local digests HashAlgorithm.crc32 2 src (memory.content dest) k)) 2
      (div_ceil 4 2) client_polls (ClientLoop.begin (from hashes) (holding asking))

abbrev server_run : Flow (Server Source Sink Memory)
server_run =
    ServerLoop.serve_loop prompt eager memory
      (hashing digests HashAlgorithm.crc32 2 (memory.content dest)) server_polls
      (ServerLoop.begin 2 4 (from block) (holding (0 ∷ 0 ∷ 0 ∷ [])) dest)

client_ran : Flow (Client Source Sink)
unfolding ClientLoop.select_loop ClientLoop.turn ClientLoop.poll_read ClientLoop.poll_write
    ClientLoop.on_read ClientLoop.on_write ClientLoop.on_hash ClientLoop.count_block
    ClientLoop.compare_block ClientLoop.prepare_next_write_block ClientLoop.pop_next
    ClientLoop.after_write_block is_empty is_some bytes_eq ReadString.read_on
    ReadString.after_header ReadString.start_payload ReadString.read_payload
    ReadString.after_payload fill fill_loop after_read resize write_at be_read from_utf8 is_utf8
    WriteBlock.write_to WriteBlock.prepare WriteBlock.write_steps WriteBlock.after_header
    WriteBlock.write_payload WriteBlock.header_loop WriteBlock.after_header_write
    WriteBlock.copy_within drain drain_loop after_write be_fill overwrite hash_data
client_ran = client_run

server_ran : Flow (Server Source Sink Memory)
unfolding ServerLoop.serve_loop ServerLoop.turn ServerLoop.poll_disk ServerLoop.poll_block
    ServerLoop.poll_hash ServerLoop.on_disk ServerLoop.on_block ServerLoop.after_seek
    ServerLoop.on_hash_written ServerLoop.on_hash is_some ReadBlock.read_on ReadBlock.after_header
    ReadBlock.start_payload ReadBlock.read_payload ReadBlock.after_payload
    ReadBlock.current_block_size fill fill_loop after_read resize write_at be_read be_fill
    WriteString.write_all WriteString.write_to WriteString.new drain drain_loop after_write
    overwrite hashing hash_data
server_ran = server_run

client_breaks : client_run ≡ breaks (left_with client_run)
unfolding client_ran
client_breaks = refl

server_breaks : server_run ≡ breaks (left_with server_run)
unfolding server_ran
server_breaks = refl

hashes_arrive :
    ◌≡◌ {A = List ℕ} (0 ∷ 0 ∷ 0 ∷ hashes) (eager.written (left_with server_run).client_tx)
unfolding server_ran
hashes_arrive = refl

blocks_arrive : asking ++ block ≡ eager.written (left_with client_run).stream_tx
unfolding client_ran
blocks_arrive = refl

server_idle :
    ((left_with server_run).resumable_write_hash ≡ none)
    × (prompt.unread (left_with server_run).client_rx ≡ [])
unfolding server_ran
server_idle = (refl, refl)

server_finishes :
    finish prompt eager memory
      (hashing digests HashAlgorithm.crc32 2 (memory.content dest))
      (left_with server_run)
    ≡ Result.ok (StatusCode.ack, (left_with server_run).file)
unfolding server_ran finish
server_finishes = refl

session_whole_example :
    (StatusCode.ack ≡ StatusCode.ack) × (memory.content (left_with server_run).file ≡ src)
session_whole_example =
    session_whole prompt eager prompt eager memory disk disk digests eager-IsOpen eager-unfailed
      eager-IsOpen eager-unfailed memory-IsOpen memory-unfailed options src (omega arith)
      (omega arith) (omega arith) (omega arith) hashes-proper client_files
      (from (0 ∷ 0 ∷ 0 ∷ hashes)) (from hashes) (holding []) (holding asking) 4 server_files
      prepared_files (from (asking ++ block)) (from block) (holding []) (holding (0 ∷ 0 ∷ []))
      (holding (0 ∷ 0 ∷ 0 ∷ [])) (request_of options 4) source greeted accepted prepared told dest
      (left_with server_run).file (left_with client_run) (left_with server_run) StatusCode.ack
      client_polls server_polls found no_collision client_breaks server_breaks refl refl
      hashes_arrive blocks_arrive server_idle.0 server_idle.1 server_finishes

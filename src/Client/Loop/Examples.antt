-- ===== src/Client/Loop/Examples.antt =====
-- A run of the event loop of src/client.rs.
use deltasync.Base.{ℕ, ◌≡◌, refl, List, [], ◌∷◌, arith, none}
use deltasync.Bytes.{String, be, be_fill, be_read, from_utf8, is_utf8}
use deltasync.Io.Scripted.{Source, Sink, prompt, eager, eager-IsOpen, eager-unfailed}
use deltasync.Common.Buffer.{resize, write_at}
use deltasync.Common.Fill.{fill, fill_loop, after_read}
use deltasync.Common.Drain.{drain, drain_loop, after_write}
use deltasync.Common.ReadString
use deltasync.Common.WriteBlock
use deltasync.HashFile.{FileBlockData}
use deltasync.Server.Request.{bytes_eq}
use deltasync.Client.Loop.{
  Client, pop_next, prepare_next_write_block, compare_block, count_block, on_hash, on_read,
  on_write, after_write_block, poll_read, poll_write, turn, select_loop, Branch, write_next_block,
  read_hash, next_hash, begin,
}
use deltasync.Select.{left_with, Flow, breaks, value, is_some, is_empty}
use deltasync.Client.Loop.Sending.{Sends, Changed, compare-Changed, due, queued}
use deltasync.Client.Loop.Hearing.{incoming}
use deltasync.Client.Loop.Invariant.{IsProper, Holds}
use deltasync.Client.Loop.Run.{select_loop-begin, select_loop-breaks}

-- Two blocks, of which the second one differs.
abbrev local : ℕ → FileBlockData
local k = record { hash = k ∷ []; bytes = 7 ∷ k ∷ [] }

abbrev remote : ℕ → String
remote k = 0 ∷ []

abbrev unsent : Sink
unsent = record { out = []; script = [] }

abbrev silence : Source
silence = record { raw = []; script = [] }

abbrev at_second : Client Source Sink
at_second = record (begin silence unsent) { block_idx = 1 }

at_second-Sends : Sends local remote [] 10 [] none [] 1
unfolding due queued bytes_eq
at_second-Sends = record { total = refl; valid = tt; idle = λ h. refl }

compare-Changed_example :
    Changed local remote [] 10 2 [] 2 at_second (compare_block 10 2 at_second (local 1) (remote 1))
compare-Changed_example = compare-Changed local remote [] 10 2 [] 1 at_second refl at_second-Sends

remote-IsProper : IsProper prompt eager local remote [] 10 2
unfolding is_utf8
remote-IsProper = λ j. (refl, omega arith)

abbrev hashes : Source
hashes = record {
  raw = 0 ∷ 0 ∷ 0 ∷ 0 ∷ 0 ∷ 0 ∷ 0 ∷ 1 ∷ 0 ∷ 0 ∷ 0 ∷ 0 ∷ 0 ∷ 0 ∷ 0 ∷ 0 ∷ 1 ∷ 0 ∷ [];
  script = [];
}

abbrev polls : List Branch
polls = read_hash ∷ read_hash ∷ next_hash ∷ next_hash ∷ write_next_block ∷ []

abbrev run : Flow (Client Source Sink)
run = select_loop prompt eager (λ k. value (local k)) 10 2 polls (begin hashes unsent)

ran : Flow (Client Source Sink)
unfolding select_loop turn poll_read poll_write on_read on_write on_hash count_block compare_block
    prepare_next_write_block pop_next after_write_block is_empty is_some bytes_eq ReadString.read_on
    ReadString.after_header ReadString.start_payload ReadString.read_payload
    ReadString.after_payload fill fill_loop after_read resize write_at be_read from_utf8 is_utf8
    WriteBlock.write_to WriteBlock.prepare WriteBlock.write_steps WriteBlock.after_header
    WriteBlock.write_payload WriteBlock.header_loop WriteBlock.after_header_write
    WriteBlock.copy_within drain drain_loop after_write be_fill
ran = run

ran_breaks : run ≡ breaks (left_with run)
unfolding ran
ran_breaks = refl

hashes_framed : ◌≡◌ {A = List ℕ} hashes.raw (incoming remote 0 2)
unfolding incoming be
hashes_framed = refl

select_loop-breaks_example : (left_with run).stream_tx.out ≡ due local remote [] 10 2
select_loop-breaks_example =
    select_loop-breaks prompt eager local remote [] 10 2 eager-IsOpen eager-unfailed remote-IsProper
      polls hashes unsent 2 (left_with run) (omega arith) hashes_framed refl ran_breaks

select_loop-begin_example : Holds prompt eager local remote [] 10 2 run
select_loop-begin_example =
    select_loop-begin prompt eager local remote [] 10 2 eager-IsOpen eager-unfailed remote-IsProper
      polls hashes unsent 2 (omega arith) hashes_framed refl

-- ===== src/Common/Examples.antt =====
-- The theorems about src/common.rs at concrete inputs, and runs of its functions on scripted streams.
use deltasync.Base.{sym, append-nil, ℕ, ◌≡◌, refl, List, [], ◌∷◌, ◌++◌, arith, true, map}
use deltasync.Bytes.{be, be_read, be_fill, is_utf8, from_utf8}
use deltasync.Io.{AsyncWrite, Poll, Outcome, Turn}
use deltasync.Io.Scripted.{
  Source, Sink, scripted, prompt, prompt-IsPrompt, byte, writer, writer-IsOpen, give, wait,
}
use deltasync.Common.Buffer.{write_at, resize}
use deltasync.Common.Fill.{fill_loop, fill, after_read}
use deltasync.Common.Frame.{frame}
use deltasync.Common.ReadString
use deltasync.Common.ReadString.Payload.{Follows}
use deltasync.Common.ReadString.Resume.{read_on-Follows}
use deltasync.Common.ReadString.Progress.{Delivers, read_again-Delivers}
use deltasync.Common.ReadString.Prompt.{read_on_prompt}
use deltasync.Common.Drain.{drain, drain_loop, after_write}
use deltasync.Common.WriteString
use deltasync.Common.WriteBlock
use deltasync.Common.ReadBlock
use deltasync.Common.ReadBlock.Progress.{IsBlock, DeliversBlock}
use deltasync.Common.Spin.{drain_loop_spins}
use deltasync.Common.Text.{read_string}
use deltasync.Common.ReadBlock.Payload.{FollowsBlock, block_frame}
use deltasync.Common.ReadBlock.Resume.{read_on-FollowsBlock}
use deltasync.Common.WriteBlock.Resume.{WroteBlock, write_again-WroteBlock}
use deltasync.Common.Reference.{Agrees, read_on-read_string}
use deltasync.Common.RoundTrip.{
  ReadBlock_new-IsValid, ReadString_new-IsValid, read_again-write_again, read_block-write_block,
}

-- "hi", then a byte that does not belong to it.
abbrev hi : List ℕ
hi = 0x68 ∷ 0x69 ∷ []

abbrev hi_wire : List ℕ
hi_wire = 0 ∷ 0 ∷ 0 ∷ 0 ∷ 0 ∷ 0 ∷ 0 ∷ 2 ∷ 0x68 ∷ 0x69 ∷ 7 ∷ []

-- The stream makes the caller wait within the header and within the payload.
abbrev slow : Source
slow = record { raw = hi_wire; script = give 2 ∷ wait ∷ give 4 ∷ give 0 ∷ give 0 ∷ wait ∷ [] }

read_slow : Turn ReadString.ReadString Source (List ℕ)
unfolding ReadString.read_again ReadString.read_on ReadString.after_header ReadString.start_payload
    ReadString.read_payload ReadString.after_payload fill fill_loop after_read resize write_at
    be_read from_utf8 is_utf8
read_slow = ReadString.read_again scripted 3 (ReadString.new 256) slow

read_slow_done : read_slow.outcome ≡ Outcome.done hi
unfolding read_slow
read_slow_done = refl

hi_framed : ◌≡◌ {A = List ℕ} hi_wire (frame hi ++ 7 ∷ [])
unfolding be
hi_framed = refl

hi_valid : is_utf8 hi ≡ true
unfolding is_utf8
hi_valid = refl

abbrev fresh : ReadString.ReadString
fresh = ReadString.new 256

fresh-IsValid : ReadString.Payload.IsValid fresh
fresh-IsValid = ReadString_new-IsValid 256 (omega arith)

read_again-Delivers_example :
    Delivers scripted 256 hi (7 ∷ []) (ReadString.read_again scripted 3 fresh slow)
read_again-Delivers_example =
    read_again-Delivers scripted 3 fresh slow hi (7 ∷ []) fresh-IsValid hi_framed hi_valid
      (omega arith)

read_on-Follows_example : Follows scripted fresh slow (ReadString.read_on scripted fresh slow)
read_on-Follows_example = read_on-Follows scripted fresh slow fresh-IsValid

read_on_prompt_example : (ReadString.read_on prompt fresh slow).outcome ≡ Outcome.done hi
read_on_prompt_example =
    (read_on_prompt prompt prompt-IsPrompt fresh slow hi (7 ∷ []) fresh-IsValid hi_framed hi_valid
      (omega arith)).0

read_on-read_string_example :
    Agrees prompt
      (read_string prompt 256 slow)
      (ReadString.read_on prompt fresh slow).outcome
      (ReadString.read_on prompt fresh slow).stream
read_on-read_string_example = read_on-read_string prompt prompt-IsPrompt 256 slow (omega arith)

-- The writer accepts a few bytes at a time, and makes the caller wait twice.
abbrev narrow : Sink
narrow = record { out = []; script = give 2 ∷ wait ∷ give 1 ∷ wait ∷ give 4 ∷ [] }

abbrev hi_write : Turn WriteString.WriteString Sink (Unit {0})
hi_write = WriteString.write_again writer 4 (WriteString.new hi) narrow

write_narrow : Turn WriteString.WriteString Sink (Unit {0})
unfolding WriteString.write_again WriteString.write_to WriteString.new drain drain_loop after_write
    be_fill
write_narrow = hi_write

hi_written : hi_write.outcome ≡ Outcome.done tt
unfolding write_narrow
hi_written = refl

hi_sent : ◌≡◌ {A = List ℕ} hi_wire (hi_write.stream.out ++ 7 ∷ [])
unfolding write_narrow
hi_sent = refl

read_again-write_again_example :
    Delivers scripted 256 hi (7 ∷ []) (ReadString.read_again scripted 3 fresh slow)
read_again-write_again_example =
    read_again-write_again writer scripted writer-IsOpen 4 3 hi narrow slow 256 (7 ∷ []) refl
      hi_written hi_sent hi_valid (omega arith) (omega arith)

-- The last block of a file of 93 bytes, in blocks of 10.
abbrev last_block : List ℕ
last_block = 1 ∷ 2 ∷ 3 ∷ []

abbrev block_write : Turn WriteBlock.WriteBlock Sink (Unit {0})
block_write = WriteBlock.write_again writer 4 (WriteBlock.new 90 last_block) narrow

write_block_narrow : Turn WriteBlock.WriteBlock Sink (Unit {0})
unfolding WriteBlock.write_again WriteBlock.write_to WriteBlock.prepare WriteBlock.write_steps
    WriteBlock.after_header WriteBlock.write_payload WriteBlock.header_loop
    WriteBlock.after_header_write WriteBlock.copy_within drain drain_loop after_write be_fill
write_block_narrow = block_write

block_written : block_write.outcome ≡ Outcome.done tt
unfolding write_block_narrow
block_written = refl

abbrev block_source : Source
block_source = record {
  raw = 0 ∷ 0 ∷ 0 ∷ 0 ∷ 0 ∷ 0 ∷ 0 ∷ 90 ∷ 1 ∷ 2 ∷ 3 ∷ 5 ∷ [];
  script = give 2 ∷ wait ∷ give 6 ∷ wait ∷ [];
}

block_sent : ◌≡◌ {A = List ℕ} (map byte block_source.raw) (block_write.stream.out ++ 5 ∷ [])
unfolding write_block_narrow
block_sent = refl

last_block-IsBlock : IsBlock (ReadBlock.new 10 93) 90 last_block
last_block-IsBlock = (omega arith, unfold ReadBlock.current_block_size in refl)

read_block-write_block_example :
    DeliversBlock scripted
      (ReadBlock.new 10 93)
      90
      last_block
      (5 ∷ [])
      (ReadBlock.read_again scripted 3 (ReadBlock.new 10 93) (9 ∷ []) block_source)
read_block-write_block_example =
    read_block-write_block writer scripted writer-IsOpen 4 3 90 last_block narrow block_source 10 93
      (9 ∷ []) (5 ∷ []) refl block_written block_sent last_block-IsBlock

-- A writer that accepts nothing.
abbrev dead : AsyncWrite
dead = record writer {
  write = λ bs s. (Poll.ready 0, s);
  write_takes = λ bs s. sym (append-nil s.out);
  write_fits = λ bs s. omega arith;
}

drain_loop_spins_example :
    (drain_loop dead 1000 0 hi (record { out = []; script = [] })).outcome ≡ Outcome.stuck
drain_loop_spins_example =
    drain_loop_spins dead 1000 0 hi (record { out = []; script = [] }) refl (omega arith)

read_on-FollowsBlock_example :
    FollowsBlock scripted
      (ReadBlock.new 10 93)
      (9 ∷ [])
      block_source
      (ReadBlock.read_on scripted (ReadBlock.new 10 93) (9 ∷ []) block_source)
read_on-FollowsBlock_example =
    read_on-FollowsBlock scripted (ReadBlock.new 10 93) (9 ∷ []) block_source
      (ReadBlock_new-IsValid 10 93 (9 ∷ []))

write_again-WroteBlock_example :
    WroteBlock writer
      (block_frame 90 last_block)
      block_write.outcome
      block_write.self
      block_write.stream
write_again-WroteBlock_example =
    write_again-WroteBlock writer writer-IsOpen 4 (WriteBlock.new 90 last_block) narrow
      (block_frame 90 last_block) (WriteBlock.Resume.new-IsValid 90 last_block) refl

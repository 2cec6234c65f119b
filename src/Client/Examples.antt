-- ===== src/Client/Examples.antt =====
-- The theorems about src/client.rs at concrete inputs.
use deltasync.Base.{
  ℕ, ◌≡◌, ◌⊎◌, ◌<◌, refl, List, [], ◌∷◌, ◌++◌, arith, true, map, replicate, none, some,
  if◌then◌else◌,
}
use deltasync.Bytes.{be, from_utf8, is_utf8}
use deltasync.Io.{Error, Result}
use deltasync.Io.Scripted.{Source, Sink, scripted, byte, writer}
use deltasync.Common.Status.{check_status, report, try_from}
use deltasync.Common.Text.{write_string}
use deltasync.FileSystem.Disk.{disk, Files}
use deltasync.HashAlgorithm.{HashAlgorithm}
use deltasync.Server.Request.{pass, fail, accept, bytes_eq}
use deltasync.Server.Request.Secret.{hello, request_bytes}
use deltasync.Client.Request.{
  ClientProcessOptions, greet, send_secret, send_version, send_request, send_options, try_into,
  not_empty, flag_of,
}
use deltasync.Client.Steps.{request_of}
use deltasync.Client.Greeting.{greet_sent, IsAsked}
use deltasync.Client.Agreement.{accept-greet}

-- The file "a" of three bytes, to "hi", in blocks of 10 bytes.
abbrev options : ClientProcessOptions
options = record {
  secret = 0x6b ∷ 0x65 ∷ 0x79 ∷ [];
  src_path = 0x61 ∷ [];
  dest = 0x68 ∷ 0x69 ∷ [];
  force_truncate = true;
  workers = 2;
  block_size = 10;
  hash_algorithm = HashAlgorithm.md5;
}

abbrev files : Files
files p = if bytes_eq p options.src_path then some (7 ∷ 8 ∷ 9 ∷ []) else none

-- Three acknowledgements.
abbrev acks : Source
acks = record { raw = 0 ∷ 0 ∷ 0 ∷ []; script = [] }

abbrev silence : Source
silence = record { raw = []; script = [] }

abbrev unsent : Sink
unsent = record { out = []; script = [] }

greeting : Result (ℕ × Source × Sink)
unfolding greet send_secret send_version send_request send_options try_into not_empty flag_of
    check_status report try_from write_string from_utf8 is_utf8 be bytes_eq
greeting = greet scripted writer disk options files acks unsent

abbrev zeros : List ℕ
zeros = replicate 7 0

abbrev wire : List ℕ
wire = 3 ∷ 0x6b ∷ 0x65 ∷ 0x79 ∷ 1 ∷ zeros ++ 2 ∷ 0x68 ∷ 0x69 ∷ zeros ++ 10 ∷ zeros ++ 3 ∷ 1 ∷ 2 ∷ []

abbrev sent : Sink
sent = record { out = wire; script = [] }

greeting_passes :
    greet scripted writer disk options files acks unsent ≡ Result.ok (3, silence, sent)
unfolding greeting
greeting_passes = refl

greet_sent_example :
    (3 < 256)
    × IsAsked scripted writer disk options files 3
    × (◌≡◌ {A = List ℕ} (0 ∷ 0 ∷ 0 ∷ []) (0 ∷ 0 ∷ 0 ∷ []))
    × (wire
        ≡ [] ++ (hello options.secret ++ 1 ∷ request_bytes (request_of options 3) (flag_of true)))
greet_sent_example =
    greet_sent scripted writer disk options files acks unsent 3 silence sent greeting_passes

abbrev arriving : Source
arriving = record { raw = wire; script = [] }

accept-greet_example :
    (accept scripted writer options.secret arriving unsent ≡ fail Error.io)
    ⊎ ((src' : Source) × (sink' : Sink) × (accept scripted writer options.secret arriving unsent
          ≡ pass (request_of options 3, src', sink'))
        × (◌≡◌ {A = List ℕ} (map byte src'.raw) []))
accept-greet_example =
    accept-greet scripted writer disk scripted writer options files acks unsent 3 silence sent
      arriving unsent [] greeting_passes refl refl (omega arith) (omega arith) (omega arith)
      (omega arith)

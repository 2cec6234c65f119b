-- ===== src/Server/Examples.antt =====
-- The theorems about src/server.rs at concrete inputs.
use deltasync.Base.{
  suc, some_injective, get_elem?, ap, ℕ, ◌≡◌, ◌≢◌, if◌then◌else◌, ◌⊎◌, refl, List, [], ◌∷◌, ◌++◌,
  arith, true, map, replicate, none, some,
}
use deltasync.Bytes.{be, be_read, is_utf8, from_utf8, String}
use deltasync.Io.{Error}
use deltasync.Io.Scripted.{Source, Sink, scripted, byte, writer}
use deltasync.Common.Buffer.{resize}
use deltasync.Common.Status.{StatusCode, write_status}
use deltasync.Common.Text.{read_string, read_body}
use deltasync.FileSystem.Disk.{disk, put, Files}
use deltasync.HashAlgorithm
use deltasync.HashAlgorithm.{HashAlgorithm}
use deltasync.Server.Request.{
  Request, Gate, pass, refuse, fail, accept, check_secret, check_version, read_request,
  read_options, bytes_eq,
}
use deltasync.Server.Request.Secret.{hello, request_bytes}
use deltasync.Server.Request.Sound.{accept_sound, IsRequest}
use deltasync.Server.Request.Complete.{accept_complete, accept_wrong_secret, IsProper}
use deltasync.Server.Dest.{prepare_dest, by_metadata, resize_dest, Prepares, prepare_dest-Prepares}

-- The path "hi", blocks of 10 bytes, 93 bytes, `--truncate`, MD5.
abbrev wanted : Request
wanted = record {
  dest_path = 0x68 ∷ 0x69 ∷ [];
  block_size = 10;
  filesize = 93;
  force_truncate = true;
  hash_algorithm = HashAlgorithm.md5;
}

abbrev secret : String
secret = 0x6b ∷ 0x65 ∷ 0x79 ∷ []

abbrev zeros : List ℕ
zeros = replicate 7 0

abbrev asked : List ℕ
asked = 3 ∷ secret ++ 1 ∷ zeros ++ 2 ∷ 0x68 ∷ 0x69 ∷ zeros ++ 10 ∷ zeros ++ 93 ∷ 1 ∷ 2 ∷ 8 ∷ []

abbrev asking : Source
asking = record { raw = asked; script = [] }

abbrev nothing_sent : Sink
nothing_sent = record { out = []; script = [] }

handshake : Gate (Request × Source × Sink)
unfolding accept check_secret check_version read_request read_options bytes_eq read_string read_body
    from_utf8 is_utf8 be_read write_status HashAlgorithm.try_from
handshake = accept scripted writer secret asking nothing_sent

asked_framed :
    ◌≡◌ {A = List ℕ} (map byte asked) (hello secret ++ 1 ∷ request_bytes wanted 1 ++ 8 ∷ [])
unfolding be
asked_framed = refl

wanted-IsProper : IsProper wanted
unfolding is_utf8
wanted-IsProper = (omega arith, omega arith, omega arith, omega arith, refl)

abbrev after_asking : Source
after_asking = record { raw = 8 ∷ []; script = [] }

abbrev acknowledged : Sink
acknowledged = record { out = 0 ∷ 0 ∷ []; script = [] }

handshake_passes :
    accept scripted writer secret asking nothing_sent ≡ pass (wanted, after_asking, acknowledged)
unfolding handshake
handshake_passes = refl

accept-sound_example :
    (io2 : Source) × (◌≡◌ {A = List ℕ} (map byte asked) (hello secret ++ 1 ∷ map byte io2.raw))
    × IsRequest scripted writer io2 wanted after_asking
    × (◌≡◌ {A = List ℕ} (0 ∷ 0 ∷ []) ([] ++ (0 ∷ 0 ∷ [])))
accept-sound_example =
    accept_sound scripted writer secret asking nothing_sent wanted after_asking acknowledged
      handshake_passes

accept-complete_example :
    (accept scripted writer secret asking nothing_sent ≡ fail Error.io)
    ⊎ ((io' : Source) × (out' : Sink) × (accept scripted writer secret asking nothing_sent
          ≡ pass (wanted, io', out'))
        × (map byte io'.raw ≡ 8 ∷ []))
accept-complete_example =
    accept_complete scripted writer secret asking nothing_sent wanted 1 (8 ∷ []) (omega arith)
      wanted-IsProper refl asked_framed

abbrev guess : String
guess = 0x6b ∷ 0x65 ∷ 0x78 ∷ []

abbrev guessing : Source
guessing = record { raw = 3 ∷ guess ++ 1 ∷ []; script = [] }

far : (a b : ℕ) → suc a ≡ b → a ≢ b
far a b h e = omega (arith, h, e)

guess-wrong : guess ≢ secret
guess-wrong = λ e. far 0x78 0x79 refl (some_injective (ap (λ (s : String). get_elem? s 2) e))

accept_wrong_secret_example :
    (accept scripted writer secret guessing nothing_sent ≡ fail Error.io)
    ⊎ (accept scripted writer secret guessing nothing_sent ≡ refuse StatusCode.invalid_secret)
accept_wrong_secret_example =
    accept_wrong_secret scripted writer secret guess guessing nothing_sent (1 ∷ []) (omega arith)
      (omega arith) guess-wrong refl

-- The destination exists with two bytes.
abbrev old_files : Files
old_files p = if bytes_eq p wanted.dest_path then some (5 ∷ 6 ∷ []) else none

abbrev new_files : Files
new_files = put wanted.dest_path (resize 93 (5 ∷ 6 ∷ [])) old_files

prepared : prepare_dest disk wanted old_files ≡ pass new_files
unfolding prepare_dest by_metadata resize_dest bytes_eq
prepared = refl

prepare_dest-Prepares_example : Prepares disk wanted old_files new_files
prepare_dest-Prepares_example = prepare_dest-Prepares disk wanted old_files new_files prepared

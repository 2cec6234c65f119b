-- ===== src/Client/Request.antt =====
-- The first half of `new_process` of src/client.rs: what the client sends before the blocks are
-- compared.
use deltasync.Base.{ℕ, ◌^◌, Bool, Option, none, some, length, ltb, ◌==◌, if◌then◌else◌}
use deltasync.Bytes.{String, from_utf8}
use deltasync.FileSystem.{FileSystem}
use deltasync.HashAlgorithm
use deltasync.HashAlgorithm.{HashAlgorithm}
use deltasync.Io.{AsyncRead, AsyncWrite, Error, Result, ◌>>=◌, or_io}
use deltasync.Common.Status.{check_status}
use deltasync.Common.Text.{write_string}
use deltasync.Server.Request.{protocol_version}

-- `ClientProcessOptions`, without the address, which is connected to before. A path is its bytes.
pub record ClientProcessOptions : Type 0 where
  pub secret : String
  pub src_path : String
  pub dest : String
  pub force_truncate : Bool
  pub workers : ℕ
  pub block_size : ℕ
  pub hash_algorithm : HashAlgorithm

-- `to_str().ok_or(…)?`
abbrev pub or_path : Option String → Result String
or_path none = Result.err Error.invalid_path
or_path (some s) = Result.ok s

-- `try_into()?` into a word with fewer values than `limit`.
unfoldable pub try_into : ℕ → ℕ → Result ℕ
try_into limit n = if ltb n limit then Result.ok n else Result.err Error.does_not_fit

unfoldable pub not_empty : ℕ → Result ℕ
not_empty src_size = if src_size == 0 then Result.err Error.empty_source else Result.ok src_size

unfoldable pub flag_of : Bool → ℕ
flag_of force = if force then 1 else 0

module _ (r : AsyncRead) (w : AsyncWrite) (sys : FileSystem) where
  open r use {Source}
  open w use {Sink, write_u8, write_u64, write_all}
  open sys use {Fs, file_size, rewind}

  unfoldable pub send_secret : String → Source → Sink → Result (Source × Sink)
  send_secret secret io out = do
    secret_len ← try_into 256 (length secret)
    out1 ← or_io (write_u8 secret_len out)
    out2 ← or_io (write_all secret out1)
    io1 ← check_status r io
    Result.ok (io1, out2)

  unfoldable pub send_version : Source → Sink → Result (Source × Sink)
  send_version io out = do
    out1 ← or_io (write_u8 protocol_version out)
    io1 ← check_status r io
    Result.ok (io1, out1)

  -- The sizes, the flag and the algorithm.
  unfoldable pub send_options : ClientProcessOptions → ℕ → Sink → Result Sink
  send_options options src_size out = do
    block_size ← try_into (2 ^ 64) options.block_size
    out1 ← or_io (write_u64 block_size out)
    out2 ← or_io (write_u64 src_size out1)
    out3 ← or_io (write_u8 (flag_of options.force_truncate) out2)
    or_io (write_u8 (HashAlgorithm.to_u8 options.hash_algorithm) out3)

  -- The path, and behind the size of the source the rest.
  unfoldable pub send_request : ClientProcessOptions → Fs → Sink → Result (ℕ × Sink)
  send_request options fs out = do
    dest ← or_path (from_utf8 options.dest)
    out1 ← write_string w dest out
    size ← or_io (file_size options.src_path fs)
    src_size ← not_empty size
    rewound ← or_io (rewind options.src_path fs)
    out2 ← send_options options src_size out1
    Result.ok (src_size, out2)

  -- All of it; the size of the source is what the rest of `new_process` goes on with.
  unfoldable pub greet : ClientProcessOptions → Fs → Source → Sink → Result (ℕ × Source × Sink)
  greet options fs io out = do
    (io1, out1) ← send_secret options.secret io out
    (io2, out2) ← send_version io1 out1
    (src_size, out3) ← send_request options fs out2
    io3 ← check_status r io2
    Result.ok (src_size, io3, out3)

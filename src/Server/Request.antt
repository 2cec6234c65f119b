-- ===== src/Server/Request.antt =====
-- The first half of `process_new_client` of src/server.rs: what the client is asked for before the
-- destination file is touched.
pub mod Secret
pub mod Sound
pub mod Complete
use deltasync.Base.{
  ℕ, suc, ◌+◌, ◌*◌, ◌%◌, ◌^◌, ◌≤◌, ◌<◌, ◌≡◌, List, [], ◌∷◌, Bool, true, false, not, ◌&&◌, ◌||◌,
  Option, none, some, length, ltb, ◌==◌, if◌then◌else◌,
}
use deltasync.Bytes.{String}
use deltasync.HashAlgorithm
use deltasync.HashAlgorithm.{HashAlgorithm}
use deltasync.Io.{AsyncRead, AsyncWrite, Error, Result}
use deltasync.Common.Status.{StatusCode, write_status}
use deltasync.Common.Text.{read_string}

abbrev pub protocol_version : ℕ
protocol_version = 1

abbrev pub max_block_size : ℕ
max_block_size = 1024 * 1024 * 1024

-- What the client asks for.
pub record Request : Type 0 where
  pub dest_path : String
  pub block_size : ℕ
  pub filesize : ℕ
  pub force_truncate : Bool
  pub hash_algorithm : HashAlgorithm

-- `process_new_client` goes on, returns `Ok(status)` early, which `main` then sends, or fails.
pub data Gate {ℓ} (A : Type ℓ) : Type ℓ where
  pass : A → Gate A
  refuse : StatusCode → Gate A
  fail : Error → Gate A

infixl 5 ◌>>=◌
abbrev pub ◌>>=◌ {ℓ κ} : {A : Type ℓ} {B : Type κ} → Gate A → (A → Gate B) → Gate B
pass a >>= f = f a
refuse s >>= f = refuse s
fail e >>= f = fail e

-- `?` on a call of tokio, and on a function of the program.
abbrev pub or_fail {ℓ} : {A : Type ℓ} → Option A → Gate A
or_fail none = fail Error.io
or_fail (some a) = pass a

abbrev pub question {ℓ} : {A : Type ℓ} → Result A → Gate A
question (Result.err e) = fail e
question (Result.ok a) = pass a

abbrev pub or_refuse {ℓ} : {A : Type ℓ} → StatusCode → Option A → Gate A
or_refuse c none = refuse c
or_refuse c (some a) = pass a

-- `if test { return Ok(status); }`
abbrev pub unless {ℓ} : {A : Type ℓ} → Bool → StatusCode → Gate A → Gate A
unless test status rest = if test then refuse status else rest

-- `==` on byte slices.
unfoldable pub bytes_eq : List ℕ → List ℕ → Bool
bytes_eq [] [] = true
bytes_eq [] (y ∷ ys) = false
bytes_eq (x ∷ xs) [] = false
bytes_eq (x ∷ xs) (y ∷ ys) = x == y && bytes_eq xs ys

module _ (r : AsyncRead) (w : AsyncWrite) where
  open r use {Source, read_u8, read_u64, read_exact}
  open w use {Sink}

  -- The secret: its length as a `u8`, then its bytes.
  unfoldable pub check_secret : String → Source → Sink → Gate (Source × Sink)
  check_secret secret io out = do
    (secret_len, io1) ← or_fail (read_u8 io)
    unless (not (secret_len == length secret % 256)) StatusCode.invalid_secret (do
      (client_secret, io2) ← or_fail (read_exact secret_len io1)
      unless (not (bytes_eq client_secret secret)) StatusCode.invalid_secret
          (do out1 ← or_fail (write_status w StatusCode.ack out); pass (io2, out1)))

  unfoldable pub check_version : Source → Sink → Gate (Source × Sink)
  check_version io out = do
    (client_protocol_version, io1) ← or_fail (read_u8 io)
    unless (not (client_protocol_version == protocol_version))
        StatusCode.unsupported_protocol_version
        (do out1 ← or_fail (write_status w StatusCode.ack out); pass (io1, out1))

  -- The flag and the algorithm, behind the sizes.
  unfoldable pub read_options : String → ℕ → ℕ → Source → Gate (Request × Source)
  read_options dest_path block_size filesize io = do
    (flag, io1) ← or_fail (read_u8 io)
    (code, io2) ← or_fail (read_u8 io1)
    hash_algorithm ← or_refuse StatusCode.unknown_hash_algorithm (HashAlgorithm.try_from code)
    let request : Request = record {
      dest_path = dest_path;
      block_size = block_size;
      filesize = filesize;
      force_truncate = not (flag == 0);
      hash_algorithm = hash_algorithm;
    }
    pass (request, io2)

  unfoldable pub read_request : Source → Gate (Request × Source)
  read_request io = do
    (dest_path, io1) ← question (read_string r 4096 io)
    (block_size, io2) ← or_fail (read_u64 io1)
    unless (block_size == 0 || ltb max_block_size block_size) StatusCode.invalid_block_size (do
      (filesize, io3) ← or_fail (read_u64 io2)
      read_options dest_path block_size filesize io3)

  -- All of it, in the order of the code.
  unfoldable pub accept : String → Source → Sink → Gate (Request × Source × Sink)
  accept secret io out = do
    (io1, out1) ← check_secret secret io out
    (io2, out2) ← check_version io1 out1
    (request, io3) ← read_request io2
    pass (request, io3, out2)

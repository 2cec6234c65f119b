-- ===== src/Common/Status.antt =====
-- `StatusCode`, `write_status` and `check_status` of src/common.rs.
use deltasync.Base.{
  ℕ, ◌≤◌, ◌≡◌, refl, List, ◌∷◌, ◌⊎◌, inl, inr, arith, Option, none, some, ◌==◌, if◌then◌else◌,
  Option-cases,
}
use deltasync.Io.{AsyncRead, AsyncWrite, Error, Result, ◌>>=◌, or_io}

pub data StatusCode : Type 0 where
  ack invalid_secret file_size_differs permission_denied client_already_connected : StatusCode
  unknown_hash_algorithm unsupported_protocol_version invalid_block_size : StatusCode

-- The derived conversions, `u8::from` and `StatusCode::try_from`.
abbrev pub to_u8 : StatusCode → ℕ
to_u8 StatusCode.ack = 0
to_u8 StatusCode.invalid_secret = 1
to_u8 StatusCode.file_size_differs = 2
to_u8 StatusCode.permission_denied = 3
to_u8 StatusCode.client_already_connected = 4
to_u8 StatusCode.unknown_hash_algorithm = 5
to_u8 StatusCode.unsupported_protocol_version = 6
to_u8 StatusCode.invalid_block_size = 7

unfoldable pub try_from : ℕ → Option StatusCode
try_from n =
    if n == 0
    then some StatusCode.ack
    else if n == 1
    then some StatusCode.invalid_secret
    else if n == 2
    then some StatusCode.file_size_differs
    else if n == 3
    then some StatusCode.permission_denied
    else if n == 4
    then some StatusCode.client_already_connected
    else if n == 5
    then some StatusCode.unknown_hash_algorithm
    else if n == 6
    then some StatusCode.unsupported_protocol_version
    else if n == 7
    then some StatusCode.invalid_block_size
    else none

-- The `match` of `check_status`.
unfoldable pub report : {A : Type 0} → StatusCode → A → Result A
report StatusCode.ack a = Result.ok a
report StatusCode.invalid_secret a = Result.err Error.invalid_secret
report StatusCode.file_size_differs a = Result.err Error.file_size_differs
report StatusCode.permission_denied a = Result.err Error.permission_denied
report StatusCode.client_already_connected a = Result.err Error.client_already_connected
report StatusCode.unknown_hash_algorithm a = Result.err Error.unknown_hash_algorithm
report StatusCode.unsupported_protocol_version a = Result.err Error.protocol_version_mismatch
report StatusCode.invalid_block_size a = Result.err Error.invalid_block_size

pub try_from-to_u8 : (c : StatusCode) → try_from (to_u8 c) ≡ some c
unfolding try_from
try_from-to_u8 StatusCode.ack = refl
try_from-to_u8 _ = refl

pub try_from_unknown : (b : ℕ) → 8 ≤ b → try_from b ≡ none
unfolding try_from
try_from_unknown b h = ground arith

abbrev pub known : Option StatusCode → Result StatusCode
known none = Result.err Error.unknown_status
known (some c) = Result.ok c

module _ (w : AsyncWrite) where
  open w use {Sink, written, write_u8, write_u8_lem}

  unfoldable pub write_status : StatusCode → Sink → Option Sink
  write_status status io = write_u8 (to_u8 status) io

module _ (r : AsyncRead) where
  open r use {Source, unread, read_u8, read_u8_takes}

  unfoldable pub check_status : Source → Result Source
  check_status io = do
    (b, rest) ← or_io (read_u8 io)
    status ← known (try_from b)
    report status rest

  -- `check_status` takes one byte of the stream; where it is the code of a status, it answers what
  -- the table gives for that status, which is `Ok` for `Ack` alone, unless the stream fails.
  check_status-report :
      (c : StatusCode) (io : Source) (rest : List ℕ)
      → unread io ≡ to_u8 c ∷ rest
      → (check_status io ≡ Result.err Error.io)
        ⊎ ((s : Source) × (unread s ≡ rest) × (check_status io ≡ report c s))
  unfolding check_status
  check_status-report c io rest e = elim (Option-cases (read_u8 io)) [
    | inl failed ↦ inl (rw failed)
    | inr ((b, s), read) ↦
        let sent = read_u8_takes io b s read in
        let same : b ≡ to_u8 c = cc in inr (s, cc, rw (read, same, try_from-to_u8 c))
  ]

  -- `check_status` answers an error for every byte that is the code of no status.
  check_status_unknown :
      (b : ℕ) (io : Source) (rest : List ℕ)
      → unread io ≡ b ∷ rest
      → 8 ≤ b
      → (check_status io ≡ Result.err Error.io)
        ⊎ (check_status io ≡ Result.err Error.unknown_status)
  unfolding check_status
  check_status_unknown b io rest e h = elim (Option-cases (read_u8 io)) [
    | inl failed ↦ inl (rw failed)
    | inr ((b', s), read) ↦
        let sent = read_u8_takes io b' s read in
        let same : b' ≡ b = cc in inr (rw (read, same, try_from_unknown b h))
  ]

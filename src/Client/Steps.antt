-- ===== src/Client/Steps.antt =====
-- The first steps of the handshake of src/client.rs, and the tests within it.
use deltasync.Base.{
  ℕ, ◌<◌, ◌≡◌, refl, List, [], ◌∷◌, ◌++◌, append_assoc, Bool, true, false, some, length, ltb,
  ltb→lt, ◌==◌, arith, inl, inr, Option-cases, Bool-cases,
}
use deltasync.Bytes.{String}
use deltasync.FileSystem.{FileSystem}
use deltasync.Io.{AsyncRead, AsyncWrite, Result}
use deltasync.Common.Status.{StatusCode, check_status, try_from, report}
use deltasync.Server.Request.{Request, protocol_version}
use deltasync.Server.Request.Secret.{Result-cases, IsFlag}
use deltasync.Client.Request.{
  ClientProcessOptions, try_into, not_empty, flag_of, send_secret, send_version,
}

-- The request that the options and the size of the source make.
abbrev pub request_of : ClientProcessOptions → ℕ → Request
request_of options src_size = record {
  dest_path = options.dest;
  block_size = options.block_size;
  filesize = src_size;
  force_truncate = options.force_truncate;
  hash_algorithm = options.hash_algorithm;
}

pub flag_of-IsFlag : (force : Bool) → IsFlag (flag_of force) force
unfolding flag_of
flag_of-IsFlag true = refl
flag_of-IsFlag false = refl

pub try_into-ok : (limit n m : ℕ) → try_into limit n ≡ Result.ok m → (n ≡ m) × (n < limit)
unfolding try_into
try_into-ok limit n m h = elim (Bool-cases (ltb n limit)) [
  | inl e ↦ let h' = rw e at h in (cc h', ltb→lt n limit e)
  | inr e ↦ cc (rw e at h)
]

pub not_empty-ok : (n m : ℕ) → not_empty n ≡ Result.ok m → (n ≡ m) × (0 < n)
unfolding not_empty
not_empty-ok n m h = elim (Bool-cases (n == 0)) [
  | inl e ↦ cc (rw e at h)
  | inr e ↦ let h' = rw e at h in (cc h', ground (arith, e))
]

pub four_parts :
    (a b c : List ℕ) (x y : ℕ)
    → (((a ++ b) ++ c) ++ (x ∷ [])) ++ (y ∷ []) ≡ a ++ (b ++ (c ++ x ∷ y ∷ []))
four_parts a b c x y = simp append_assoc

pub all_parts :
    (a b c : List ℕ) (x y : ℕ) → (((a ++ (x ∷ [])) ++ b) ++ (y ∷ [])) ++ c ≡ a ++ (x ∷ b ++ y ∷ c)
all_parts a b c x y = simp append_assoc

ack_of : (b : ℕ) → try_from b ≡ some StatusCode.ack → b ≡ 0
unfolding try_from
ack_of b h = ground arith

module _ (r : AsyncRead) (w : AsyncWrite) (sys : FileSystem) where
  open r use {Source, unread, read_u8, read_u64, read_exact, read_u8_takes}
  open w use {
    Sink, written, write_u8, write_u64, write_all, write_u8_lem, write_u64_lem, write_all_lem,
  }
  open sys use {Fs, contents, file_size, file_size_lem}

  -- `check_status` is `Ok` for `Ack` only.
  reported :
      (b : ℕ) (c : StatusCode) (s s' : Source)
      → try_from b ≡ some c
      → report c s ≡ Result.ok s'
      → (b ≡ 0) × (s ≡ s')
  unfolding report
  reported b StatusCode.ack s s' e h = (ack_of b e, cc h)
  reported b StatusCode.invalid_secret s s' e h = absurd cc
  reported b StatusCode.file_size_differs s s' e h = absurd cc
  reported b StatusCode.permission_denied s s' e h = absurd cc
  reported b StatusCode.client_already_connected s s' e h = absurd cc
  reported b StatusCode.unknown_hash_algorithm s s' e h = absurd cc
  reported b StatusCode.unsupported_protocol_version s s' e h = absurd cc
  reported b StatusCode.invalid_block_size s s' e h = absurd cc

  pub check_status-ok :
      (io io' : Source) → check_status r io ≡ Result.ok io' → unread io ≡ 0 ∷ unread io'
  unfolding check_status
  check_status-ok io io' h = elim (Option-cases (read_u8 io)) [
    | inl failed ↦ cc (rw failed at h)
    | inr ((b, s), read) ↦ elim (Option-cases (try_from b)) [
      | inl none_such ↦ cc (rw (read, none_such) at h)
      | inr (c, is) ↦
          let (zero_byte, same) = reported b c s io' is (rw (read, is) at h) in
          rw (read_u8_takes io b s read, zero_byte, same) refl
    ]
  ]

  pub send_secret_sent :
      (secret : String) (io : Source) (out : Sink) (io' : Source) (out' : Sink)
      → send_secret r w sys secret io out ≡ Result.ok (io', out')
      → (length secret < 256)
        × (unread io ≡ 0 ∷ unread io')
        × (written out' ≡ (written out ++ (length secret ∷ [])) ++ secret)
  unfolding send_secret
  send_secret_sent secret io out io' out' h = elim (Result-cases (try_into 256 (length secret))) [
    | inl (e, failed) ↦ cc (rw failed at h)
    | inr (n, fits) ↦ elim (Option-cases (write_u8 n out)) [
      | inl failed ↦ cc (rw (fits, failed) at h)
      | inr (out1, one) ↦ elim (Option-cases (write_all secret out1)) [
        | inl failed ↦ cc (rw (fits, one, failed) at h)
        | inr (out2, two) ↦ elim (Result-cases (check_status r io)) [
          | inl (e, failed) ↦ cc (rw (fits, one, two, failed) at h)
          | inr (io1, ack) ↦
              let h' = rw (fits, one, two, ack) at h in
              let same : out2 ≡ out' = cc h' in
              let same_io : io1 ≡ io' = cc h' in
              let (size, small) = try_into-ok 256 (length secret) n fits in
              (
                small,
                rw (← same_io) (check_status-ok io io1 ack),
                rw (← same, write_all_lem secret out1 out2 two, write_u8_lem n out out1 one, ← size)
                    refl,
              )
        ]
      ]
    ]
  ]

  pub send_version_sent :
      (io : Source) (out : Sink) (io' : Source) (out' : Sink)
      → send_version r w sys io out ≡ Result.ok (io', out')
      → (unread io ≡ 0 ∷ unread io') × (written out' ≡ written out ++ (protocol_version ∷ []))
  unfolding send_version
  send_version_sent io out io' out' h = elim (Option-cases (write_u8 protocol_version out)) [
    | inl failed ↦ cc (rw failed at h)
    | inr (out1, one) ↦ elim (Result-cases (check_status r io)) [
      | inl (e, failed) ↦ cc (rw (one, failed) at h)
      | inr (io1, ack) ↦
          let h' = rw (one, ack) at h in
          let same : out1 ≡ out' = cc h' in
          let same_io : io1 ≡ io' = cc h' in
          (
            rw (← same_io) (check_status-ok io io1 ack),
            rw (← same) (write_u8_lem protocol_version out out1 one),
          )
    ]
  ]

-- ===== src/Client/Greeting.antt =====
-- What the client of src/client.rs has sent where its handshake succeeds.
use deltasync.Base.{
  ℕ, ◌^◌, ◌<◌, ◌≡◌, refl, List, [], ◌∷◌, ◌++◌, append_assoc, true, some, length, inl, inr,
  Option-cases,
}
use deltasync.Bytes.{be, from_utf8, is_utf8, from_utf8-eq-some}
use deltasync.FileSystem.{FileSystem}
use deltasync.HashAlgorithm
use deltasync.HashAlgorithm.{HashAlgorithm}
use deltasync.Io.{AsyncRead, AsyncWrite, Result}
use deltasync.Common.Frame.{frame}
use deltasync.Common.Status.{check_status}
use deltasync.Common.Text.{write_string, write_string-frame}
use deltasync.Server.Request.{protocol_version}
use deltasync.Server.Request.Secret.{Result-cases, hello, request_bytes}
use deltasync.Client.Request.{
  ClientProcessOptions, try_into, not_empty, flag_of, send_secret, send_version, send_options,
  send_request, greet,
}
use deltasync.Client.Steps.{
  request_of, try_into-ok, not_empty-ok, four_parts, all_parts, check_status-ok, send_secret_sent,
  send_version_sent,
}

module _ (r : AsyncRead) (w : AsyncWrite) (sys : FileSystem) where
  open r use {Source, unread, read_u8, read_u64, read_exact, read_u8_takes}
  open w use {
    Sink, written, write_u8, write_u64, write_all, write_u8_lem, write_u64_lem, write_all_lem,
  }
  open sys use {Fs, contents, file_size, file_size_lem, rewind}

  send_options_sent :
      (options : ClientProcessOptions) (src_size : ℕ) (out out' : Sink)
      → send_options r w sys options src_size out ≡ Result.ok out'
      → written out'
        ≡ written out
          ++ (be 8 options.block_size
              ++ (be 8 src_size
                  ++ flag_of options.force_truncate
                    ∷ HashAlgorithm.to_u8 options.hash_algorithm
                    ∷ []))
  unfolding send_options
  send_options_sent options src_size out out' h =
      elim (Result-cases (try_into (2 ^ 64) options.block_size)) [
        | inl (e, failed) ↦ cc (rw failed at h)
        | inr (b, fits) ↦ elim (Option-cases (write_u64 b out)) [
          | inl failed ↦ cc (rw (fits, failed) at h)
          | inr (out1, one) ↦ elim (Option-cases (write_u64 src_size out1)) [
            | inl failed ↦ cc (rw (fits, one, failed) at h)
            | inr (out2, two) ↦
                elim (Option-cases (write_u8 (flag_of options.force_truncate) out2)) [
                  | inl failed ↦ cc (rw (fits, one, two, failed) at h)
                  | inr (out3, three) ↦
                      elim (Option-cases
                        (write_u8 (HashAlgorithm.to_u8 options.hash_algorithm) out3)) [
                          | inl failed ↦ cc (rw (fits, one, two, three, failed) at h)
                          | inr (out4, four) ↦
                              let same : out4 ≡ out' = cc (rw (fits, one, two, three, four) at h) in
                              let (size, small) = try_into-ok (2 ^ 64) options.block_size b fits in
                              rw
                                (
                                  ← same,
                                  write_u8_lem _ out3 out4 four,
                                  write_u8_lem _ out2 out3 three,
                                  write_u64_lem src_size out1 out2 two,
                                  write_u64_lem b out out1 one,
                                  ← size,
                                )
                                (four_parts (written out) (be 8 options.block_size) (be 8 src_size)
                                  _ _)
                        ]
                ]
          ]
        ]
      ]

  -- The size of the source, which is not empty, and what may be asked of the server.
  abbrev pub IsAsked : ClientProcessOptions → Fs → ℕ → Type 0
  IsAsked options fs src_size =
      (is_utf8 options.dest ≡ true)
      × (0 < src_size)
      × ((bs : List ℕ) × (contents fs options.src_path ≡ some bs) × (length bs ≡ src_size))

  send_request_sent :
      (options : ClientProcessOptions) (fs : Fs) (out : Sink) (src_size : ℕ) (out' : Sink)
      → send_request r w sys options fs out ≡ Result.ok (src_size, out')
      → IsAsked options fs src_size
        × (written out'
            ≡ written out
              ++ request_bytes (request_of options src_size) (flag_of options.force_truncate))
  unfolding send_request
  send_request_sent options fs out src_size out' h = elim (Option-cases (from_utf8 options.dest)) [
    | inl failed ↦ cc (rw failed at h)
    | inr (dest, valid) ↦ elim (Result-cases (write_string w dest out)) [
      | inl (e, failed) ↦ cc (rw (valid, failed) at h)
      | inr (out1, one) ↦ elim (Option-cases (file_size options.src_path fs)) [
        | inl failed ↦ cc (rw (valid, one, failed) at h)
        | inr (size, found) ↦ elim (Result-cases (not_empty size)) [
          | inl (e, failed) ↦ cc (rw (valid, one, found, failed) at h)
          | inr (n, some_bytes) ↦ elim (Option-cases (rewind options.src_path fs)) [
            | inl failed ↦ cc (rw (valid, one, found, some_bytes, failed) at h)
            | inr (u, rewound) ↦ elim (Result-cases (send_options r w sys options n out1)) [
              | inl (e, failed) ↦ cc (rw (valid, one, found, some_bytes, rewound, failed) at h)
              | inr (out2, two) ↦
                  let h' = rw (valid, one, found, some_bytes, rewound, two) at h in
                  let same : out2 ≡ out' = cc h' in
                  let same_size : n ≡ src_size = cc h' in
                  let (is, utf8) = from_utf8-eq-some options.dest valid in
                  let (still, positive) = not_empty-ok size n some_bytes in
                  (
                    (
                      utf8,
                      rw (← same_size, ← still) positive,
                      rw (← same_size, ← still) (file_size_lem options.src_path fs size found),
                    ),
                    rw
                        (
                          ← same,
                          ← same_size,
                          send_options_sent options n out1 out2 two,
                          write_string-frame w dest out out1 one,
                          ← is,
                        )
                        (append_assoc (written out) (frame options.dest) _),
                  )
            ]
          ]
        ]
      ]
    ]
  ]

  -- A client whose handshake succeeds has written the secret, of at most 255 bytes, the version and
  -- the bytes of the request that its options and the size of the source make, and nothing else; it
  -- has read three acknowledgements and nothing behind them; its destination path is UTF-8 and its
  -- source has that size, which is not 0.
  pub greet_sent :
      (options : ClientProcessOptions) (fs : Fs) (io : Source) (out : Sink) (src_size : ℕ)
      (io' : Source) (out' : Sink)
      → greet r w sys options fs io out ≡ Result.ok (src_size, io', out')
      → (length options.secret < 256)
        × IsAsked options fs src_size
        × (unread io ≡ 0 ∷ 0 ∷ 0 ∷ unread io')
        × (written out'
            ≡ written out
              ++ (hello options.secret
                  ++ protocol_version
                    ∷ request_bytes (request_of options src_size) (flag_of options.force_truncate)))
  unfolding greet
  greet_sent options fs io out src_size io' out' h =
      elim (Result-cases (send_secret r w sys options.secret io out)) [
        | inl (e, failed) ↦ cc (rw failed at h)
        | inr ((io1, out1), one) ↦ elim (Result-cases (send_version r w sys io1 out1)) [
          | inl (e, failed) ↦ cc (rw (one, failed) at h)
          | inr ((io2, out2), two) ↦ elim (Result-cases (send_request r w sys options fs out2)) [
            | inl (e, failed) ↦ cc (rw (one, two, failed) at h)
            | inr ((n, out3), three) ↦ elim (Result-cases (check_status r io2)) [
              | inl (e, failed) ↦ cc (rw (one, two, three, failed) at h)
              | inr (io3, ack) ↦
                  let h' = rw (one, two, three, ack) at h in
                  let same : out3 ≡ out' = cc h' in
                  let same_io : io3 ≡ io' = cc h' in
                  let same_size : n ≡ src_size = cc h' in
                  let (small, ack1, sent1) =
                    send_secret_sent r w sys options.secret io out io1 out1 one in
                  let (ack2, sent2) = send_version_sent r w sys io1 out1 io2 out2 two in
                  let (asked, sent3) = send_request_sent options fs out2 n out3 three in
                  let ack3 = check_status-ok r w sys io2 io3 ack in
                  (
                    small,
                    rw (← same_size) asked,
                    rw (ack1, ack2, ack3, same_io) refl,
                    rw (← same, ← same_size, sent3, sent2, sent1)
                        (all_parts (written out) options.secret _ _ _),
                  )
            ]
          ]
        ]
      ]

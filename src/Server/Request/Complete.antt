-- ===== src/Server/Request/Complete.antt =====
-- What `accept` of src/server.rs answers to a proper request, and to a wrong secret.
use deltasync.Base.{
  ℕ, ◌%◌, ◌≤◌, ◌<◌, ◌≡◌, ◌≢◌, sym, ◌∙◌, List, ◌∷◌, ◌++◌, append_assoc, true, false, ◌||◌, ◌⊎◌, inl,
  inr, length, ltb, ◌==◌, arith, Bool-cases, Option-cases, ==_iff,
}
use deltasync.Bytes.{String, IsU64, be, is_utf8}
use deltasync.HashAlgorithm
use deltasync.HashAlgorithm.{HashAlgorithm, try_from-to_u8}
use deltasync.Io.{AsyncRead, AsyncWrite, Error}
use deltasync.Common.Frame.{frame, append_injective, word_injective}
use deltasync.Common.Status.{StatusCode, write_status}
use deltasync.Common.Text.{read_string-frame}
use deltasync.Server.Request.{
  Request, pass, refuse, fail, bytes_eq, check_secret, check_version, read_options, read_request,
  accept, protocol_version, max_block_size,
}
use deltasync.Server.Request.Secret.{bytes_eq_sound, bytes_eq_self, hello, request_bytes, IsFlag}

-- What a client may ask for.
abbrev pub IsProper : Request → Type 0
IsProper q =
    (0 < q.block_size)
    × (q.block_size ≤ max_block_size)
    × IsU64 q.filesize
    × (length q.dest_path ≤ 4096)
    × (is_utf8 q.dest_path ≡ true)

module _ (r : AsyncRead) (w : AsyncWrite) where
  open r use {
    Source, unread, read_u8, read_u64, read_exact, read_u8_takes, read_u64_takes, read_exact_takes,
  }
  open w use {Sink}

  check_secret_complete :
      (secret : String) (io : Source) (out : Sink) (rest : List ℕ)
      → length secret < 256
      → unread io ≡ hello secret ++ rest
      → (check_secret r w secret io out ≡ fail Error.io)
        ⊎ ((io' : Source) × (out' : Sink) × (check_secret r w secret io out ≡ pass (io', out'))
            × (unread io' ≡ rest))
  unfolding check_secret
  check_secret_complete secret io out rest small e = elim (Option-cases (read_u8 io)) [
    | inl failed ↦ inl (rw failed)
    | inr ((n, io1), read) ↦
        let sent = read_u8_takes io n io1 read in
        let n_eq : n ≡ length secret = cc in
        let body : unread io1 ≡ secret ++ rest = cc in
        let same : (n == length secret % 256) ≡ true =
          (==_iff n (length secret % 256)).1 (omega arith) in
        elim (Option-cases (read_exact n io1)) [
          | inl failed ↦ inl (rw (read, same, failed))
          | inr ((bs, io2), got) ↦
              let (l, taken) = read_exact_takes n io1 bs io2 got in
              let (eq, tail) = append_injective bs secret (l ∙ n_eq) (sym taken ∙ body) in
              elim (Option-cases (write_status w StatusCode.ack out)) [
                | inl failed ↦ inl (rw (read, same, got, eq, bytes_eq_self secret, failed))
                | inr (out1, ack) ↦
                    inr (io2, out1, rw (read, same, got, eq, bytes_eq_self secret, ack), tail)
              ]
        ]
  ]

  check_version_complete :
      (io : Source) (out : Sink) (rest : List ℕ)
      → unread io ≡ protocol_version ∷ rest
      → (check_version r w io out ≡ fail Error.io)
        ⊎ ((io' : Source) × (out' : Sink) × (check_version r w io out ≡ pass (io', out'))
            × (unread io' ≡ rest))
  unfolding check_version
  check_version_complete io out rest e = elim (Option-cases (read_u8 io)) [
    | inl failed ↦ inl (rw failed)
    | inr ((n, io1), read) ↦
        let sent = read_u8_takes io n io1 read in
        let n_eq : n ≡ protocol_version = cc in
        elim (Option-cases (write_status w StatusCode.ack out)) [
          | inl failed ↦ inl (rw (read, n_eq, failed))
          | inr (out1, ack) ↦ inr (io1, out1, rw (read, n_eq, ack), cc)
        ]
  ]

  read_options_complete :
      (q : Request) (flag : ℕ) (io : Source) (rest : List ℕ)
      → IsFlag flag q.force_truncate
      → unread io ≡ flag ∷ HashAlgorithm.to_u8 q.hash_algorithm ∷ rest
      → (read_options r w q.dest_path q.block_size q.filesize io ≡ fail Error.io)
        ⊎ ((io' : Source) × (read_options r w q.dest_path q.block_size q.filesize io
              ≡ pass (q, io'))
            × (unread io' ≡ rest))
  unfolding read_options
  read_options_complete q flag io rest is_flag e = elim (Option-cases (read_u8 io)) [
    | inl failed ↦ inl (rw failed)
    | inr ((n, io1), read) ↦
        let sent = read_u8_takes io n io1 read in
        let n_eq : n ≡ flag = cc in
        let body : unread io1 ≡ HashAlgorithm.to_u8 q.hash_algorithm ∷ rest = cc in
        elim (Option-cases (read_u8 io1)) [
          | inl failed ↦ inl (rw (read, failed))
          | inr ((m, io2), read2) ↦
              let sent2 = read_u8_takes io1 m io2 read2 in
              let m_eq : m ≡ HashAlgorithm.to_u8 q.hash_algorithm = cc in
              inr (io2, rw (read, read2, m_eq, try_from-to_u8 q.hash_algorithm, n_eq, is_flag), cc)
        ]
  ]

  read_request_complete :
      (q : Request) (flag : ℕ) (io : Source) (rest : List ℕ)
      → IsProper q
      → IsFlag flag q.force_truncate
      → unread io ≡ request_bytes q flag ++ rest
      → (read_request r w io ≡ fail Error.io)
        ⊎ ((io' : Source) × (read_request r w io ≡ pass (q, io')) × (unread io' ≡ rest))
  unfolding read_request
  read_request_complete q flag io rest (pos, le, small, short, valid) is_flag e =
      let tail : List ℕ = flag ∷ HashAlgorithm.to_u8 q.hash_algorithm ∷ rest in
      let e' : unread io ≡ frame q.dest_path ++ (be 8 q.block_size ++ (be 8 q.filesize ++ tail)) =
        e ∙ simp append_assoc in
      elim (read_string-frame r 4096 io q.dest_path _ e' valid short (omega arith)) [
        | inl failed ↦ inl (rw failed)
        | inr (io1, read, rest1) ↦ elim (Option-cases (read_u64 io1)) [
          | inl failed ↦ inl (rw (read, failed))
          | inr ((b, io2), read2) ↦
              let (b_small, sent2) = read_u64_takes io1 b io2 read2 in
              let (b_eq, rest2) =
                word_injective b q.block_size b_small (omega arith) (sym sent2 ∙ rest1) in
              let good : (q.block_size == 0 || ltb max_block_size q.block_size) ≡ false =
                ground arith in
              elim (Option-cases (read_u64 io2)) [
                | inl failed ↦ inl (rw (read, read2, b_eq, good, failed))
                | inr ((f, io3), read3) ↦
                    let (f_small, sent3) = read_u64_takes io2 f io3 read3 in
                    let (f_eq, rest3) =
                      word_injective f q.filesize f_small small (sym sent3 ∙ rest2) in
                    elim (read_options_complete q flag io3 rest is_flag rest3) [
                      | inl failed ↦ inl (rw (read, read2, b_eq, good, read3, f_eq, failed))
                      | inr (io4, done, end) ↦
                          inr (io4, rw (read, read2, b_eq, good, read3, f_eq, done), end)
                    ]
              ]
        ]
      ]

  -- A client that sends the secret, of at most 255 bytes, this version and a proper request is
  -- accepted with just that request, and nothing behind it is read, unless the connection fails.
  pub accept_complete :
      (secret : String) (io : Source) (out : Sink) (q : Request) (flag : ℕ) (rest : List ℕ)
      → length secret < 256
      → IsProper q
      → IsFlag flag q.force_truncate
      → unread io ≡ hello secret ++ protocol_version ∷ request_bytes q flag ++ rest
      → (accept r w secret io out ≡ fail Error.io)
        ⊎ ((io' : Source) × (out' : Sink) × (accept r w secret io out ≡ pass (q, io', out'))
            × (unread io' ≡ rest))
  unfolding accept
  accept_complete secret io out q flag rest small proper is_flag e =
      elim (check_secret_complete secret io out (protocol_version ∷ request_bytes q flag ++ rest)
        small (e ∙ append_assoc (hello secret) _ rest)) [
          | inl failed ↦ inl (rw failed)
          | inr (io1, out1, one, rest1) ↦
              elim (check_version_complete io1 out1 (request_bytes q flag ++ rest) rest1) [
                | inl failed ↦ inl (rw (one, failed))
                | inr (io2, out2, two, rest2) ↦
                    elim (read_request_complete q flag io2 rest proper is_flag rest2) [
                      | inl failed ↦ inl (rw (one, two, failed))
                      | inr (io3, three, rest3) ↦ inr (io3, out2, rw (one, two, three), rest3)
                    ]
              ]
        ]

  -- A client that sends another secret is refused as such, unless the connection fails. Both
  -- secrets have at most 255 bytes.
  pub accept_wrong_secret :
      (secret other : String) (io : Source) (out : Sink) (rest : List ℕ)
      → length secret < 256
      → length other < 256
      → other ≢ secret
      → unread io ≡ hello other ++ rest
      → (accept r w secret io out ≡ fail Error.io)
        ⊎ (accept r w secret io out ≡ refuse StatusCode.invalid_secret)
  unfolding accept check_secret
  accept_wrong_secret secret other io out rest small small' ne e =
      elim (Option-cases (read_u8 io)) [
        | inl failed ↦ inl (rw failed)
        | inr ((n, io1), read) ↦
            let sent = read_u8_takes io n io1 read in
            let n_eq : n ≡ length other = cc in
            let body : unread io1 ≡ other ++ rest = cc in
            elim (Bool-cases (n == length secret % 256)) [
              | inr differs ↦ inr (rw (read, differs))
              | inl same ↦ elim (Option-cases (read_exact n io1)) [
                | inl failed ↦ inl (rw (read, same, failed))
                | inr ((bs, io2), got) ↦
                    let (l, taken) = read_exact_takes n io1 bs io2 got in
                    let (eq, tail) = append_injective bs other (l ∙ n_eq) (sym taken ∙ body) in
                    elim (Bool-cases (bytes_eq bs secret)) [
                      | inl equal ↦ absurd (ne (sym eq ∙ bytes_eq_sound bs secret equal))
                      | inr differs ↦ inr (rw (read, same, got, differs))
                    ]
              ]
            ]
      ]

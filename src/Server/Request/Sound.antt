-- ===== src/Server/Request/Sound.antt =====
-- What is known of a client whose request `accept` of src/server.rs lets pass.
use deltasync.Base.{
  ℕ, ◌≤◌, ◌<◌, ◌≡◌, refl, ap, ◌∙◌, List, [], ◌∷◌, ◌++◌, append_assoc, true, not, ◌||◌, inl, inr,
  length, ltb, ◌==◌, arith, Bool-cases, Option-cases,
}
use deltasync.Bytes.{String, IsU64, be, is_utf8}
use deltasync.HashAlgorithm
use deltasync.HashAlgorithm.{HashAlgorithm, try_from-eq-some}
use deltasync.Io.{AsyncRead, AsyncWrite}
use deltasync.Common.Frame.{frame}
use deltasync.Common.Text.{read_string, read_string_sound}
use deltasync.Server.Request.{
  Request, pass, check_secret, check_version, read_options, read_request, accept, protocol_version,
  max_block_size,
}
use deltasync.Server.Request.Secret.{
  Gate-cases, Result-cases, hello, request_bytes, IsFlag, check_secret_sound, check_version_sound,
}

module _ (r : AsyncRead) (w : AsyncWrite) where
  open r use {
    Source, unread, read_u8, read_u64, read_exact, read_u8_takes, read_u64_takes, read_exact_takes,
  }
  open w use {Sink, written, write_u8_lem}

  read_options_sound :
      (dest : String) (block_size filesize : ℕ) (io : Source) (q : Request) (io' : Source)
      → read_options r w dest block_size filesize io ≡ pass (q, io')
      → (flag : ℕ) × IsFlag flag q.force_truncate
        × (unread io ≡ flag ∷ HashAlgorithm.to_u8 q.hash_algorithm ∷ unread io')
        × (q.dest_path ≡ dest)
        × (q.block_size ≡ block_size)
        × (q.filesize ≡ filesize)
  unfolding read_options
  read_options_sound dest block_size filesize io q io' h = elim (Option-cases (read_u8 io)) [
    | inl failed ↦ cc (rw failed at h)
    | inr ((flag, io1), read) ↦ elim (Option-cases (read_u8 io1)) [
      | inl failed ↦ cc (rw (read, failed) at h)
      | inr ((code, io2), read2) ↦ elim (Option-cases (HashAlgorithm.try_from code)) [
        | inl unknown ↦ cc (rw (read, read2, unknown) at h)
        | inr (a, known) ↦
            let h' = rw (read, read2, known) at h in
            let state : io2 ≡ io' = cc h' in
            let request : Request = record {
              dest_path = dest;
              block_size = block_size;
              filesize = filesize;
              force_truncate = not (flag == 0);
              hash_algorithm = a;
            } in
            let eq : request ≡ q = cc h' in
            rw (← state, ← eq)
              (
                flag,
                refl,
                read_u8_takes io flag io1 read
                    ∙ ap (◌∷◌ flag) (
                        read_u8_takes io1 code io2 read2
                        ∙ ap (λ (k : ℕ). k ∷ unread io2) (try_from-eq-some code a known)),
                refl,
                refl,
                refl,
              )
      ]
    ]
  ]

  -- The bounds on a request, and its place on the stream.
  abbrev pub IsRequest : Source → Request → Source → Type 0
  IsRequest io q io' =
      (flag : ℕ) × IsFlag flag q.force_truncate
      × (unread io ≡ request_bytes q flag ++ unread io')
      × (0 < q.block_size)
      × (q.block_size ≤ max_block_size)
      × IsU64 q.filesize
      × (length q.dest_path ≤ 4096)
      × (is_utf8 q.dest_path ≡ true)

  read_request_sound :
      (io : Source) (q : Request) (io' : Source)
      → read_request r w io ≡ pass (q, io')
      → IsRequest io q io'
  unfolding read_request
  read_request_sound io q io' h = elim (Result-cases (read_string r 4096 io)) [
    | inl (e, failed) ↦ cc (rw failed at h)
    | inr ((dest, io1), read) ↦ elim (Option-cases (read_u64 io1)) [
      | inl failed ↦ cc (rw (read, failed) at h)
      | inr ((block_size, io2), read2) ↦
          elim (Bool-cases (block_size == 0 || ltb max_block_size block_size)) [
            | inl bad ↦ cc (rw (read, read2, bad) at h)
            | inr good ↦ elim (Option-cases (read_u64 io2)) [
              | inl failed ↦ cc (rw (read, read2, good, failed) at h)
              | inr ((filesize, io3), read3) ↦
                  let (flag, is_flag, rest, d, b, f) =
                    read_options_sound dest block_size filesize io3 q io'
                      (rw (read, read2, good, read3) at h) in
                  let (sent, short, valid) = read_string_sound r 4096 io dest io1 read in
                  let (small, sent2) = read_u64_takes io1 block_size io2 read2 in
                  let (small3, sent3) = read_u64_takes io2 filesize io3 read3 in
                  let bytes : unread io
                      ≡ frame dest
                        ++ (be 8 block_size
                            ++ (be 8 filesize
                                ++ (flag ∷ HashAlgorithm.to_u8 q.hash_algorithm ∷ unread io'))) =
                    sent
                    ∙ ap (◌++◌ (frame dest)) (
                        sent2
                        ∙ ap (◌++◌ (be 8 block_size)) (sent3 ∙ ap (◌++◌ (be 8 filesize)) rest)) in
                  (
                    flag,
                    is_flag,
                    rw (d, b, f) (bytes ∙ simp append_assoc),
                    rw b (ground arith),
                    rw b (ground arith),
                    rw f small3,
                    rw d short,
                    rw d valid,
                  )
            ]
          ]
    ]
  ]

  -- A client whose request is accepted has sent the secret, this version of the protocol and a
  -- request whose path is UTF-8 of at most 4096 bytes, with a block size from 1 to 2^30, a `u64`
  -- file size and a known algorithm; nothing behind it was read, and the client was sent two
  -- acknowledgements and nothing else.
  pub accept_sound :
      (secret : String) (io : Source) (out : Sink) (q : Request) (io' : Source) (out' : Sink)
      → accept r w secret io out ≡ pass (q, io', out')
      → (io2 : Source) × (unread io ≡ hello secret ++ protocol_version ∷ unread io2)
        × IsRequest io2 q io'
        × (written out' ≡ written out ++ (0 ∷ 0 ∷ []))
  unfolding accept
  accept_sound secret io out q io' out' h = elim (Gate-cases (check_secret r w secret io out)) [
    | inl ((io1, out1), one) ↦ elim (Gate-cases (check_version r w io1 out1)) [
      | inl ((io2, out2), two) ↦ elim (Gate-cases (read_request r w io2)) [
        | inl ((q', io3), three) ↦
            let h' = rw (one, two, three) at h in
            let state : io3 ≡ io' = cc h' in
            let sink : out2 ≡ out' = cc h' in
            let eq : q' ≡ q = cc h' in
            let (sent, ack) = check_secret_sound r w secret io out io1 out1 one in
            let (sent2, ack2) = check_version_sound r w io1 out1 io2 out2 two in
            rw (← state, ← sink, ← eq)
              (
                io2,
                sent ∙ ap (◌++◌ (hello secret)) sent2,
                read_request_sound io2 q' io3 three,
                ack2
                    ∙ ap (λ (xs : List ℕ). xs ++ (0 ∷ [])) ack
                    ∙ append_assoc (written out) (0 ∷ []) (0 ∷ []),
              )
        | inr (inl (c, refused)) ↦ cc (rw (one, two, refused) at h)
        | inr (inr (e, failed)) ↦ cc (rw (one, two, failed) at h)
      ]
      | inr (inl (c, refused)) ↦ cc (rw (one, refused) at h)
      | inr (inr (e, failed)) ↦ cc (rw (one, failed) at h)
    ]
    | inr (inl (c, refused)) ↦ cc (rw refused at h)
    | inr (inr (e, failed)) ↦ cc (rw failed at h)
  ]

-- ===== src/Server/Request/Secret.antt =====
-- The secret and the version in `process_new_client` of src/server.rs.
use deltasync.Base.{
  ℕ, ◌%◌, ◌≡◌, refl, sym, ap, ◌∙◌, List, [], ◌∷◌, ◌++◌, Bool, true, not, ◌⊎◌, inl, inr, some,
  length, ◌==◌, arith, Bool-cases, Option-cases, ==_iff,
}
use deltasync.Bytes.{String, be}
use deltasync.HashAlgorithm
use deltasync.HashAlgorithm.{HashAlgorithm, try_from-eq-some}
use deltasync.Io.{AsyncRead, AsyncWrite, Error, Result}
use deltasync.Common.Frame.{frame}
use deltasync.Common.Status
use deltasync.Common.Status.{StatusCode, write_status}
use deltasync.Server.Request.{
  Request, Gate, pass, refuse, fail, bytes_eq, check_secret, check_version, protocol_version,
}

pub bytes_eq_sound : (xs ys : List ℕ) → bytes_eq xs ys ≡ true → xs ≡ ys
unfolding bytes_eq
bytes_eq_sound [] [] h = refl
bytes_eq_sound [] (y ∷ ys) h = cc
bytes_eq_sound (x ∷ xs) [] h = cc
bytes_eq_sound (x ∷ xs) (y ∷ ys) h = ground (arith, bytes_eq_sound xs ys)

pub bytes_eq_self : (xs : List ℕ) → bytes_eq xs xs ≡ true
unfolding bytes_eq
bytes_eq_self [] = refl
bytes_eq_self (x ∷ xs) = ground (arith, bytes_eq_self xs)

pub Gate-cases {ℓ} :
    {A : Type ℓ} (g : Gate A)
    → ((a : A) × (g ≡ pass a)) ⊎ ((c : StatusCode) × (g ≡ refuse c)) ⊎ ((e : Error) × (g ≡ fail e))
Gate-cases (pass a) = inl (a, refl)
Gate-cases (refuse c) = inr (inl (c, refl))
Gate-cases (fail e) = inr (inr (e, refl))

pub Result-cases {ℓ} :
    {A : Type ℓ} (x : Result A) → ((e : Error) × (x ≡ Result.err e)) ⊎ ((a : A) × (x ≡ Result.ok a))
Result-cases (Result.err e) = inl (e, refl)
Result-cases (Result.ok a) = inr (a, refl)

-- What the client sends first.
abbrev pub hello : String → List ℕ
hello secret = length secret ∷ secret

-- The bytes of a request; `flag` is any byte that stands for `force_truncate`.
abbrev pub request_bytes : Request → ℕ → List ℕ
request_bytes q flag =
    frame q.dest_path
    ++ (be 8 q.block_size ++ (be 8 q.filesize ++ flag ∷ HashAlgorithm.to_u8 q.hash_algorithm ∷ []))

-- `force_truncate` as the server reads it.
abbrev pub IsFlag : ℕ → Bool → Type 0
IsFlag flag force = not (flag == 0) ≡ force

module _ (r : AsyncRead) (w : AsyncWrite) where
  open r use {
    Source, unread, read_u8, read_u64, read_exact, read_u8_takes, read_u64_takes, read_exact_takes,
  }
  open w use {Sink, written, write_u8_lem}

  status_written :
      (c : StatusCode) (out out' : Sink)
      → write_status w c out ≡ some out'
      → written out' ≡ written out ++ (Status.to_u8 c ∷ [])
  unfolding write_status
  status_written c out out' h = write_u8_lem (Status.to_u8 c) out out' h

  -- A client passes with the very secret only.
  pub check_secret_sound :
      (secret : String) (io : Source) (out : Sink) (io' : Source) (out' : Sink)
      → check_secret r w secret io out ≡ pass (io', out')
      → (unread io ≡ hello secret ++ unread io') × (written out' ≡ written out ++ (0 ∷ []))
  unfolding check_secret
  check_secret_sound secret io out io' out' h = elim (Option-cases (read_u8 io)) [
    | inl failed ↦ cc (rw failed at h)
    | inr ((n, io1), read) ↦ elim (Bool-cases (n == length secret % 256)) [
      | inr other ↦ cc (rw (read, other) at h)
      | inl same ↦ elim (Option-cases (read_exact n io1)) [
        | inl failed ↦ cc (rw (read, same, failed) at h)
        | inr ((bs, io2), got) ↦ elim (Bool-cases (bytes_eq bs secret)) [
          | inr other ↦ cc (rw (read, same, got, other) at h)
          | inl equal ↦ elim (Option-cases (write_status w StatusCode.ack out)) [
            | inl failed ↦ cc (rw (read, same, got, equal, failed) at h)
            | inr (out1, sent) ↦
                let h' = rw (read, same, got, equal, sent) at h in
                let state : io2 ≡ io' = cc h' in
                let sink : out1 ≡ out' = cc h' in
                let secret_eq = bytes_eq_sound bs secret equal in
                let (l, body) = read_exact_takes n io1 bs io2 got in
                let n_eq : n ≡ length secret = sym l ∙ ap length secret_eq in
                rw (← state, ← sink)
                  (
                    read_u8_takes io n io1 read
                        ∙ ap (◌∷◌ n) body
                        ∙ ap (λ (k : ℕ). k ∷ (bs ++ unread io2)) n_eq
                        ∙ ap (λ (xs : List ℕ). length secret ∷ (xs ++ unread io2)) secret_eq,
                    status_written StatusCode.ack out out1 sent,
                  )
          ]
        ]
      ]
    ]
  ]

  pub check_version_sound :
      (io : Source) (out : Sink) (io' : Source) (out' : Sink)
      → check_version r w io out ≡ pass (io', out')
      → (unread io ≡ protocol_version ∷ unread io') × (written out' ≡ written out ++ (0 ∷ []))
  unfolding check_version
  check_version_sound io out io' out' h = elim (Option-cases (read_u8 io)) [
    | inl failed ↦ cc (rw failed at h)
    | inr ((n, io1), read) ↦ elim (Bool-cases (n == protocol_version)) [
      | inr other ↦ cc (rw (read, other) at h)
      | inl same ↦ elim (Option-cases (write_status w StatusCode.ack out)) [
        | inl failed ↦ cc (rw (read, same, failed) at h)
        | inr (out1, sent) ↦
            let h' = rw (read, same, sent) at h in
            let state : io1 ≡ io' = cc h' in
            let sink : out1 ≡ out' = cc h' in
            rw (← state, ← sink)
              (
                read_u8_takes io n io1 read
                    ∙ ap (λ (k : ℕ). k ∷ unread io1) ((==_iff n protocol_version).0 same),
                status_written StatusCode.ack out out1 sent,
              )
      ]
    ]
  ]

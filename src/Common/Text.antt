-- ===== src/Common/Text.antt =====
-- `write_string` and `read_string` of src/common.rs.
use deltasync.Base.{
  ℕ, ◌≤◌, ◌≡◌, sym, ap, ◌∙◌, List, ◌++◌, append_assoc, ◌⊎◌, inl, inr, arith, Option, none, some,
  true, false, length, ltb, if◌then◌else◌, Option-cases, Bool-cases, ◌^◌,
}
use deltasync.Bytes.{String, IsU64, be, is_utf8, from_utf8, is_utf8-from_utf8, from_utf8-cases}
use deltasync.Io.{AsyncRead, AsyncWrite, Error, Result, ◌>>=◌, or_io}
use deltasync.Common.Frame.{frame, append_injective, word_injective}

module _ (w : AsyncWrite) where
  open w use {Sink, written, write_u64, write_all, write_u64_lem, write_all_lem}

  -- `s.len().try_into()?` from `usize` to `u64` fails on no 64-bit machine; here it is the test.
  unfoldable pub write_string : String → Sink → Result Sink
  write_string s io =
      let sent = (do a ← or_io (write_u64 (length s) io); or_io (write_all s a)) in
      if ltb (length s) (2 ^ 64) then sent else Result.err Error.does_not_fit

  -- What `Ok` leaves on the wire is the frame.
  pub write_string-frame :
      (s : String) (io io' : Sink)
      → write_string s io ≡ Result.ok io'
      → written io' ≡ written io ++ frame s
  unfolding write_string
  write_string-frame s io io' h = elim (Bool-cases (ltb (length s) (2 ^ 64))) [
    | inr big ↦ cc (rw big at h)
    | inl fits ↦ elim (Option-cases (write_u64 (length s) io)) [
      | inl failed ↦ cc (rw (fits, failed) at h)
      | inr (a, sent) ↦ elim (Option-cases (write_all s a)) [
        | inl failed ↦ cc (rw (fits, sent, failed) at h)
        | inr (b, all) ↦
            let same : b ≡ io' = cc (rw (fits, sent, all) at h) in
            rw (← same) (
              write_all_lem s a b all
              ∙ ap (λ (xs : List ℕ). xs ++ s) (write_u64_lem (length s) io a sent)
              ∙ append_assoc (written io) (be 8 (length s)) s)
      ]
    ]
  ]

-- `Ok(String::from_utf8(s)?)`
abbrev or_utf8 : Option String → Result String
or_utf8 none = Result.err Error.invalid_utf8
or_utf8 (some s) = Result.ok s

module _ (r : AsyncRead) where
  open r use {Source, unread, read_u64, read_exact, read_u64_takes, read_exact_takes}

  unfoldable pub read_body : ℕ → Source → Result (String × Source)
  read_body size io = do
    (bs, rest) ← or_io (read_exact size io)
    s ← or_utf8 (from_utf8 bs)
    Result.ok (s, rest)

  -- `if size > max_len { bail!(..) }`
  abbrev limited : {A : Type 0} → ℕ → ℕ → Result A → Result A
  limited max_len size body =
      if ltb max_len size then Result.err (Error.too_long size max_len) else body

  unfoldable pub read_string : ℕ → Source → Result (String × Source)
  read_string max_len io = do
    (size, rest) ← or_io (read_u64 io)
    limited max_len size (read_body size rest)

  -- On a stream that begins with a string of at most `max_len` bytes, it returns that string and
  -- stands behind it, unless the stream fails.
  pub read_string-frame :
      (max_len : ℕ) (io : Source) (s : String) (rest : List ℕ)
      → unread io ≡ frame s ++ rest
      → is_utf8 s ≡ true
      → length s ≤ max_len
      → IsU64 max_len
      → (read_string max_len io ≡ Result.err Error.io)
        ⊎ ((io' : Source) × (read_string max_len io ≡ Result.ok (s, io')) × (unread io' ≡ rest))
  unfolding read_string read_body
  read_string-frame max_len io s rest e valid short fits = elim (Option-cases (read_u64 io)) [
    | inl failed ↦ inl (rw failed)
    | inr ((size, io1), read) ↦
        let (small, sent) = read_u64_takes io size io1 read in
        let (same, body) =
          word_injective size (length s) small (omega arith)
            (sym sent ∙ e ∙ append_assoc (be 8 (length s)) s rest) in
        let not_long : ltb max_len size ≡ false = ground arith in
        elim (Option-cases (read_exact size io1)) [
          | inl failed ↦ inl (rw (read, not_long, failed))
          | inr ((bs, io2), got) ↦
              let (l, sent2) = read_exact_takes size io1 bs io2 got in
              let (eq, tail) = append_injective bs s (l ∙ same) (sym sent2 ∙ body) in
              inr (io2, rw (read, not_long, got, eq, is_utf8-from_utf8 s valid), tail)
        ]
  ]

  -- What it returns was on the stream, and is a string of at most `max_len` bytes.
  pub read_string_sound :
      (max_len : ℕ) (io : Source) (s : String) (io' : Source)
      → read_string max_len io ≡ Result.ok (s, io')
      → (unread io ≡ frame s ++ unread io') × (length s ≤ max_len) × (is_utf8 s ≡ true)
  unfolding read_string read_body
  read_string_sound max_len io s io' h = elim (Option-cases (read_u64 io)) [
    | inl failed ↦ cc (rw failed at h)
    | inr ((size, io1), read) ↦ elim (Bool-cases (ltb max_len size)) [
      | inl long ↦ cc (rw (read, long) at h)
      | inr fine ↦ elim (Option-cases (read_exact size io1)) [
        | inl failed ↦ cc (rw (read, fine, failed) at h)
        | inr ((bs, io2), got) ↦ elim (from_utf8-cases bs) [
          | inr (bad, invalid) ↦ cc (rw (read, fine, got, bad) at h)
          | inl (good, valid) ↦
              let h' = rw (read, fine, got, good) at h in
              let same : bs ≡ s = cc h' in
              let state : io2 ≡ io' = cc h' in
              let (small, sent) = read_u64_takes io size io1 read in
              let (l, sent2) = read_exact_takes size io1 bs io2 got in
              rw (← same, ← state)
                (
                  sent
                      ∙ ap (◌++◌ (be 8 size)) sent2
                      ∙ sym (append_assoc (be 8 size) bs (unread io2))
                      ∙ ap (λ (n : ℕ). (be 8 n ++ bs) ++ unread io2) (sym l),
                  ground arith,
                  valid,
                )
        ]
      ]
    ]
  ]

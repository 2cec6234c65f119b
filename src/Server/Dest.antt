-- ===== src/Server/Dest.antt =====
-- The destination file in `process_new_client` of src/server.rs: it is opened or created, and given
-- the size of the client's file.
use deltasync.Base.{
  some_injective, ℕ, ◌≡◌, ◌≢◌, refl, sym, ap, ◌∙◌, List, [], true, ◌||◌, inl, inr, Option, none,
  some, length, ◌==◌, if◌then◌else◌, Bool-cases, Option-cases, ==_iff,
}
use deltasync.Bytes.{String}
use deltasync.FileSystem.{FileSystem, Metadata}
use deltasync.Io.{Error}
use deltasync.Common.Buffer.{resize}
use deltasync.Common.Status.{StatusCode}
use deltasync.Server.Request.{Request, Gate, pass, refuse, fail, ◌>>=◌, or_fail}

module _ (sys : FileSystem) where
  open sys use {
    Fs, contents, metadata, open_write, set_len, create, metadata_found, metadata_not_found,
    open_write_keeps, set_len_lem, set_len_keeps, create_lem, create_keeps,
  }

  -- `File::options().write(true).open(&dest_path)?; dest.set_len(filesize)?`
  unfoldable pub resize_dest : String → ℕ → Fs → Gate Fs
  resize_dest path filesize fs = do
    fs1 ← or_fail (open_write path fs)
    or_fail (set_len path filesize fs1)

  -- `File::create(&dest_path)?; dest.set_len(filesize)?`
  unfoldable pub create_dest : String → ℕ → Fs → Gate Fs
  create_dest path filesize fs = do
    fs1 ← or_fail (create path fs)
    or_fail (set_len path filesize fs1)

  -- The `match` on `std::fs::metadata`.
  unfoldable pub by_metadata : Request → Fs → Metadata → Gate Fs
  by_metadata q fs (Metadata.found len) =
      if len == q.filesize || q.force_truncate
      then resize_dest q.dest_path q.filesize fs
      else refuse StatusCode.file_size_differs
  by_metadata q fs Metadata.not_found = create_dest q.dest_path q.filesize fs
  by_metadata q fs Metadata.permission_denied = refuse StatusCode.permission_denied
  by_metadata q fs Metadata.other_error = fail Error.io

  unfoldable pub prepare_dest : Request → Fs → Gate Fs
  prepare_dest q fs = by_metadata q fs (metadata q.dest_path fs)

  -- What the file held before: nothing, where it is created.
  abbrev pub before : Option (List ℕ) → List ℕ
  before none = []
  before (some bs) = bs

  -- The destination has the size of the client's file, its content cut or filled up with zeros; a
  -- file of another size is touched under `--truncate` only; no other file is touched.
  abbrev pub Prepares : Request → Fs → Fs → Type 0
  Prepares q fs fs' =
      (contents fs' q.dest_path ≡ some (resize q.filesize (before (contents fs q.dest_path))))
      × ((old : List ℕ)
          → contents fs q.dest_path ≡ some old
          → length old ≢ q.filesize
          → q.force_truncate ≡ true)
      × ((p : String) → p ≢ q.dest_path → contents fs' p ≡ contents fs p)

  forced :
      (q : Request) (len : ℕ) (old old' : List ℕ)
      → (len == q.filesize || q.force_truncate) ≡ true
      → length old ≡ len
      → old ≡ old'
      → length old' ≢ q.filesize
      → q.force_truncate ≡ true
  forced q len old old' let_in size same ne = elim (Bool-cases (len == q.filesize)) [
    | inl equal ↦ absurd (ne (sym (ap length same) ∙ size ∙ (==_iff len q.filesize).0 equal))
    | inr unequal ↦ rw unequal at let_in
  ]

  resize_dest-content :
      (path : String) (filesize : ℕ) (fs fs' : Fs) (old : List ℕ)
      → resize_dest path filesize fs ≡ pass fs'
      → contents fs path ≡ some old
      → (contents fs' path ≡ some (resize filesize old))
        × ((p : String) → p ≢ path → contents fs' p ≡ contents fs p)
  unfolding resize_dest
  resize_dest-content path filesize fs fs' old h e = elim (Option-cases (open_write path fs)) [
    | inl failed ↦ cc (rw failed at h)
    | inr (fs1, opened) ↦ elim (Option-cases (set_len path filesize fs1)) [
      | inl failed ↦ cc (rw (opened, failed) at h)
      | inr (fs2, done) ↦
          let same : fs2 ≡ fs' = cc (rw (opened, done) at h) in
          let keep = open_write_keeps path fs fs1 opened in
          rw (← same) (
            set_len_lem path filesize fs1 fs2 old done (keep path ∙ e),
            λ p ne. set_len_keeps path filesize fs1 fs2 done p ne ∙ keep p,
          )
    ]
  ]

  create_dest-content :
      (path : String) (filesize : ℕ) (fs fs' : Fs)
      → create_dest path filesize fs ≡ pass fs'
      → (contents fs' path ≡ some (resize filesize []))
        × ((p : String) → p ≢ path → contents fs' p ≡ contents fs p)
  unfolding create_dest
  create_dest-content path filesize fs fs' h = elim (Option-cases (create path fs)) [
    | inl failed ↦ cc (rw failed at h)
    | inr (fs1, made) ↦ elim (Option-cases (set_len path filesize fs1)) [
      | inl failed ↦ cc (rw (made, failed) at h)
      | inr (fs2, done) ↦
          let same : fs2 ≡ fs' = cc (rw (made, done) at h) in
          rw (← same) (
            set_len_lem path filesize fs1 fs2 [] done (create_lem path fs fs1 made),
            λ p ne.
                set_len_keeps path filesize fs1 fs2 done p ne ∙ create_keeps path fs fs1 made p ne,
          )
    ]
  ]

  by_metadata-Prepares :
      (q : Request) (fs fs' : Fs) (m : Metadata)
      → metadata q.dest_path fs ≡ m
      → by_metadata q fs m ≡ pass fs'
      → Prepares q fs fs'
  unfolding by_metadata
  by_metadata-Prepares q fs fs' (Metadata.found len) e h =
      let (old, was, size) = metadata_found q.dest_path fs len e in
      elim (Bool-cases (len == q.filesize || q.force_truncate)) [
        | inr kept_out ↦ cc (rw kept_out at h)
        | inl let_in ↦
            let (new, others) =
              resize_dest-content q.dest_path q.filesize fs fs' old (rw let_in at h) was in
            (
              new ∙ ap (λ (o : Option (List ℕ)). some (resize q.filesize (before o))) (sym was),
              λ old' was' ne.
                  forced q len old old' let_in size (some_injective (sym was ∙ was')) ne,
              others,
            )
      ]
  by_metadata-Prepares q fs fs' Metadata.not_found e h =
      let absent = metadata_not_found q.dest_path fs e in
      let (new, others) = create_dest-content q.dest_path q.filesize fs fs' h in
      (
        new ∙ ap (λ (o : Option (List ℕ)). some (resize q.filesize (before o))) (sym absent),
        λ old was ne. cc,
        others,
      )
  by_metadata-Prepares q fs fs' Metadata.permission_denied e h = cc
  by_metadata-Prepares q fs fs' Metadata.other_error e h = cc

  -- Where the server goes on with a destination, the file there has the size of the client's file,
  -- its old content cut or filled up with zeros; a file that had another size was touched with
  -- `--truncate` only; and no other file has changed.
  pub prepare_dest-Prepares :
      (q : Request) (fs fs' : Fs) → prepare_dest q fs ≡ pass fs' → Prepares q fs fs'
  unfolding prepare_dest
  prepare_dest-Prepares q fs fs' h = by_metadata-Prepares q fs fs' (metadata q.dest_path fs) refl h

-- ===== src/FileSystem/SeekFile.antt =====
-- `tokio::fs::File` opened for writing, as an interface: what the program takes of it.
use deltasync.Base.{ℕ, ◌+◌, ◌-◌, ◌≡◌, List, [], ◌++◌, Option, some, length, take, drop, replicate}
use deltasync.Io.{AsyncWrite}

-- A file of content `old` behind a write of `bs` at `pos`; a gap is filled up with zeros.
unfoldable pub overwrite : List ℕ → ℕ → List ℕ → List ℕ
overwrite old pos bs =
    take pos old ++ replicate (pos - length old) 0 ++ bs ++ drop (pos + length bs) old

-- `written f` are the bytes accepted since the last seek, which was to `start f` where the content
-- was `base f`. The content is the one that `flush` leaves.
pub record SeekFile : Type 1 where
  pub file : AsyncWrite
  pub start : file.Sink → ℕ
  pub base : file.Sink → List ℕ
  pub content : file.Sink → List ℕ
  pub seek : ℕ → file.Sink → Option file.Sink
  pub flush : file.Sink → Option file.Sink
  pub sync_data : file.Sink → Option file.Sink
  pub content_lem : (f : file.Sink) → content f ≡ overwrite (base f) (start f) (file.written f)
  pub write_keeps :
      (bs : List ℕ) (f : file.Sink)
      → let f' = (file.write bs f).1 in (start f' ≡ start f) × (base f' ≡ base f)
  pub seek_lem :
      (n : ℕ) (f f' : file.Sink)
      → seek n f ≡ some f'
      → (start f' ≡ n) × (base f' ≡ content f) × (file.written f' ≡ [])
  pub flush_keeps : (f f' : file.Sink) → flush f ≡ some f' → content f' ≡ content f
  pub sync_keeps : (f f' : file.Sink) → sync_data f ≡ some f' → content f' ≡ content f

-- ===== src/Io/Streams.antt =====
-- `AsyncReadExt` and `AsyncWriteExt` of tokio as interfaces: the operations and the documented laws.
use deltasync.Base.{ℕ, ◌≤◌, ◌<◌, ◌≡◌, ◌≢◌, List, [], ◌∷◌, ◌++◌, Option, some, length, take}
use deltasync.Bytes.{IsByte, IsU64, All, be}
use deltasync.Io.Calls.{Poll}

-- The bytes that a poll of `read` has put into the buffer.
abbrev pub taken : Poll (List ℕ) → List ℕ
taken (Poll.ready bs) = bs
taken Poll.pending = []
taken Poll.failed = []

-- How many bytes a poll of `write` has accepted.
abbrev pub accepted : Poll ℕ → ℕ
accepted (Poll.ready n) = n
accepted Poll.pending = 0
accepted Poll.failed = 0

-- `unread s` are the bytes that the peer sends from here to the end of the stream, arrived or not.
-- The laws are those of the documentation: a read fills a part of the buffer, answers 0 at the end
-- only, and takes nothing where it fails or is cancelled; `read_exact` and the `read_u*` take all
-- that they return, big-endian.
pub record AsyncRead : Type 1 where
  pub Source : Type 0
  pub unread : Source → List ℕ
  pub read : ℕ → Source → Poll (List ℕ) × Source
  pub read_exact : ℕ → Source → Option (List ℕ × Source)
  pub read_u8 : Source → Option (ℕ × Source)
  pub read_u64 : Source → Option (ℕ × Source)
  pub unread_bytes : (s : Source) → All IsByte (unread s)
  pub read_takes : (k : ℕ) (s : Source) → unread s ≡ taken (read k s).0 ++ unread (read k s).1
  pub read_fits : (k : ℕ) (s : Source) → length (taken (read k s).0) ≤ k
  pub read_eof : (k : ℕ) (s : Source) → 0 < k → (read k s).0 ≡ Poll.ready [] → unread s ≡ []
  pub read_exact_takes :
      (n : ℕ) (s : Source) (bs : List ℕ) (s' : Source)
      → read_exact n s ≡ some (bs, s')
      → (length bs ≡ n) × (unread s ≡ bs ++ unread s')
  pub read_u8_takes :
      (s : Source) (b : ℕ) (s' : Source) → read_u8 s ≡ some (b, s') → unread s ≡ b ∷ unread s'
  pub read_u64_takes :
      (s : Source) (n : ℕ) (s' : Source)
      → read_u64 s ≡ some (n, s')
      → IsU64 n × (unread s ≡ be 8 n ++ unread s')

-- `written s` are the bytes accepted so far. A write that is cancelled or fails accepts nothing.
pub record AsyncWrite : Type 1 where
  pub Sink : Type 0
  pub written : Sink → List ℕ
  pub write : List ℕ → Sink → Poll ℕ × Sink
  pub write_all : List ℕ → Sink → Option Sink
  pub write_u8 : ℕ → Sink → Option Sink
  pub write_u64 : ℕ → Sink → Option Sink
  pub write_takes :
      (bs : List ℕ) (s : Sink)
      → written (write bs s).1 ≡ written s ++ take (accepted (write bs s).0) bs
  pub write_fits : (bs : List ℕ) (s : Sink) → accepted (write bs s).0 ≤ length bs
  pub write_all_lem :
      (bs : List ℕ) (s s' : Sink) → write_all bs s ≡ some s' → written s' ≡ written s ++ bs
  pub write_u8_lem :
      (b : ℕ) (s s' : Sink) → write_u8 b s ≡ some s' → written s' ≡ written s ++ (b ∷ [])
  pub write_u64_lem :
      (n : ℕ) (s s' : Sink) → write_u64 n s ≡ some s' → written s' ≡ written s ++ be 8 n

-- A reader that neither fails nor makes the caller wait.
abbrev pub IsPrompt : AsyncRead → Type 0
IsPrompt r = (k : ℕ) (s : r.Source) → (bs : List ℕ) × ((r.read k s).0 ≡ Poll.ready bs)

-- A writer that accepts some of what it is given, whenever it accepts: `Ok(0)` is answered to an
-- empty buffer only.
abbrev pub IsOpen : AsyncWrite → Type 0
IsOpen w = (b : ℕ) (bs : List ℕ) (s : w.Sink) → (w.write (b ∷ bs) s).0 ≢ Poll.ready 0

-- A reader on which no call of the blocking kind fails while the bytes that it asks for are there.
pub record IsReliable (r : AsyncRead) : Type 0 where
  pub exact :
      (n : ℕ) (s : r.Source)
      → n ≤ length (r.unread s)
      → (p : List ℕ × r.Source) × (r.read_exact n s ≡ some p)
  pub u8 : (s : r.Source) → 0 < length (r.unread s) → (p : ℕ × r.Source) × (r.read_u8 s ≡ some p)
  pub u64 : (s : r.Source) → 8 ≤ length (r.unread s) → (p : ℕ × r.Source) × (r.read_u64 s ≡ some p)

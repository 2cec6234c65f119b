-- ===== src/FileSystem.antt =====
-- What the program takes from the file system (`std::fs`), as an interface. A path is its bytes.
pub mod Disk
pub mod SeekFile
pub mod Memory
use deltasync.Base.{ℕ, ◌≡◌, ◌≢◌, List, Option, none, some, length, []}
use deltasync.Bytes.{String}
use deltasync.Common.Buffer.{resize}

-- `std::fs::metadata`: the length, or the kind of the error.
pub data Metadata : Type 0 where
  found : ℕ → Metadata
  not_found permission_denied other_error : Metadata

-- A call that fails answers `none`. A file is known by its path: the program opens each file once
-- for each use.
pub record FileSystem : Type 1 where
  pub Fs : Type 0
  pub contents : Fs → String → Option (List ℕ)
  pub metadata : String → Fs → Metadata
  pub open_write : String → Fs → Option Fs
  pub set_len : String → ℕ → Fs → Option Fs
  pub create : String → Fs → Option Fs
  pub file_size : String → Fs → Option ℕ
  pub rewind : String → Fs → Option (Unit {0})
  pub metadata_found :
      (p : String) (fs : Fs) (n : ℕ)
      → metadata p fs ≡ Metadata.found n
      → (bs : List ℕ) × (contents fs p ≡ some bs) × (length bs ≡ n)
  pub metadata_not_found :
      (p : String) (fs : Fs) → metadata p fs ≡ Metadata.not_found → contents fs p ≡ none
  pub open_write_keeps :
      (p : String) (fs fs' : Fs)
      → open_write p fs ≡ some fs'
      → (q : String) → contents fs' q ≡ contents fs q
  -- Truncated, or filled up with zeros.
  pub set_len_lem :
      (p : String) (n : ℕ) (fs fs' : Fs) (bs : List ℕ)
      → set_len p n fs ≡ some fs'
      → contents fs p ≡ some bs
      → contents fs' p ≡ some (resize n bs)
  pub set_len_keeps :
      (p : String) (n : ℕ) (fs fs' : Fs)
      → set_len p n fs ≡ some fs'
      → (q : String) → q ≢ p
      → contents fs' q ≡ contents fs q
  pub create_lem : (p : String) (fs fs' : Fs) → create p fs ≡ some fs' → contents fs' p ≡ some []
  pub create_keeps :
      (p : String) (fs fs' : Fs)
      → create p fs ≡ some fs'
      → (q : String) → q ≢ p
      → contents fs' q ≡ contents fs q
  pub file_size_lem :
      (p : String) (fs : Fs) (n : ℕ)
      → file_size p fs ≡ some n
      → (bs : List ℕ) × (contents fs p ≡ some bs) × (length bs ≡ n)

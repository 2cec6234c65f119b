-- ===== src/FileSystem/Memory.antt =====
-- A file in memory, to run the program on.
use deltasync.Base.{ℕ, ◌≡◌, ◌≢◌, refl, sym, ap, List, [], ◌∷◌, ◌++◌, arith, length, Option, some}
use deltasync.Bytes.{be}
use deltasync.Common.Buffer.{take_all}
use deltasync.Io.{AsyncWrite, IsOpen, Poll}
use deltasync.Io.Scripted.{not_zero}
use deltasync.FileSystem.SeekFile.{SeekFile, overwrite}

pub record Memory : Type 0 where
  pub old : List ℕ
  pub place : ℕ
  pub out : List ℕ

abbrev pub append_out : List ℕ → Memory → Option Memory
append_out bs s = some (record s { out = s.out ++ bs })

pub append_out_lem :
    (bs : List ℕ) (s s' : Memory) → append_out bs s ≡ some s' → s'.out ≡ s.out ++ bs
append_out_lem bs s s' e =
    let state : record s { out = s.out ++ bs } ≡ s' = cc in ap (λ (t : Memory). t.out) (sym state)

abbrev pub memory_file : AsyncWrite
memory_file = record {
  Sink = Memory;
  written = λ s. s.out;
  write = λ bs s. (Poll.ready (length bs), record s { out = s.out ++ bs });
  write_all = append_out;
  write_u8 = λ b. append_out (b ∷ []);
  write_u64 = λ n. append_out (be 8 n);
  write_takes = λ bs s. ap (◌++◌ s.out) (sym (take_all (length bs) bs (omega arith)));
  write_fits = λ bs s. omega arith;
  write_all_lem = append_out_lem;
  write_u8_lem = λ b. append_out_lem (b ∷ []);
  write_u64_lem = λ n. append_out_lem (be 8 n);
}

abbrev pub content_of : Memory → List ℕ
content_of s = overwrite s.old s.place s.out

abbrev pub seek_to : ℕ → Memory → Option Memory
seek_to n s = some (record { old = content_of s; place = n; out = [] })

pub seek_to_lem :
    (n : ℕ) (s s' : Memory)
    → seek_to n s ≡ some s'
    → (s'.place ≡ n) × (s'.old ≡ content_of s) × (s'.out ≡ [])
seek_to_lem n s s' e =
    let state : ◌≡◌ {A = Memory} (record { old = content_of s; place = n; out = [] }) s' = cc in
    (
      ap (λ (t : Memory). t.place) (sym state),
      ap (λ (t : Memory). t.old) (sym state),
      ap (λ (t : Memory). t.out) (sym state),
    )

pub kept : (s s' : Memory) → some s ≡ some s' → content_of s' ≡ content_of s
kept s s' e = let state : s ≡ s' = cc in ap content_of (sym state)

abbrev pub memory : SeekFile
memory = record {
  file = memory_file;
  start = λ s. s.place;
  base = λ s. s.old;
  content = content_of;
  seek = seek_to;
  flush = λ s. some s;
  sync_data = λ s. some s;
  content_lem = λ s. refl;
  write_keeps = λ bs s. (refl, refl);
  seek_lem = seek_to_lem;
  flush_keeps = kept;
  sync_keeps = kept;
}

pub memory-IsOpen : IsOpen memory_file
memory-IsOpen b bs s = not_zero (length bs) (length (b ∷ bs)) refl

pub memory-unfailed : (bs : List ℕ) (s : Memory) → (memory_file.write bs s).0 ≢ Poll.failed
memory-unfailed bs s = λ e. cc

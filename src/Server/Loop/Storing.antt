-- ===== src/Server/Loop/Storing.antt =====
-- A poll of the disk future of src/server.rs keeps the invariant.
use deltasync.Base.{
  ℕ, ◌≤◌, ◌≡◌, refl, sym, ap, subst, ◌∙◌, List, [], ◌∷◌, ◌++◌, Option, none, some, inl, inr, length,
  drop,
}
use deltasync.Io.{AsyncRead, AsyncWrite, IsOpen, Outcome, Turn}
use deltasync.FileSystem.SeekFile.{SeekFile, overwrite}
use deltasync.Common.Drain.Kept.{drain-kept}
use deltasync.Common.WriteBlock.Steady.{IsSteady, IsUnfailed, drain-IsUnfailed}
use deltasync.Common.WriteString.{WriteAll, write_all, Wrote, drain-Wrote}
use deltasync.Select.{Received}
use deltasync.Server.Loop.{Server, on_disk, poll_disk}
use deltasync.Server.Loop.Patch.{Blocks, patch, patch-append}
use deltasync.Server.Loop.Invariant.{Inv, Holds, Stores}

module _ (r : AsyncRead) (w : AsyncWrite) (disk : SeekFile) (hasher : ℕ → Received)
    (block_size filesize : ℕ) (wire old sent : List ℕ) where
  open r use {Source}
  open w use {Sink}
  open disk use {file, start, base, content, content_lem, write_keeps}

  write_all-same :
      (rwa : WriteAll) (buf : List ℕ) (f : file.Sink)
      → let t = write_all file rwa buf f in (start t.stream ≡ start f) × (base t.stream ≡ base f)
  unfolding write_all
  write_all-same rwa buf f =
      drain-kept file (λ f'. (start f' ≡ start f) × (base f' ≡ base f))
        (λ bs f' h. let k = write_keeps bs f' in (k.0 ∙ h.0, k.1 ∙ h.1)) rwa.offset buf f
        (refl, refl)

  write_all-IsUnfailed :
      IsSteady file
      → (rwa : WriteAll) (buf : List ℕ) (f : file.Sink)
      → IsUnfailed (write_all file rwa buf f).outcome
  unfolding write_all
  write_all-IsUnfailed steady rwa buf f = drain-IsUnfailed file steady rwa.offset buf f

  write_all-Wrote :
      IsOpen file
      → (rwa : WriteAll) (buf total : List ℕ) (f : file.Sink) → rwa.offset ≤ length buf
      → file.written f ++ drop rwa.offset buf ≡ total
      → let t = write_all file rwa buf f in Wrote file total buf t.self.offset t.outcome t.stream
  unfolding write_all
  write_all-Wrote opened rwa buf total f le e = drain-Wrote file opened rwa.offset buf f total le e

  -- A block that is written is in the file.
  stored :
      (done : Blocks) (prev : Blocks) (buf : List ℕ) (f : file.Sink)
      → done ≡ prev ++ (start f, buf) ∷ []
      → base f ≡ patch prev old
      → file.written f ≡ buf
      → content f ≡ patch done old
  unfolding patch
  stored done prev buf f split from all =
      content_lem f
      ∙ ap (overwrite (base f) (start f)) all
      ∙ ap (λ (c : List ℕ). overwrite c (start f) buf) from
      ∙ sym (patch-append prev ((start f, buf) ∷ []) old)
      ∙ ap (λ (bs : Blocks). patch bs old) (sym split)

  pub poll_disk-Holds :
      IsOpen file
      → IsSteady file
      → (s : Server Source Sink file.Sink) (rwa : Option WriteAll)
      → s.resumable_write_block_to_disk ≡ rwa
      → Inv r w disk hasher block_size filesize wire old sent s
      → Holds r w disk hasher block_size filesize wire old sent (poll_disk r w disk hasher s rwa)
  unfolding poll_disk on_disk
  poll_disk-Holds opened steady s none e v = v
  poll_disk-Holds opened steady s (some rwa) e v =
      let t = write_all file rwa s.write_buffer s.file in
      let (prev, split, from, le, kept) =
        subst
          (λ (x : Option WriteAll).
            Stores r w disk hasher block_size filesize wire old sent v.done x s.write_buffer s.file)
          e v.stores in
      let (at, same) = write_all-same rwa s.write_buffer s.file in
      let split' : v.done ≡ prev ++ (start t.stream, s.write_buffer) ∷ [] =
        split ∙ ap (λ (n : ℕ). prev ++ (n, s.write_buffer) ∷ []) (sym at) in
      elim (write_all-Wrote opened rwa s.write_buffer s.write_buffer s.file le kept) [
        | inl (o, all) ↦ with_outcome t (Outcome.done tt) o (record {
          done = v.done;
          receives = v.receives;
          stores = stored v.done prev s.write_buffer t.stream split' (same ∙ from) all;
          answers = v.answers;
          ended = v.ended;
          counted = v.counted;
        })
        | inr (inl (o, le', kept')) ↦ with_outcome t Outcome.cancelled o (record {
          done = v.done;
          receives = v.receives;
          stores = (prev, split', same ∙ from, le', kept');
          answers = v.answers;
          ended = v.ended;
          counted = v.counted;
        })
        | inr (inr (o, le', h)) ↦
            absurd (subst IsUnfailed o (write_all-IsUnfailed steady rwa s.write_buffer s.file))
      ]
    where
      with_outcome :
          (t : Turn WriteAll file.Sink (Unit {0})) (o : Outcome (Unit {0}))
          → t.outcome ≡ o
          → Holds r w disk hasher block_size filesize wire old sent (
              on_disk o (record s { resumable_write_block_to_disk = some t.self; file = t.stream }))
          → Holds r w disk hasher block_size filesize wire old sent (
              on_disk t.outcome
                (record s { resumable_write_block_to_disk = some t.self; file = t.stream }))
      with_outcome t o e h =
          subst
            (λ (x : Outcome (Unit {0})). Holds r w disk hasher block_size filesize wire old sent (
              on_disk x
                (record s { resumable_write_block_to_disk = some t.self; file = t.stream })))
            (sym e) h

-- ===== src/Session/Copy.antt =====
-- The two event loops of a session, each on what the other one sends.
use deltasync.Base.{
  ℕ, suc, ◌+◌, ◌-◌, ◌*◌, ◌^◌, ◌≤◌, ◌<◌, ◌≡◌, refl, ap, sym, ◌∙◌, ◌++◌, List, [], true, length,
  arith, none, ltb, Bool-cases, inl, inr, subst,
}
use native.Mathlib.Nat.{lt-mul-div-succ, mul_comm, suc-mul, le-div_iff_mul-le}
use deltasync.Bytes.{is_utf8}
use deltasync.Io.{AsyncRead, AsyncWrite, IsOpen, Result}
use deltasync.FileSystem.SeekFile.{SeekFile}
use deltasync.Common.Status.{StatusCode}
use deltasync.Common.WriteBlock.Steady.{IsSteady}
use deltasync.Client.Loop as ClientLoop
use deltasync.Client.Loop.{Client, div_ceil}
use deltasync.Client.Loop.Run.{select_loop-breaks}
use deltasync.HashAlgorithm.{HashAlgorithm}
use deltasync.HashFile.{Digests, hash_data}
use deltasync.HashFile.Offsets.{block_of}
use deltasync.Select.{breaks, value}
use deltasync.Common.Frame.{append_injective}
use deltasync.Server.Loop.Patch.{frames}
use deltasync.Server.Loop as ServerLoop
use deltasync.Server.Loop.{Server, finish}
use deltasync.Server.Loop.Invariant.{Holds}
use deltasync.Server.Loop.Answering.{idle_sent}
use deltasync.Server.Loop.Run.{serve_loop-begin}
use deltasync.Server.Loop.Whole.{serve_loop-stores}
use deltasync.Session.Diff.{
  diffs, due-frames, hashing, local, remote, HasNoCollision, diffs-AreBlocks, patch-all,
}

-- `div_ceil(block_size)` blocks begin within the file and reach its end.
module _ (size block_size : ℕ) (positive : 0 < block_size) where
  pub div_ceil-reaches : size ≤ div_ceil size block_size * block_size
  div_ceil-reaches =
      let n = div_ceil size block_size in
      let below : size + block_size - 1 < block_size * (n + 1) =
        lt-mul-div-succ (size + block_size - 1) positive in
      let split : block_size * (n + 1) ≡ block_size + n * block_size =
        mul_comm block_size (n + 1)
        ∙ ap (λ (x : ℕ). x * block_size) (let e : n + 1 ≡ suc n = omega arith in e)
        ∙ suc-mul n block_size
        ∙ omega arith in
      omega (arith, below, split)

  pub div_ceil-within : (k : ℕ) → k < div_ceil size block_size → k * block_size < size
  div_ceil-within k h =
      let le : suc k * block_size ≤ size + block_size - 1 =
        (le-div_iff_mul-le {k = block_size} {x = suc k} {y = size + block_size - 1} positive).0
          (omega (arith, h)) in
      omega (arith, le, suc-mul k block_size)

  pub div_ceil-positive : 0 < size → 0 < div_ceil size block_size
  div_ceil-positive h =
      let le : 1 ≤ div_ceil size block_size =
        (le-div_iff_mul-le {k = block_size} {x = 1} {y = size + block_size - 1} positive).1
          (omega arith) in
      omega (arith, le)

module _ (rc : AsyncRead) (wc : AsyncWrite) (rs : AsyncRead) (ws : AsyncWrite) (disk : SeekFile)
    (d : Digests) (algorithm : HashAlgorithm) (block_size : ℕ) (src : List ℕ) where
  open disk use {file, content}

  -- The hashes are ASCII of at most 256 bytes, as those of `hash_data` are.
  abbrev pub HasProperHashes : Type 0
  HasProperHashes =
      (bs : List ℕ)
      → (is_utf8 (hash_data d bs algorithm) ≡ true) × (length (hash_data d bs algorithm) ≤ 256)

  pub remote-proper :
      HasProperHashes
      → (old : List ℕ) (j : ℕ)
      → (is_utf8 (remote d algorithm block_size src old j) ≡ true)
        × (length (remote d algorithm block_size src old j) ≤ 256)
  unfolding hashing is_utf8
  remote-proper proper old j = elim (Bool-cases (ltb (j * block_size) (length old))) [
    | inl e ↦ rw e (proper (block_of block_size old j))
    | inr e ↦ rw e (refl, omega arith)
  ]

  abbrev ServerState : Type 0
  ServerState = Server rs.Source ws.Sink file.Sink

  -- The two event loops bring the destination to the content of the source: where the loop of the
  -- client, fed with what the server has written, and that of the server, fed with what the client
  -- has written, are both left by `break`, in whatever order their branches were polled and futures
  -- dropped, and `flush` and `sync_data` succeed, the server answers `Ack` and its file is the
  -- source. The source has from 1 to 2^64 - 1 bytes, the file of the server as many, blocks one
  -- byte at least; each side hashes its file as it was at the start; two blocks at one place with
  -- one hash are the same; hashes are UTF-8 of at most 256 bytes; both writers and the file never
  -- fail and answer 0 to an empty buffer only; what each side reads is what the other one has
  -- written from the start of its loop on; the server has read all that the client wrote and has no
  -- hash in hand at its break.
  pub session_copies :
      IsOpen wc
      → IsSteady wc
      → IsOpen ws
      → IsSteady ws
      → IsOpen file
      → IsSteady file
      → HasProperHashes
      → 0 < block_size
      → 0 < length src
      → length src < 2 ^ 64
      → (polls : List ClientLoop.Branch) (polls' : List ServerLoop.Branch) (rx : rc.Source)
        (tx : wc.Sink) (rx' : rs.Source) (tx' : ws.Sink) (f f' : file.Sink)
        (c : Client rc.Source wc.Sink) (s : ServerState) (code : StatusCode)
      → length src ≡ length (content f)
      → HasNoCollision d algorithm block_size src (content f)
      → ClientLoop.select_loop rc wc
          (λ k. value (local d algorithm block_size src (content f) k))
          block_size
          (div_ceil (length src) block_size)
          polls
          (ClientLoop.begin rx tx)
        ≡ breaks c
      → ServerLoop.serve_loop rs ws disk
          (hashing d algorithm block_size (content f))
          polls'
          (ServerLoop.begin block_size (length src) rx' tx' f)
        ≡ breaks s
      → ws.written s.client_tx ≡ ws.written tx' ++ rc.unread rx
      → wc.written c.stream_tx ≡ wc.written tx ++ rs.unread rx'
      → s.resumable_write_hash ≡ none
      → rs.unread s.client_rx ≡ []
      → finish rs ws disk (hashing d algorithm block_size (content f)) s ≡ Result.ok (code, f')
      → (code ≡ StatusCode.ack) × (content f' ≡ src)
  session_copies oc sc os ss of sf proper positive nonempty small polls polls' rx tx rx' tx' f f' c
        s code same sound client server back forth idle eof done =
      let n = div_ceil (length src) block_size in
      let old = content f in
      let hasher = hashing d algorithm block_size old in
      let reached = div_ceil-reaches (length src) block_size positive in
      let within = div_ceil-within (length src) block_size positive in
      let served : Holds rs ws disk hasher block_size (length src) (rs.unread rx') old
          (ws.written tx') (breaks s) =
        subst (Holds rs ws disk hasher block_size (length src) (rs.unread rx') old (ws.written tx'))
          server
          (serve_loop-begin rs ws disk hasher block_size (length src) (rs.unread rx') old
            (ws.written tx') os ss of sf polls' rx' tx' f refl refl refl) in
      let heard =
        (append_injective (ws.written tx') (ws.written tx') refl (
          sym back
          ∙ idle_sent rs ws disk hasher block_size (length src) (rs.unread rx') old (ws.written tx')
              s idle served.0)).1 in
      let sent =
        select_loop-breaks rc wc (local d algorithm block_size src old)
          (remote d algorithm block_size src old) (wc.written tx) block_size n oc sc
          (remote-proper proper old) polls rx tx s.hashed c
          (div_ceil-positive (length src) block_size positive nonempty) heard refl client in
      let blocks =
        diffs (local d algorithm block_size src old) (remote d algorithm block_size src old)
          block_size n in
      let came : rs.unread rx' ≡ frames blocks =
        (append_injective (wc.written tx) (wc.written tx) refl (
          sym forth
          ∙ sent
          ∙ due-frames (local d algorithm block_size src old)
              (remote d algorithm block_size src old) block_size (wc.written tx) n)).1 in
      let (ack, copied) =
        serve_loop-stores rs ws disk hasher block_size (length src) os ss of sf polls' rx' tx' f f'
          s code blocks came (diffs-AreBlocks d algorithm block_size src old n small within) server
          eof done in
      (ack, copied ∙ patch-all d algorithm block_size src old n sound same small within reached)

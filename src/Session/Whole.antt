-- ===== src/Session/Whole.antt =====
-- A session from the handshakes of src/client.rs and src/server.rs to the end of their event loops.
mod Examples
use deltasync.Base.{
  ℕ, ◌≤◌, ◌<◌, ◌^◌, ◌≡◌, refl, sym, ap, subst, ◌∙◌, List, [], ◌∷◌, ◌++◌, length, none, some,
  some_injective, arith, inl, inr,
}
use deltasync.Bytes.{IsU64}
use deltasync.Io.{AsyncRead, AsyncWrite, IsOpen, Result}
use deltasync.FileSystem.{FileSystem}
use deltasync.FileSystem.SeekFile.{SeekFile}
use deltasync.Common.Buffer.{resize, length-resize}
use deltasync.Common.Status.{StatusCode, write_status}
use deltasync.Common.WriteBlock.Steady.{IsSteady}
use deltasync.Client.Agreement.{accept-greet}
use deltasync.Client.Greeting.{greet_sent}
use deltasync.Client.Loop as ClientLoop
use deltasync.Client.Loop.{Client, div_ceil}
use deltasync.Client.Loop.Run.{select_loop-breaks}
use deltasync.Client.Request.{ClientProcessOptions, greet}
use deltasync.Client.Steps.{request_of}
use deltasync.HashAlgorithm.{HashAlgorithm}
use deltasync.HashFile.{Digests}
use deltasync.Select.{breaks, value}
use deltasync.Server.Dest.{prepare_dest, prepare_dest-Prepares}
use deltasync.Server.Loop as ServerLoop
use deltasync.Server.Loop.{Server, finish}
use deltasync.Server.Loop.Answering.{idle_sent}
use deltasync.Server.Loop.Invariant.{Holds}
use deltasync.Server.Loop.Patch.{frames}
use deltasync.Server.Loop.Run.{serve_loop-begin}
use deltasync.Server.Request.{Request, pass, accept, max_block_size}
use deltasync.Server.Request.Sound.{accept_sound}
use deltasync.Session.Copy.{HasProperHashes, remote-proper, div_ceil-positive, session_copies}
use deltasync.Session.Diff.{diffs, due-frames, hashing, local, remote, HasNoCollision}
use deltasync.Common.Frame.{append_injective}

module _ (rc : AsyncRead) (wc : AsyncWrite) (rs : AsyncRead) (ws : AsyncWrite) (disk : SeekFile)
    (sysc sys : FileSystem) (d : Digests) where
  open disk use {file, content}

  -- Behind the handshake the server has written three acknowledgements.
  acks :
      (secret : List ℕ) (io : rs.Source) (out : ws.Sink) (q : Request) (rx' : rs.Source)
      (tx1 tx' : ws.Sink)
      → accept rs ws secret io out ≡ pass (q, rx', tx1)
      → ws.written out ≡ []
      → write_status ws StatusCode.ack tx1 ≡ some tx'
      → ws.written tx' ≡ 0 ∷ 0 ∷ 0 ∷ []
  unfolding write_status
  acks secret io out q rx' tx1 tx' ok fresh last =
      let (io2, sent, request, two) = accept_sound rs ws secret io out q rx' tx1 ok in
      ws.write_u8_lem 0 tx1 tx' last
      ∙ ap (λ (x : List ℕ). x ++ 0 ∷ []) (two ∙ ap (λ (x : List ℕ). x ++ 0 ∷ 0 ∷ []) fresh)

  -- The destination has the size that the request asks for.
  prepared-size :
      (q : Request) (fs fs' : sys.Fs) (bs : List ℕ)
      → prepare_dest sys q fs ≡ pass fs'
      → sys.contents fs' q.dest_path ≡ some bs
      → length bs ≡ q.filesize
  prepared-size q fs fs' bs ok found =
      let (new, touched, others) = prepare_dest-Prepares sys q fs fs' ok in
      ap length (some_injective (sym found ∙ new)) ∙ length-resize q.filesize _

  -- A session brings the destination to the content of the source: where the handshake of the
  -- client succeeds, the server with the same secret accepts, prepares the destination and sends
  -- the last acknowledgement, both event loops are left by `break`, in whatever order their
  -- branches were polled and futures dropped, and `flush` and `sync_data` succeed, the server
  -- answers `Ack` and the file is the source. Each side reads what the other one has written, from
  -- the first byte on. The source has at most 2^64 - 1 bytes, the block size is from 1 to 2^30, the
  -- path has at most 4096 bytes; the file that the server opens holds what it has prepared, and
  -- each side hashes its file as it was at the start; two blocks at one place with one hash are the
  -- same; hashes are UTF-8 of at most 256 bytes; both writers and the file never fail and answer 0
  -- to an empty buffer only; the server has read all that the client wrote and has no hash in hand
  -- at its break.
  pub session_whole :
      IsOpen wc
      → IsSteady wc
      → IsOpen ws
      → IsSteady ws
      → IsOpen file
      → IsSteady file
      → (options : ClientProcessOptions) (src : List ℕ) → 0 < options.block_size
      → options.block_size ≤ max_block_size
      → length options.dest ≤ 4096
      → length src < 2 ^ 64
      → ((a : HashAlgorithm) → HasProperHashes rc wc rs ws disk d a options.block_size src)
      → (fsc : sysc.Fs) (io rx : rc.Source) (out tx : wc.Sink) (size : ℕ) (fs fs' : sys.Fs)
        (io' rx' : rs.Source) (out' tx1 tx' : ws.Sink) (q : Request)
      → sysc.contents fsc options.src_path ≡ some src
      → greet rc wc sysc options fsc io out ≡ Result.ok (size, rx, tx)
      → accept rs ws options.secret io' out' ≡ pass (q, rx', tx1)
      → prepare_dest sys q fs ≡ pass fs'
      → write_status ws StatusCode.ack tx1 ≡ some tx'
      → (f f' : file.Sink) (c : Client rc.Source wc.Sink) (s : Server rs.Source ws.Sink file.Sink)
        (code : StatusCode) (polls : List ClientLoop.Branch) (polls' : List ServerLoop.Branch)
      → sys.contents fs' q.dest_path ≡ some (content f)
      → HasNoCollision d options.hash_algorithm options.block_size src (content f)
      → ClientLoop.select_loop rc wc
          (λ k. value (local d options.hash_algorithm options.block_size src (content f) k))
          options.block_size
          (div_ceil size options.block_size)
          polls
          (ClientLoop.begin rx tx)
        ≡ breaks c
      → ServerLoop.serve_loop rs ws disk
          (hashing d q.hash_algorithm q.block_size (content f))
          polls'
          (ServerLoop.begin q.block_size q.filesize rx' tx' f)
        ≡ breaks s
      → wc.written out ≡ []
      → ws.written out' ≡ []
      → rc.unread io ≡ ws.written s.client_tx
      → rs.unread io' ≡ wc.written c.stream_tx
      → s.resumable_write_hash ≡ none
      → rs.unread s.client_rx ≡ []
      → finish rs ws disk (hashing d q.hash_algorithm q.block_size (content f)) s
        ≡ Result.ok (code, f')
      → (code ≡ StatusCode.ack) × (content f' ≡ src)
  session_whole oc sc os ss of sf options src positive bound short small proper fsc io rx out tx
        size fs fs' io' rx' out' tx1 tx' q source greeted accepted prepared last f f' c s code polls
        polls' found sound client server fresh fresh' back forth idle eof done =
      let old = content f in
      let (secret_fits, (utf8, nonempty, (bytes, there, sized)), told, sent) =
        greet_sent rc wc sysc options fsc io out size rx tx greeted in
      let same : length src ≡ size = ap length (some_injective (sym source ∙ there)) ∙ sized in
      let served : Holds rs ws disk (hashing d q.hash_algorithm q.block_size old) q.block_size
          q.filesize (rs.unread rx') old (ws.written tx') (breaks s) =
        subst
          (Holds rs ws disk (hashing d q.hash_algorithm q.block_size old) q.block_size q.filesize
            (rs.unread rx') old (ws.written tx'))
          server
          (serve_loop-begin rs ws disk (hashing d q.hash_algorithm q.block_size old) q.block_size
            q.filesize (rs.unread rx') old (ws.written tx') os ss of sf polls' rx' tx' f refl refl
            refl) in
      let behind_acks : ws.written s.client_tx ≡ ws.written tx' ++ rc.unread rx =
        sym back
        ∙ told
        ∙ ap (λ (x : List ℕ). x ++ rc.unread rx)
            (sym (acks options.secret io' out' q rx' tx1 tx' accepted fresh' last)) in
      let heard =
        (append_injective (ws.written tx') (ws.written tx') refl (
          sym behind_acks
          ∙ idle_sent rs ws disk (hashing d q.hash_algorithm q.block_size old) q.block_size
              q.filesize (rs.unread rx') old (ws.written tx') s idle served.0)).1 in
      let mine = local d options.hash_algorithm options.block_size src old in
      let theirs = remote d q.hash_algorithm q.block_size src old in
      let n = div_ceil size options.block_size in
      let blocks = frames (diffs mine theirs options.block_size n) in
      let behind_request : wc.written c.stream_tx ≡ wc.written tx ++ blocks =
        select_loop-breaks rc wc mine theirs (wc.written tx) options.block_size n oc sc
          (remote-proper rc wc rs ws disk d q.hash_algorithm q.block_size src
            (proper q.hash_algorithm) old)
          polls rx tx s.hashed c (div_ceil-positive size options.block_size positive nonempty) heard
          refl client
        ∙ due-frames mine theirs options.block_size (wc.written tx) n in
      elim (accept-greet rc wc sysc rs ws options fsc io out size rx tx io' out' blocks greeted
        fresh (forth ∙ behind_request) positive bound (omega (arith, small, same)) short) [
          | inl failed ↦ absurd (cc (sym accepted ∙ failed))
          | inr (src', sink', ok, rest) ↦
              let asked : q ≡ request_of options size = cc (sym accepted ∙ ok) in
              let stream : src' ≡ rx' = cc (sym accepted ∙ ok) in
              let came : wc.written c.stream_tx ≡ wc.written tx ++ rs.unread rx' =
                behind_request ∙ ap (◌++◌ (wc.written tx)) (sym rest ∙ ap rs.unread stream) in
              let asked' : q ≡ request_of options (length src) =
                asked ∙ ap (request_of options) (sym same) in
              session_copies rc wc rs ws disk d options.hash_algorithm options.block_size src oc sc
                os ss of sf (proper options.hash_algorithm) positive (omega (arith, nonempty, same))
                small polls polls' rx tx rx' tx' f f' c s code
                (same
                  ∙ sym (ap (λ (x : Request). x.filesize) asked)
                  ∙ sym (prepared-size q fs fs' old prepared found))
                sound
                (subst
                  (λ (m : ℕ).
                    ClientLoop.select_loop rc wc (λ k. value (mine k)) options.block_size
                      (div_ceil m options.block_size) polls (ClientLoop.begin rx tx)
                    ≡ breaks c)
                  (sym same) client)
                (subst
                  (λ (x : Request).
                    ServerLoop.serve_loop rs ws disk (hashing d x.hash_algorithm x.block_size old)
                      polls' (ServerLoop.begin x.block_size x.filesize rx' tx' f)
                    ≡ breaks s)
                  asked' server)
                behind_acks came idle eof
                (subst
                  (λ (x : Request).
                    finish rs ws disk (hashing d x.hash_algorithm x.block_size old) s
                    ≡ Result.ok (code, f'))
                  asked' done)
        ]

-- ===== src/Client/Agreement.antt =====
-- The handshake of src/client.rs against that of src/server.rs.
use deltasync.Base.{ℕ, ◌≤◌, ◌<◌, ◌≡◌, ap, ◌∙◌, List, [], ◌∷◌, ◌++◌, ◌⊎◌, length}
use deltasync.Bytes.{IsU64}
use deltasync.FileSystem.{FileSystem}
use deltasync.Io.{AsyncRead, AsyncWrite, Error, Result}
use deltasync.Server.Request.{pass, fail, accept, max_block_size, protocol_version}
use deltasync.Server.Request.Secret.{hello, request_bytes}
use deltasync.Server.Request.Complete.{accept_complete}
use deltasync.Client.Request.{ClientProcessOptions, flag_of, greet}
use deltasync.Client.Steps.{request_of, flag_of-IsFlag}
use deltasync.Client.Greeting.{greet_sent}

module _ (r : AsyncRead) (w : AsyncWrite) (sys : FileSystem) (r' : AsyncRead)
    (w' : AsyncWrite) where
  -- What a client whose handshake succeeds has written, the server with the same secret accepts,
  -- unless its connection fails, as the request that the options and the size of the source make,
  -- and leaves what is behind it on the stream. The block size is from 1 to 2^30, the size of the
  -- source a `u64` and the path of at most 4096 bytes.
  pub accept-greet :
      (options : ClientProcessOptions) (fs : sys.Fs) (io : r.Source) (out : w.Sink) (src_size : ℕ)
      (io1 : r.Source) (out1 : w.Sink) (src : r'.Source) (sink : w'.Sink) (rest : List ℕ)
      → greet r w sys options fs io out ≡ Result.ok (src_size, io1, out1)
      → w.written out ≡ []
      → r'.unread src ≡ w.written out1 ++ rest
      → 0 < options.block_size
      → options.block_size ≤ max_block_size
      → IsU64 src_size
      → length options.dest ≤ 4096
      → (accept r' w' options.secret src sink ≡ fail Error.io)
        ⊎ ((src' : r'.Source) × (sink' : w'.Sink) × (accept r' w' options.secret src sink
              ≡ pass (request_of options src_size, src', sink'))
            × (r'.unread src' ≡ rest))
  accept-greet options fs io out src_size io1 out1 src sink rest ok empty wire pos bound fits
        short =
      let (small, (utf8, positive, source), acks, sent) =
        greet_sent r w sys options fs io out src_size io1 out1 ok in
      let flag = flag_of options.force_truncate in
      let q = request_of options src_size in
      accept_complete r' w' options.secret src sink q flag rest small
        (pos, bound, fits, short, utf8) (flag_of-IsFlag options.force_truncate)
        (wire
          ∙ ap (λ (xs : List ℕ). xs ++ rest)
              (sent
                ∙ ap
                    (λ (xs : List ℕ).
                      xs ++ (hello options.secret ++ protocol_version ∷ request_bytes q flag))
                    empty))

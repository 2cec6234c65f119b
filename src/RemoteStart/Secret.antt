-- ===== src/RemoteStart/Secret.antt =====
-- The secret that src/remote_start.rs returns is the one that it has drawn.
use deltasync.Base.{◌≡◌, sym, ap, [], ◌++◌}
use deltasync.Bytes.{String}
use deltasync.Io.{AsyncRead, Result}
use deltasync.RemoteStart.{
  RemoteStartOptions, make_temporary, open_executable, run_command, server_command, random_secret,
  start_server, upload_program, deploy, connect, remote_start_server,
}
use deltasync.RemoteStart.Text.{text}
use deltasync.RemoteStart.Session.{History, Answers}
use deltasync.RemoteStart.Log.{invert}

module _ (w : Answers) where
  abbrev pub IsDrawn : String → Type 0
  IsDrawn secret = (h : History) × (secret ≡ w.random_secret h)

  start_server-IsDrawn :
      (options : RemoteStartOptions) (name : String) (h : History) (secret : String) (h' : History)
      → start_server w options name h ≡ (Result.ok secret, h')
      → IsDrawn secret
  unfolding start_server random_secret
  start_server-IsDrawn options name h secret h' e =
      invert (run_command w (server_command w options name (w.random_secret h))) _ h secret h' e
        (λ u h1 started e1. (h, sym (ok_injective (ap (λ (p : Result String × History). p.0) e1))))
    where
      ok_injective : {x y : String} → ◌≡◌ {A = Result String} (Result.ok x) (Result.ok y) → x ≡ y
      ok_injective q = cc

  module _ (r : AsyncRead) where
    open r use {Source}

    deploy-IsDrawn :
        (options : RemoteStartOptions) (src : Source) (h : History) (secret : String) (h' : History)
        → deploy w r options src h ≡ (Result.ok secret, h')
        → IsDrawn secret
    unfolding deploy
    deploy-IsDrawn options src h secret h' e =
        invert (make_temporary w) _ h secret h' e (λ name h1 made e1.
          invert (open_executable w) _ h1 secret h' e1 (λ u h2 opened e2.
            invert (upload_program w r name src) _ h2 secret h' e2 (λ u' h3 uploaded e3.
              invert (run_command w (text "chmod +x " ++ name)) _ h3 secret h' e3
                (λ u'' h4 marked e4. start_server-IsDrawn options name h4 secret h' e4))))

    pub remote_start_server-IsDrawn :
        (options : RemoteStartOptions) (src : Source) (secret : String)
        → (remote_start_server w r options src []).0 ≡ Result.ok secret
        → IsDrawn secret
    unfolding remote_start_server
    remote_start_server-IsDrawn options src secret e =
        let h = (remote_start_server w r options src []).1 in
        invert (connect w options) _ [] secret h (λ i. (e i, h))
          (λ u h1 connected e1. deploy-IsDrawn options src h1 secret h e1)

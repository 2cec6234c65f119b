-- ===== src/RemoteStart/Run.antt =====
-- `remote_start_server` of src/remote_start.rs as a whole.
use deltasync.Base.{ℕ, ◌≡◌, refl, ap, subst, ◌∙◌, List, [], ◌∷◌, ◌++◌, true, ◌⊎◌, inl, inr}
use deltasync.Bytes.{String}
use deltasync.Io.{AsyncRead, Result}
use deltasync.RemoteStart.{RemoteStartOptions, deploy, connect, remote_start_server}
use deltasync.RemoteStart.Session.{History, Answers, and_then}
use deltasync.RemoteStart.Log.{commands, uploads, invert}
use deltasync.RemoteStart.Deploy.{IsNamed, remote_commands, deploy-Deploys}
use deltasync.RemoteStart.Connect.{IsQuiet, connect-authenticated, connect-IsQuiet}
use deltasync.RemoteStart.Secret.{IsDrawn, remote_start_server-IsDrawn}
use deltasync.RemoteStart.Text.{text, to_string}
use deltasync.RemoteStart.Grow.{deploy-Grows}

module _ (w : Answers) (r : AsyncRead) where
  open r use {Source, unread}

  -- Whatever the calls answer, `remote_start_server` runs no command on the remote end and sends no
  -- byte to one, or it did so only after calls which ran none and sent nothing and behind which the
  -- session was authenticated.
  pub remote_start_server-authenticated :
      (options : RemoteStartOptions) (src : Source)
      → let h = (remote_start_server w r options src []).1 in
        IsQuiet h
        ⊎ ((before : History) × (rest : History) × (h ≡ before ++ rest)
            × (w.authenticated before ≡ true)
            × IsQuiet before)
  unfolding remote_start_server
  remote_start_server-authenticated options src =
      go (connect w options []).0 (connect w options []).1 refl (connect-IsQuiet w options)
    where
      go :
          (o : Result (Unit {0})) (h : History)
          → ◌≡◌ {A = Result (Unit {0}) × History} (connect w options []) (o, h)
          → IsQuiet h
          → let h' = (and_then o h (λ u. deploy w r options src)).1 in
            IsQuiet h'
            ⊎ ((before : History) × (rest : History) × (h' ≡ before ++ rest)
                × (w.authenticated before ≡ true)
                × IsQuiet before)
      go (Result.err e) h same quiet = inl quiet
      go (Result.ok u) h same quiet =
          let (rest, grown, any) = deploy-Grows w r options src h in
          inr (h, rest, grown, connect-authenticated w options [] u h same, quiet)

  -- Where `remote_start_server` returns a secret, it is the one that was drawn, and the commands
  -- run are `mktemp`, `cat` into the file, `chmod +x` and the file with `--server -d -e -o`, the
  -- port, that secret and the number of workers, each as it is written out here, in this order and
  -- no other, for the name that the remote end answered, trimmed; and the bytes sent are those of
  -- the executable.
  pub remote_start_server-Deploys :
      (options : RemoteStartOptions) (src : Source) (secret : String) (h : History)
      → remote_start_server w r options src [] ≡ (Result.ok secret, h)
      → (name : String) × IsNamed w name
        × IsDrawn w secret
        × (commands h
            ≡ text "mktemp --tmpdir deltasync.XXXXXXXX"
              ∷ (text "cat >" ++ name)
              ∷ (text "chmod +x " ++ name)
              ∷ (name
                  ++ text " --server -d -e -o --port \""
                  ++ to_string options.server_port
                  ++ text "\" --secret \""
                  ++ secret
                  ++ text "\" -w "
                  ++ to_string options.workers)
              ∷ [])
        × (uploads h ≡ unread src)
  unfolding remote_start_server
  remote_start_server-Deploys options src secret h e =
      invert (connect w options) _ [] secret h e (λ u h1 connected e1.
        let (name, named, (run, sent)) = deploy-Deploys w r options src h1 secret h e1 in
        let quiet : IsQuiet h1 =
          subst (λ (p : Result (Unit {0}) × History). IsQuiet p.1) connected
            (connect-IsQuiet w options) in
        (
          name,
          named,
          remote_start_server-IsDrawn w r options src secret
              (ap (λ (p : Result String × History). p.0) e),
          run ∙ ap (λ (cs : List String). cs ++ remote_commands w r options name secret) quiet.0,
          sent ∙ ap (λ (bs : List ℕ). bs ++ unread src) quiet.1,
        ))

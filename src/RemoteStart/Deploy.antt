-- ===== src/RemoteStart/Deploy.antt =====
-- The part of `remote_start_server` of src/remote_start.rs behind the authentication, where it
-- returns `Ok`.
use deltasync.Base.{
  ℕ, zero, suc, ◌≡◌, refl, ap, subst, List, [], ◌∷◌, ◌++◌, append-nil, length, arith,
}
use deltasync.Bytes.{String}
use deltasync.Io.{AsyncRead, Poll, Result, taken}
use deltasync.RemoteStart.{
  RemoteStartOptions, make_temporary, open_executable, run_command, server_command, random_secret,
  start_server, after_read, copy_loop, upload_program, deploy,
}
use deltasync.RemoteStart.Text.{text, trim, to_string}
use deltasync.RemoteStart.Session.{History, Call, Answers, M, answer, pure}
use deltasync.RemoteStart.Log.{
  call-Does, Between, Does, Any, logged, Between-trans, bind-Does, then-Does, step-Does,
  unwrap-Does, silent-Does, invert, failing,
}

ok_injective : {x y : String} → ◌≡◌ {A = Result String} (Result.ok x) (Result.ok y) → x ≡ y
ok_injective q = cc

module _ (w : Answers) where
  -- The file is named by what the remote end has answered.
  abbrev pub IsNamed : String → Type 0
  IsNamed name = (h : History) × (name ≡ trim (w.text h Call.read_to_string))

  abbrev pub mktemp : String
  mktemp = text "mktemp --tmpdir deltasync.XXXXXXXX"

  pure-Does : {A : Type 0} (a : A) (P : A → Type 0) → P a → Does (pure a) P [] []
  pure-Does a P p = silent-Does w (pure a) (λ h. a) P (λ h. refl) (λ h. p)

  -- What was answered to the call.
  answer-Does : (c : Call) → Does (answer w c) (λ s. (h : History) × (s ≡ w.text h c)) [] []
  answer-Does c =
      silent-Does w (answer w c) (λ h. w.text h c) (λ s. (h : History) × (s ≡ w.text h c))
        (unfold answer in λ h. refl) (λ h. (h, refl))

  make_temporary-Does : Does (make_temporary w) IsNamed (mktemp ∷ []) []
  unfolding make_temporary
  make_temporary-Does = step-Does w Call.channel_session _ IsNamed (mktemp ∷ []) [] (
      step-Does w (Call.exec mktemp) _ IsNamed [] [] (
        unwrap-Does w Call.read_to_string _ IsNamed [] [] (
          bind-Does (answer w Call.read_to_string) _ _ IsNamed [] [] [] []
            (answer-Does Call.read_to_string)
            (λ s named.
              step-Does w Call.wait_close _ IsNamed [] []
                (pure-Does (trim s) IsNamed (named.0, ap trim named.1))))))

  open_executable-Does : Does (open_executable w) Any [] []
  unfolding open_executable
  open_executable-Does = step-Does w Call.current_exe _ Any [] [] (
      bind-Does (answer w Call.current_exe) _ _ Any [] [] [] [] (answer-Does Call.current_exe)
        (λ path h. call-Does w (Call.open_file path)))

  run_command-Does : (command : String) → Does (run_command w command) Any (command ∷ []) []
  unfolding run_command
  run_command-Does command = step-Does w Call.channel_session _ Any (command ∷ []) [] (
      step-Does w (Call.exec command) _ Any [] []
        (step-Does w Call.wait_eof _ Any [] [] (call-Does w Call.wait_close)))

  module _ (r : AsyncRead) where
    open r use {Source, unread, read, read_takes, read_eof}

    after_read-Does :
        (again : Source → M (Unit {0})) (p : Poll (List ℕ)) (s : Source) (total : List ℕ)
        → ((s' : Source) → Does (again s') Any [] (unread s'))
        → total ≡ taken p ++ unread s
        → (p ≡ Poll.ready [] → total ≡ [])
        → Does (after_read w r again p s) Any [] total
    unfolding after_read
    after_read-Does again (Poll.ready []) s total ih e eof = rw (eof refl) (pure-Does tt Any tt)
    after_read-Does again (Poll.ready (b ∷ bs)) s total ih e eof =
        rw e (step-Does w (Call.write_all (b ∷ bs)) (again s) Any [] (unread s) (ih s))
    after_read-Does again Poll.pending s total ih e eof = λ h a h' q. absurd (failing q)
    after_read-Does again Poll.failed s total ih e eof = λ h a h' q. absurd (failing q)

    copy_loop-Does : (fuel : ℕ) (src : Source) → Does (copy_loop w r fuel src) Any [] (unread src)
    unfolding copy_loop
    copy_loop-Does zero src h a h' e = absurd (failing e)
    copy_loop-Does (suc fuel) src h a h' e =
        let p = read 1048576 src in
        let (any, between) =
          after_read-Does (λ s. copy_loop w r fuel s) p.0 p.1 (unread src)
            (λ s. copy_loop-Does fuel s) (read_takes 1048576 src)
            (read_eof 1048576 src (omega arith)) (h ++ Call.read_file ∷ []) a h' e in
        (
          any,
          Between-trans h (h ++ Call.read_file ∷ []) h' [] [] [] (unread src)
              (logged Call.read_file h) between,
        )

    upload_program-Does :
        (name : String) (src : Source)
        → Does (upload_program w r name src) Any ((text "cat >" ++ name) ∷ []) (unread src)
    unfolding upload_program
    upload_program-Does name src =
        step-Does w Call.channel_session _ Any ((text "cat >" ++ name) ∷ []) (unread src) (
          step-Does w (Call.exec (text "cat >" ++ name)) _ Any [] (unread src) (
            subst (Does _ Any []) (append-nil (unread src)) (
              then-Does (copy_loop w r (suc (length (unread src))) src) _ Any [] [] (unread src) []
                (copy_loop-Does (suc (length (unread src))) src)
                (step-Does w Call.send_eof _ Any [] []
                  (step-Does w Call.wait_eof _ Any [] [] (call-Does w Call.wait_close))))))

    -- The commands for a file of that name, as they are on the remote end.
    abbrev pub remote_commands : RemoteStartOptions → String → String → List String
    remote_commands options name secret =
        text "mktemp --tmpdir deltasync.XXXXXXXX"
        ∷ (text "cat >" ++ name)
        ∷ (text "chmod +x " ++ name)
        ∷ (name
            ++ text " --server -d -e -o --port \""
            ++ to_string options.server_port
            ++ text "\" --secret \""
            ++ secret
            ++ text "\" -w "
            ++ to_string options.workers)
        ∷ []

    -- Four commands were run, and the whole of the executable was uploaded.
    abbrev pub Deploys : RemoteStartOptions → Source → String → History → History → Type 0
    Deploys options src secret h h' =
        (name : String) × IsNamed name
        × Between h h' (remote_commands options name secret) (unread src)

    start_server-Between :
        (options : RemoteStartOptions) (name : String) (h : History) (secret : String)
        (h' : History)
        → start_server w options name h ≡ (Result.ok secret, h')
        → Between h h' (server_command w options name secret ∷ []) []
    unfolding start_server random_secret
    start_server-Between options name h secret h' e =
        invert (run_command w (server_command w options name (w.random_secret h))) _ h secret h' e
          (λ u h1 started e1.
            let same : ◌≡◌ {A = Result String × History} (Result.ok (w.random_secret h), h1)
                (Result.ok secret, h') =
              e1 in
            subst (λ (x : String). Between h h' (server_command w options name x ∷ []) [])
              (ok_injective (ap (λ (p : Result String × History). p.0) same))
              (subst
                (λ (x : History).
                  Between h x (server_command w options name (w.random_secret h) ∷ []) [])
                (ap (λ (p : Result String × History). p.1) same)
                (run_command-Does (server_command w options name (w.random_secret h)) h u h1
                  started).1))

    pub deploy-Deploys :
        (options : RemoteStartOptions) (src : Source) (h : History) (secret : String) (h' : History)
        → deploy w r options src h ≡ (Result.ok secret, h')
        → Deploys options src secret h h'
    unfolding deploy
    deploy-Deploys options src h secret h' e =
        invert (make_temporary w) _ h secret h' e (λ name h1 made e1.
          invert (open_executable w) _ h1 secret h' e1 (λ u h2 opened e2.
            invert (upload_program w r name src) _ h2 secret h' e2 (λ u' h3 uploaded e3.
              invert (run_command w (text "chmod +x " ++ name)) _ h3 secret h' e3
                (λ u'' h4 marked e4.
                  let (named, b1) = make_temporary-Does h name h1 made in
                  let b2 = (open_executable-Does h1 u h2 opened).1 in
                  let b3 = (upload_program-Does name src h2 u' h3 uploaded).1 in
                  let b4 = (run_command-Does (text "chmod +x " ++ name) h3 u'' h4 marked).1 in
                  let b5 = start_server-Between options name h4 secret h' e4 in
                  (name, named, gather options src name secret h h1 h2 h3 h4 h' b1 b2 b3 b4 b5)))))
      where
        gather :
            (options : RemoteStartOptions) (src : Source) (name secret : String)
            (h h1 h2 h3 h4 h' : History)
            → Between h h1 (mktemp ∷ []) []
            → Between h1 h2 [] []
            → Between h2 h3 ((text "cat >" ++ name) ∷ []) (unread src)
            → Between h3 h4 ((text "chmod +x " ++ name) ∷ []) []
            → Between h4 h' (server_command w options name secret ∷ []) []
            → Between h h' (remote_commands options name secret) (unread src)
        gather options src name secret h h1 h2 h3 h4 h' b1 b2 b3 b4 b5 =
            subst (Between h h' _) (append-nil (unread src)) (
              Between-trans h h2 h' (mktemp ∷ []) _ [] (unread src ++ [])
                (Between-trans h h1 h2 (mktemp ∷ []) [] [] [] b1 b2)
                (Between-trans h2 h3 h' ((text "cat >" ++ name) ∷ []) _ (unread src) [] b3 (
                  Between-trans h3 h4 h' ((text "chmod +x " ++ name) ∷ [])
                    (server_command w options name secret ∷ []) [] [] b4 b5)))

-- ===== src/RemoteStart/Success.antt =====
-- `remote_start_server` of src/remote_start.rs returns `Ok` where every call does.
use deltasync.Base.{
  ℕ, zero, suc, ◌+◌, ◌<◌, ◌≡◌, refl, sym, ap, subst, ◌∙◌, List, [], ◌∷◌, ◌++◌, Bool, true,
  if◌then◌else◌, length, length-append, arith, Option, none, some,
}
use deltasync.Bytes.{String}
use deltasync.Io.{AsyncRead, IsPrompt, Error, Poll, Result, taken}
use deltasync.RemoteStart.{
  RemoteStartOptions, make_temporary, open_executable, run_command, server_command, random_secret,
  start_server, address_of, after_read, copy_loop, upload_program, deploy, connect,
  remote_start_server, try_ssh_auth_with_agent, try_identity_file, ask_password,
}
use deltasync.RemoteStart.Text.{text, trim}
use deltasync.RemoteStart.Session.{
  History, Call, Answers, M, ◌>>=◌, ◌>>◌, and_then, pure, raise, attempt, call, call_unwrap, answer,
  unless_authenticated,
}

abbrev pub Succeeds : {A : Type 0} → M A → Type 0
Succeeds {A} m = (h : History) → (a : A) × ((m h).0 ≡ Result.ok a)

module _ (w : Answers) (fine : (h : History) (c : Call) → w.succeeds h c ≡ true)
    (known : (h : History) → w.authenticated h ≡ true) where
  bind-Succeeds :
      {A B : Type 0} (m : M A) (f : A → M B)
      → Succeeds m
      → ((a : A) → Succeeds (f a))
      → Succeeds (m >>= f)
  bind-Succeeds {A} {B} m f x y h =
      let (a, e) = x h in
      let (b, e') = y a (m h).1 in (b, ap (λ (o : Result A). (and_then o (m h).1 f).0) e ∙ e')

  call-Succeeds : (c : Call) → Succeeds (call w c)
  unfolding call
  call-Succeeds c h =
      (tt, ap (λ (b : Bool). if b then Result.ok tt else Result.err Error.io) (fine h c))

  step-Succeeds : {B : Type 0} (c : Call) (n : M B) → Succeeds n → Succeeds (call w c >> n)
  step-Succeeds c n y = bind-Succeeds (call w c) (λ u. n) (call-Succeeds c) (λ u. y)

  then-Succeeds :
      {B : Type 0} (m : M (Unit {0})) (n : M B) → Succeeds m → Succeeds n → Succeeds (m >> n)
  then-Succeeds m n x y = bind-Succeeds m (λ u. n) x (λ u. y)

  unwrap-Succeeds : (c : Call) → Succeeds (call_unwrap w c)
  unfolding call_unwrap
  unwrap-Succeeds c h =
      (tt, ap (λ (b : Bool). if b then Result.ok tt else Result.err Error.unwrap_failed) (fine h c))

  answer-Succeeds : (c : Call) → Succeeds (answer w c)
  unfolding answer
  answer-Succeeds c h = (w.text h c, refl)

  unless-Succeeds : (m : M (Unit {0})) → Succeeds (unless_authenticated w m)
  unfolding unless_authenticated
  unless-Succeeds m h = (tt, ap (λ (b : Bool). (if b then (Result.ok tt, h) else m h).0) (known h))

  identity_file-Succeeds :
      (username : String) (file : Option String) → Succeeds (try_identity_file w username file)
  unfolding try_identity_file
  identity_file-Succeeds username none h = (tt, refl)
  identity_file-Succeeds username (some file) h = (tt, refl)

  connect-Succeeds : (options : RemoteStartOptions) → Succeeds (connect w options)
  unfolding connect
  connect-Succeeds options = step-Succeeds (Call.tcp_connect (address_of options)) _ (
      step-Succeeds Call.new_session _ (
        step-Succeeds Call.handshake _ (
          then-Succeeds (try_identity_file w options.username options.identity_file) _
            (identity_file-Succeeds options.username options.identity_file)
            (then-Succeeds
              (unless_authenticated w (attempt (try_ssh_auth_with_agent w options.username))) _
              (unless-Succeeds (attempt (try_ssh_auth_with_agent w options.username)))
              (then-Succeeds (unless_authenticated w (ask_password w options)) _
                (unless-Succeeds (ask_password w options))
                (unless-Succeeds (raise Error.not_authenticated)))))))

  make_temporary-Succeeds : Succeeds (make_temporary w)
  unfolding make_temporary
  make_temporary-Succeeds = step-Succeeds Call.channel_session _ (
      step-Succeeds (Call.exec (text "mktemp --tmpdir deltasync.XXXXXXXX")) _ (
        then-Succeeds (call_unwrap w Call.read_to_string) _ (unwrap-Succeeds Call.read_to_string) (
          bind-Succeeds (answer w Call.read_to_string) _ (answer-Succeeds Call.read_to_string)
            (λ s. step-Succeeds Call.wait_close _ (λ h. (trim s, refl))))))

  open_executable-Succeeds : Succeeds (open_executable w)
  unfolding open_executable
  open_executable-Succeeds = step-Succeeds Call.current_exe _ (
      bind-Succeeds (answer w Call.current_exe) _ (answer-Succeeds Call.current_exe)
        (λ path. call-Succeeds (Call.open_file path)))

  run_command-Succeeds : (command : String) → Succeeds (run_command w command)
  unfolding run_command
  run_command-Succeeds command = step-Succeeds Call.channel_session _ (
      step-Succeeds (Call.exec command) _
        (step-Succeeds Call.wait_eof _ (call-Succeeds Call.wait_close)))

  start_server-Succeeds :
      (options : RemoteStartOptions) (name : String) → Succeeds (start_server w options name)
  unfolding start_server random_secret
  start_server-Succeeds options name h =
      then-Succeeds (run_command w (server_command w options name (w.random_secret h)))
        (pure (w.random_secret h))
        (run_command-Succeeds (server_command w options name (w.random_secret h)))
        (λ h'. (w.random_secret h, refl)) h

  module _ (r : AsyncRead) (prompt : IsPrompt r) where
    open r use {Source, unread, read, read_takes}

    after_read-Succeeds :
        (again : Source → M (Unit {0})) (bs : List ℕ) (p : Poll (List ℕ)) (s : Source)
        → p ≡ Poll.ready bs
        → (0 < length bs → Succeeds (again s))
        → Succeeds (after_read w r again p s)
    unfolding after_read
    after_read-Succeeds again [] p s e ih =
        subst (λ (x : Poll (List ℕ)). Succeeds (after_read w r again x s)) (sym e) (λ h. (tt, refl))
    after_read-Succeeds again (b ∷ bs) p s e ih =
        subst (λ (x : Poll (List ℕ)). Succeeds (after_read w r again x s)) (sym e)
          (step-Succeeds (Call.write_all (b ∷ bs)) (again s) (ih (omega arith)))

    -- A round more than there are bytes is enough.
    copy_loop-Succeeds :
        (fuel : ℕ) (src : Source) → length (unread src) < fuel → Succeeds (copy_loop w r fuel src)
    unfolding copy_loop
    copy_loop-Succeeds zero src lt h = absurd (omega (arith, lt))
    copy_loop-Succeeds (suc fuel) src lt h =
        let p = read 1048576 src in
        let (bs, e) = prompt 1048576 src in
        let moved : length (unread src) ≡ length bs + length (unread p.1) =
          ap length (read_takes 1048576 src ∙ ap (λ (x : Poll (List ℕ)). taken x ++ unread p.1) e)
          ∙ length-append bs (unread p.1) in
        after_read-Succeeds (λ s. copy_loop w r fuel s) bs p.0 p.1 e
          (λ some_. copy_loop-Succeeds fuel p.1 (omega (arith, moved, lt, some_)))
          (h ++ Call.read_file ∷ [])

    upload_program-Succeeds :
        (name : String) (src : Source) → Succeeds (upload_program w r name src)
    unfolding upload_program
    upload_program-Succeeds name src = step-Succeeds Call.channel_session _ (
        step-Succeeds (Call.exec (text "cat >" ++ name)) _ (
          then-Succeeds (copy_loop w r (suc (length (unread src))) src) _
            (copy_loop-Succeeds (suc (length (unread src))) src (omega arith))
            (step-Succeeds Call.send_eof _
              (step-Succeeds Call.wait_eof _ (call-Succeeds Call.wait_close)))))

    deploy-Succeeds :
        (options : RemoteStartOptions) (src : Source) → Succeeds (deploy w r options src)
    unfolding deploy
    deploy-Succeeds options src =
        bind-Succeeds (make_temporary w) _ make_temporary-Succeeds (λ name.
          then-Succeeds (open_executable w) _ open_executable-Succeeds (
            then-Succeeds (upload_program w r name src) _ (upload_program-Succeeds name src) (
              then-Succeeds (run_command w (text "chmod +x " ++ name)) _
                (run_command-Succeeds (text "chmod +x " ++ name))
                (start_server-Succeeds options name))))

    -- Where every call succeeds, the session is authenticated and reads of the executable neither
    -- fail nor wait, `remote_start_server` returns a secret, whatever the size of the executable.
    pub remote_start_server-ok :
        (options : RemoteStartOptions) (src : Source)
        → (secret : String) × ((remote_start_server w r options src []).0 ≡ Result.ok secret)
    unfolding remote_start_server
    remote_start_server-ok options src =
        then-Succeeds (connect w options) (deploy w r options src) (connect-Succeeds options)
          (deploy-Succeeds options src) []

-- ===== src/RemoteStart/Grow.antt =====
-- The part of src/remote_start.rs behind the authentication only adds to the history.
use deltasync.Base.{ℕ, zero, suc, refl, List, [], ◌∷◌, ◌++◌, length}
use deltasync.Bytes.{String}
use deltasync.Io.{AsyncRead, Error, Poll}
use deltasync.RemoteStart.{
  RemoteStartOptions, make_temporary, open_executable, run_command, server_command, random_secret,
  start_server, after_read, copy_loop, upload_program, deploy,
}
use deltasync.RemoteStart.Text.{text, trim}
use deltasync.RemoteStart.Session.{Call, Answers, M, ◌>>◌, pure, call, call_unwrap, answer}
use deltasync.RemoteStart.Log.{Any}
use deltasync.RemoteStart.Quiet.{
  Added-trans, stay, Adds, call-Adds, call_unwrap-Adds, answer-Adds, pure-Adds, raise-Adds,
  bind-Adds, then-Adds,
}

module _ (w : Answers) where
  -- Histories that begin with another one.
  abbrev Grows : {A : Type 0} → M A → Type 0
  Grows m = Adds w Any tt (λ h h' x y. tt) m

  call-Grows : (c : Call) → Grows (call w c)
  call-Grows c = call-Adds w Any tt (λ h h' x y. tt) c tt

  then-Grows : {B : Type 0} (m : M (Unit {0})) (n : M B) → Grows m → Grows n → Grows (m >> n)
  then-Grows m n x y = then-Adds w Any tt (λ h h' a b. tt) m n x y

  step-Grows : {B : Type 0} (c : Call) (n : M B) → Grows n → Grows (call w c >> n)
  step-Grows c n y = then-Grows (call w c) n (call-Grows c) y

  make_temporary-Grows : Grows (make_temporary w)
  unfolding make_temporary
  make_temporary-Grows = step-Grows Call.channel_session _ (
      step-Grows (Call.exec (text "mktemp --tmpdir deltasync.XXXXXXXX")) _ (
        then-Grows (call_unwrap w Call.read_to_string) _
          (call_unwrap-Adds w Any tt (λ h h' x y. tt) Call.read_to_string tt)
          (bind-Adds w Any tt (λ h h' x y. tt) (answer w Call.read_to_string) _
            (answer-Adds w Any tt (λ h h' x y. tt) Call.read_to_string)
            (λ s. step-Grows Call.wait_close _ (pure-Adds w Any tt (λ h h' x y. tt) (trim s))))))

  open_executable-Grows : Grows (open_executable w)
  unfolding open_executable
  open_executable-Grows = step-Grows Call.current_exe _ (
      bind-Adds w Any tt (λ h h' x y. tt) (answer w Call.current_exe) _
        (answer-Adds w Any tt (λ h h' x y. tt) Call.current_exe)
        (λ path. call-Grows (Call.open_file path)))

  run_command-Grows : (command : String) → Grows (run_command w command)
  unfolding run_command
  run_command-Grows command =
      step-Grows Call.channel_session _
        (step-Grows (Call.exec command) _ (step-Grows Call.wait_eof _ (call-Grows Call.wait_close)))

  start_server-Grows :
      (options : RemoteStartOptions) (name : String) → Grows (start_server w options name)
  unfolding start_server random_secret
  start_server-Grows options name h =
      then-Grows (run_command w (server_command w options name (w.random_secret h)))
        (pure (w.random_secret h))
        (run_command-Grows (server_command w options name (w.random_secret h)))
        (pure-Adds w Any tt (λ h h' x y. tt) (w.random_secret h)) h

  module _ (r : AsyncRead) where
    open r use {Source, unread, read}

    after_read-Grows :
        (again : Source → M (Unit {0})) (p : Poll (List ℕ)) (s : Source)
        → Grows (again s)
        → Grows (after_read w r again p s)
    unfolding after_read
    after_read-Grows again (Poll.ready []) s ih = pure-Adds w Any tt (λ h h' x y. tt) tt
    after_read-Grows again (Poll.ready (b ∷ bs)) s ih =
        step-Grows (Call.write_all (b ∷ bs)) (again s) ih
    after_read-Grows again Poll.pending s ih =
        raise-Adds w Any tt (λ h h' x y. tt) (Unit {0}) Error.io
    after_read-Grows again Poll.failed s ih =
        raise-Adds w Any tt (λ h h' x y. tt) (Unit {0}) Error.io

    copy_loop-Grows : (fuel : ℕ) (src : Source) → Grows (copy_loop w r fuel src)
    unfolding copy_loop
    copy_loop-Grows zero src h = stay w Any tt (λ h h' x y. tt) h
    copy_loop-Grows (suc fuel) src h =
        let p = read 1048576 src in
        Added-trans w Any tt (λ h h' x y. tt) h (h ++ Call.read_file ∷ []) _
          (Call.read_file ∷ [], refl, tt)
          (after_read-Grows (λ s. copy_loop w r fuel s) p.0 p.1 (copy_loop-Grows fuel p.1)
            (h ++ Call.read_file ∷ []))

    upload_program-Grows : (name : String) (src : Source) → Grows (upload_program w r name src)
    unfolding upload_program
    upload_program-Grows name src = step-Grows Call.channel_session _ (
        step-Grows (Call.exec (text "cat >" ++ name)) _ (
          then-Grows (copy_loop w r (suc (length (unread src))) src) _
            (copy_loop-Grows (suc (length (unread src))) src)
            (step-Grows Call.send_eof _ (step-Grows Call.wait_eof _ (call-Grows Call.wait_close)))))

    pub deploy-Grows :
        (options : RemoteStartOptions) (src : Source) → Grows (deploy w r options src)
    unfolding deploy
    deploy-Grows options src =
        bind-Adds w Any tt (λ h h' x y. tt) (make_temporary w) _ make_temporary-Grows
          (λ name. then-Grows (open_executable w) _ open_executable-Grows (
            then-Grows (upload_program w r name src) _ (upload_program-Grows name src) (
              then-Grows (run_command w (text "chmod +x " ++ name)) _
                (run_command-Grows (text "chmod +x " ++ name)) (start_server-Grows options name))))

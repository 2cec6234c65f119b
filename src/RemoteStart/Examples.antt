-- ===== src/RemoteStart/Examples.antt =====
-- A run of `remote_start_server` of src/remote_start.rs.
use deltasync.Base.{◌≡◌, refl, [], ◌∷◌, ◌++◌, true, none, ◌⊎◌}
use deltasync.Bytes.{String}
use deltasync.Io.{Result}
use deltasync.Io.Scripted.{Source, prompt, prompt-IsPrompt}
use deltasync.RemoteStart.{
  RemoteStartOptions, make_temporary, open_executable, run_command, random_secret, start_server,
  after_read, copy_loop, upload_program, deploy, connect, remote_start_server, try_identity_file,
}
use deltasync.RemoteStart.Session.{
  History, Answers, call, call_unwrap, answer, unless_authenticated,
}
use deltasync.RemoteStart.Log.{commands, uploads}
use deltasync.RemoteStart.Deploy.{IsNamed, remote_commands}
use deltasync.RemoteStart.Connect.{IsQuiet}
use deltasync.RemoteStart.Run.{remote_start_server-authenticated, remote_start_server-Deploys}
use deltasync.RemoteStart.Secret.{IsDrawn}
use deltasync.RemoteStart.Success.{remote_start_server-ok}

-- Every call succeeds, and the file is called `/x`.
abbrev answers : Answers
answers = record {
  succeeds = λ h c. true;
  text = λ h c. 47 ∷ 120 ∷ 10 ∷ [];
  keys = λ h. [];
  authenticated = λ h. true;
  random_secret = λ h. 97 ∷ 98 ∷ [];
}

abbrev options : RemoteStartOptions
options = record {
  address = 104 ∷ [];
  ssh_port = 22;
  username = 117 ∷ [];
  identity_file = none;
  workers = 4;
  server_port = 15000;
}

abbrev executable : Source
executable = record { raw = 1 ∷ 2 ∷ 3 ∷ 4 ∷ []; script = [] }

abbrev run : Result String × History
run = remote_start_server answers prompt options executable []

ran : Result String × History
unfolding remote_start_server connect deploy make_temporary open_executable run_command
    random_secret start_server after_read copy_loop upload_program try_identity_file call
    call_unwrap answer unless_authenticated
ran = run

run_ok : run ≡ (Result.ok (97 ∷ 98 ∷ []), run.1)
unfolding ran
run_ok = refl

remote_start_server-authenticated_example :
    IsQuiet run.1
    ⊎ ((before : History) × (rest : History) × (run.1 ≡ before ++ rest)
        × (answers.authenticated before ≡ true)
        × IsQuiet before)
remote_start_server-authenticated_example =
    remote_start_server-authenticated answers prompt options executable

remote_start_server-Deploys_example :
    (name : String) × IsNamed answers name
    × IsDrawn answers (97 ∷ 98 ∷ [])
    × (commands run.1 ≡ remote_commands answers prompt options name (97 ∷ 98 ∷ []))
    × (uploads run.1 ≡ prompt.unread executable)
remote_start_server-Deploys_example =
    remote_start_server-Deploys answers prompt options executable (97 ∷ 98 ∷ []) run.1 run_ok

remote_start_server-ok_example : (secret : String) × (run.0 ≡ Result.ok secret)
remote_start_server-ok_example =
    remote_start_server-ok answers (λ h c. refl) (λ h. refl) prompt prompt-IsPrompt options
      executable

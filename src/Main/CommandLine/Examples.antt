-- ===== src/Main/CommandLine/Examples.antt =====
-- The theorems about the command line of src/main.rs at a concrete one.
use deltasync.Base.{
  subst, some_injective, ◌≡◌, refl, [], ◌∷◌, ◌++◌, Bool, true, false, none, some, ◌==◌, arith,
}
use deltasync.Bytes.{String}
use deltasync.Io.Scripted.{prompt}
use deltasync.HashAlgorithm.{HashAlgorithm}
use deltasync.Io.{Result}
use deltasync.Main.Paths.{PathOps, absolute_path, in_current_dir}
use deltasync.Main.CommandLine.{
  Args, Plan, Surroundings, check_secret, address_of, choose_username, remove_self, detach,
  start_remote, remote_secret, client_secret, dest_path, client_mode, startup,
}
use deltasync.Main.CommandLine.Plans.{HasShortSecrets, IsSound, startup-IsSound}
use deltasync.Main.CommandLine.Remote.{Starts, remote_starts, startup-Starts}
use deltasync.RemoteStart.{
  remote_start_server, connect, try_identity_file, deploy, make_temporary, open_executable,
  upload_program, copy_loop, after_read, run_command, start_server, random_secret,
}
use deltasync.RemoteStart.Session.{call, unless_authenticated, call_unwrap, answer}
use deltasync.RemoteStart.Text.{to_string}

-- `client` on `/d`, where paths are cleaned already.
abbrev starts_with_slash : String → Bool
starts_with_slash [] = false
starts_with_slash (c ∷ p) = c == 47

slash-append : (d p : String) → starts_with_slash d ≡ true → starts_with_slash (d ++ 47 ∷ p) ≡ true
slash-append [] p h = refl
slash-append (c ∷ d) p h = h

root : (d : String) → some (47 ∷ 100 ∷ []) ≡ some d → starts_with_slash d ≡ true
root d e = subst (λ (x : String). starts_with_slash x ≡ true) (some_injective {A = String} e) refl

abbrev ops : PathOps
ops = record {
  is_absolute = starts_with_slash;
  join = λ d p. d ++ 47 ∷ p;
  clean = λ p. p;
  current_dir = some (47 ∷ 100 ∷ []);
  current_dir_absolute = root;
  join_absolute = slash-append;
  clean_absolute = λ p h. h;
  clean_idem = λ p. refl;
}

abbrev os : Surroundings
os = record {
  remove_executable = Result.ok tt;
  daemonize = Result.ok tt;
  current_username = some (117 ∷ []);
  answers = record {
    succeeds = λ h c. true;
    text = λ h c. 47 ∷ 120 ∷ 10 ∷ [];
    keys = λ h. [];
    authenticated = λ h. true;
    random_secret = λ h. 115 ∷ [];
  };
  program = prompt;
  executable = record { raw = 1 ∷ 2 ∷ []; script = [] };
}

-- `deltasync --remote-start -U u a`
abbrev args : Args
args = record {
  server = false;
  ip = none;
  port = 15000;
  secret = none;
  one_shot = false;
  force_truncate = false;
  workers = 1;
  block_size = 1048576;
  hash = HashAlgorithm.crc32;
  ephemeral = false;
  detached = false;
  remote_start = true;
  remote_start_user = some (117 ∷ []);
  remote_start_port = 22;
  remote_start_workers = none;
  identity_file = none;
  src = some (97 ∷ []);
  dest = none;
}

abbrev planned : Result Plan → Plan
planned (Result.ok p) = p
planned (Result.err e) = Plan.serves [] [] 0 false

abbrev plan : Plan
plan = planned (startup os ops args).0

started : Result Plan
unfolding startup remove_self detach check_secret client_mode client_secret remote_secret
    start_remote choose_username dest_path absolute_path in_current_dir address_of to_string
    remote_start_server connect try_identity_file deploy make_temporary open_executable
    upload_program copy_loop after_read run_command start_server random_secret call
    unless_authenticated call_unwrap answer
started = (startup os ops args).0

startup_ok : (startup os ops args).0 ≡ Result.ok plan
unfolding started
startup_ok = refl

short : HasShortSecrets os ops
short h = omega arith

startup-IsSound_example : IsSound os ops args plan
startup-IsSound_example = startup-IsSound os ops short args plan startup_ok

startup-Starts_example : Starts os ops args (remote_starts (startup os ops args).1)
startup-Starts_example = startup-Starts os ops args

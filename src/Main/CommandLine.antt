-- ===== src/Main/CommandLine.antt =====
-- `Args` and the parts of `main` of src/main.rs around the two modes.
pub mod Plans
pub mod Remote
mod Examples
use deltasync.Base.{
  ℕ, List, [], ◌∷◌, ◌++◌, Bool, true, false, Option, none, some, if◌then◌else◌, length, ltb,
}
use deltasync.Bytes.{String, from_utf8}
use deltasync.Client.Request.{ClientProcessOptions}
use deltasync.HashAlgorithm.{HashAlgorithm}
use deltasync.Io.{AsyncRead, Error, Result}
use deltasync.Main.Paths.{PathOps, absolute_path}
use deltasync.RemoteStart.{RemoteStartOptions, remote_start_server}
use deltasync.RemoteStart.Session.{Answers}
use deltasync.RemoteStart.Text.{text, to_string}

pub record Args : Type 0 where
  pub server : Bool
  pub ip : Option String
  pub port : ℕ
  pub secret : Option String
  pub one_shot : Bool
  pub force_truncate : Bool
  pub workers : ℕ
  pub block_size : ℕ
  pub hash : HashAlgorithm
  pub ephemeral : Bool
  pub detached : Bool
  pub remote_start : Bool
  pub remote_start_user : Option String
  pub remote_start_port : ℕ
  pub remote_start_workers : Option ℕ
  pub identity_file : Option String
  pub src : Option String
  pub dest : Option String

-- What `main` does before it listens or connects.
pub data Effect : Type 0 where
  removes_executable detaches : Effect
  starts_remote : RemoteStartOptions → Effect

-- What it goes on to: `TcpListener::bind` and the accept loop, or `client::new_process`.
pub data Plan : Type 0 where
  serves : (address secret : String) (workers : ℕ) (one_shot : Bool) → Plan
  syncs : (address : String) → ClientProcessOptions → Plan

-- `std::env::current_exe` with `std::fs::remove_file` upon it, `daemonize`, the name of the user; what
-- the calls of `remote_start_server` answer, and the executable that it reads.
pub record Surroundings : Type 1 where
  pub remove_executable : Result (Unit {0})
  pub daemonize : Result (Unit {0})
  pub current_username : Option String
  pub answers : Answers
  pub program : AsyncRead
  pub executable : program.Source

-- A computation with its effects; it may return `Err`.
abbrev pub M : Type 0 → Type 0
M A = Result A × List Effect

abbrev pub pure : {A : Type 0} → A → M A
pure a = (Result.ok a, [])

abbrev pub raise : {A : Type 0} → Error → M A
raise e = (Result.err e, [])

abbrev pub lift : {A : Type 0} → Result A → M A
lift r = (r, [])

abbrev pub and_then : {A B : Type 0} → Result A → List Effect → (A → M B) → M B
and_then (Result.ok a) es f = ((f a).0, es ++ (f a).1)
and_then (Result.err e) es f = (Result.err e, es)

infixl 5 ◌>>=◌ ◌>>◌
abbrev pub ◌>>=◌ : {A B : Type 0} → M A → (A → M B) → M B
m >>= f = and_then m.0 m.1 f

abbrev pub ◌>>◌ : {A B : Type 0} → M A → M B → M B
m >> n = and_then m.0 m.1 (λ _. n)

abbrev pub unwrap_or : {A : Type 0} → A → Option A → A
unwrap_or d none = d
unwrap_or d (some a) = a

abbrev pub ok_or : {A : Type 0} → Error → Option A → M A
ok_or e none = raise e
ok_or e (some a) = pure a

-- `if secret.len() > 255 { bail!(..) }`
unfoldable pub check_secret : String → M String
check_secret secret = if ltb 255 (length secret) then raise Error.secret_too_long else pure secret

-- `ip + ":" + &args.port.to_string()`
unfoldable pub address_of : String → ℕ → String
address_of ip port = ip ++ text ":" ++ to_string port

-- `or_else(|| username.as_ref().and_then(|u| u.to_str()))`
unfoldable pub choose_username : Option String → Option String → Option String
choose_username (some user) current = some user
choose_username none none = none
choose_username none (some current) = from_utf8 current

module _ (os : Surroundings) (paths : PathOps) where
  unfoldable pub remove_self : Bool → M (Unit {0})
  remove_self true = (os.remove_executable, removes_executable ∷ [])
  remove_self false = pure tt

  unfoldable pub detach : Bool → M (Unit {0})
  detach true = (os.daemonize, detaches ∷ [])
  detach false = pure tt

  unfoldable pub start_remote : RemoteStartOptions → M String
  start_remote options = (
    (remote_start_server os.answers os.program options os.executable []).0,
    starts_remote options ∷ [],
  )

  abbrev pub remote_options : Args → String → String → RemoteStartOptions
  remote_options args ip username = record {
    address = ip;
    ssh_port = args.remote_start_port;
    username = username;
    identity_file = args.identity_file;
    workers = unwrap_or args.workers args.remote_start_workers;
    server_port = args.port;
  }

  unfoldable pub remote_secret : Args → String → M String
  remote_secret args ip = do
    username ← ok_or Error.no_username (choose_username args.remote_start_user os.current_username)
    start_remote (remote_options args ip username)

  unfoldable pub client_secret : Args → String → String → M String
  client_secret args ip secret = if args.remote_start then remote_secret args ip else pure secret

  unfoldable pub dest_path : Option String → String → M String
  dest_path none src = pure src
  dest_path (some dest) src = lift (absolute_path paths dest)

  unfoldable pub client_mode : Args → String → M Plan
  client_mode args given = do
    let ip = unwrap_or (text "127.0.0.1") args.ip
    secret ← client_secret args ip given
    src_arg ← ok_or Error.missing_source args.src
    src ← lift (absolute_path paths src_arg)
    dest ← dest_path args.dest src
    let options : ClientProcessOptions = record {
      secret = secret;
      src_path = src;
      dest = dest;
      force_truncate = args.force_truncate;
      workers = args.workers;
      block_size = args.block_size;
      hash_algorithm = args.hash;
    }
    pure (syncs (address_of ip args.port) options)

  unfoldable pub server_mode : Args → String → M Plan
  server_mode args secret = pure (
      serves (address_of (unwrap_or (text "0.0.0.0") args.ip) args.port) secret args.workers
        args.one_shot)

  -- `main` up to the first use of the network by the server or the client.
  unfoldable pub startup : Args → M Plan
  startup args = do
    remove_self args.ephemeral
    detach args.detached
    secret ← check_secret (unwrap_or [] args.secret)
    if args.server then server_mode args secret else client_mode args secret

-- ===== src/RemoteStart.antt =====
-- src/remote_start.rs: the program is uploaded over SSH and started there as a server.
pub mod Text
pub mod Session
pub mod Log
pub mod Quiet
pub mod Connect
pub mod Grow
pub mod Run
pub mod Deploy
pub mod Secret
pub mod Success
mod Examples
use deltasync.Base.{ℕ, zero, suc, List, [], ◌∷◌, ◌++◌, Option, none, some, if◌then◌else◌, length}
use deltasync.Bytes.{String}
use deltasync.Io.{AsyncRead, Error, Poll, Result}
use deltasync.RemoteStart.Text.{text, trim, to_string}
use deltasync.RemoteStart.Session.{
  Call, Answers, M, attempt, call, call_unwrap, answer, unless_authenticated, pure, raise, ◌>>=◌,
  ◌>>◌,
}

pub record RemoteStartOptions : Type 0 where
  pub address : String
  pub ssh_port : ℕ
  pub username : String
  pub identity_file : Option String
  pub workers : ℕ
  pub server_port : ℕ

-- The address of the machine: `options.address + ":" + &options.ssh_port.to_string()`.
abbrev pub address_of : RemoteStartOptions → String
address_of options = options.address ++ text ":" ++ to_string options.ssh_port

module _ (w : Answers) where
  -- `for identity in agent.identities()? { … }`: up to the first identity that is accepted.
  unfoldable pub try_identities : String → List String → M (Unit {0})
  try_identities username [] h = (Result.ok tt, h)
  try_identities username (identity ∷ rest) h =
      let h' = h ++ Call.agent_userauth username identity ∷ [] in
      let later = try_identities username rest h' in
      if w.succeeds h (Call.agent_userauth username identity) then (Result.ok tt, h') else later

  unfoldable pub with_identities : String → M (Unit {0})
  with_identities username h = try_identities username (w.keys h) h

  unfoldable pub try_ssh_auth_with_agent : String → M (Unit {0})
  try_ssh_auth_with_agent username = do
    call w Call.session_agent
    call w Call.agent_connect
    call w Call.list_identities
    call w Call.identities
    with_identities username

  -- `if let Some(identity_file) = options.identity_file { … }`
  unfoldable pub try_identity_file : String → Option String → M (Unit {0})
  try_identity_file username none = pure tt
  try_identity_file username (some file) =
      attempt (call w (Call.userauth_pubkey_file username file))

  unfoldable pub password_prompt : RemoteStartOptions → String
  password_prompt options =
      text "Password for " ++ options.username ++ text "@" ++ address_of options ++ text ": "

  unfoldable pub ask_password : RemoteStartOptions → M (Unit {0})
  ask_password options = do
    call w (Call.prompt_password (password_prompt options))
    password ← answer w (Call.prompt_password (password_prompt options))
    call w (Call.userauth_password options.username password)

  -- From the connection to the last `bail!`.
  unfoldable pub connect : RemoteStartOptions → M (Unit {0})
  connect options = do
    call w (Call.tcp_connect (address_of options))
    call w Call.new_session
    call w Call.handshake
    try_identity_file options.username options.identity_file
    unless_authenticated w (attempt (try_ssh_auth_with_agent options.username))
    unless_authenticated w (ask_password options)
    unless_authenticated w (raise Error.not_authenticated)

  -- The temporary file on the remote end.
  unfoldable pub make_temporary : M String
  make_temporary = do
    call w Call.channel_session
    call w (Call.exec (text "mktemp --tmpdir deltasync.XXXXXXXX"))
    call_unwrap w Call.read_to_string
    s ← answer w Call.read_to_string
    call w Call.wait_close
    pure (trim s)

  unfoldable pub open_executable : M (Unit {0})
  open_executable = do
    call w Call.current_exe
    local_binary_path ← answer w Call.current_exe
    call w (Call.open_file local_binary_path)

  -- A command of which only the end is awaited.
  unfoldable pub run_command : String → M (Unit {0})
  run_command command = do
    call w Call.channel_session
    call w (Call.exec command)
    call w Call.wait_eof
    call w Call.wait_close

  -- The options of the server in the order of the code.
  abbrev pub server_command : RemoteStartOptions → String → String → String
  server_command options remote_filename secret =
      remote_filename
      ++ text " --server -d -e -o --port \""
      ++ to_string options.server_port
      ++ text "\" --secret \""
      ++ secret
      ++ text "\" -w "
      ++ to_string options.workers

  unfoldable pub random_secret : M String
  random_secret h = (Result.ok (w.random_secret h), h)

  -- The server in one-shot, ephemeral mode with a random secret.
  unfoldable pub start_server : RemoteStartOptions → String → M String
  start_server options remote_filename = do
    secret ← random_secret
    run_command (server_command options remote_filename secret)
    pure secret

  module _ (r : AsyncRead) where
    open r use {Source, unread, read}

    -- Behind `local_file.read(&mut buf)?`. A file does not make the caller wait.
    unfoldable pub after_read : (Source → M (Unit {0})) → Poll (List ℕ) → Source → M (Unit {0})
    after_read again (Poll.ready []) src = pure tt
    after_read again (Poll.ready (b ∷ bs)) src = do call w (Call.write_all (b ∷ bs)); again src
    after_read again Poll.pending src = raise Error.io
    after_read again Poll.failed src = raise Error.io

    -- `loop { let n = local_file.read(&mut buf)?; if n == 0 { break; } channel.write_all(..)?; }`
    -- A round takes a byte or is the last one, so a round more than there are bytes is enough fuel.
    unfoldable pub copy_loop : ℕ → Source → M (Unit {0})
    copy_loop zero src h = (Result.err Error.io, h)
    copy_loop (suc fuel) src h =
        let p = read 1048576 src in
        after_read (λ s. copy_loop fuel s) p.0 p.1 (h ++ Call.read_file ∷ [])

    unfoldable pub upload_program : String → Source → M (Unit {0})
    upload_program remote_filename src = do
      call w Call.channel_session
      call w (Call.exec (text "cat >" ++ remote_filename))
      copy_loop (suc (length (unread src))) src
      call w Call.send_eof
      call w Call.wait_eof
      call w Call.wait_close

    -- From the temporary file on.
    unfoldable pub deploy : RemoteStartOptions → Source → M String
    deploy options local_file = do
      remote_filename ← make_temporary
      open_executable
      upload_program remote_filename local_file
      run_command (text "chmod +x " ++ remote_filename)
      start_server options remote_filename

    unfoldable pub remote_start_server : RemoteStartOptions → Source → M String
    remote_start_server options local_file = do connect options; deploy options local_file

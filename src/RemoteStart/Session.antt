-- ===== src/RemoteStart/Session.antt =====
-- What src/remote_start.rs calls: ssh2, the SSH agent, the terminal and the operating system. What a
-- call answers depends on the calls before it.
use deltasync.Base.{ℕ, List, [], ◌∷◌, ◌++◌, Bool, if◌then◌else◌}
use deltasync.Bytes.{String}
use deltasync.Io.{Error, Result}

pub data Call : Type 0 where
  tcp_connect : (address : String) → Call
  new_session handshake : Call
  userauth_pubkey_file : (username identity_file : String) → Call
  session_agent agent_connect list_identities identities : Call
  agent_userauth : (username identity : String) → Call
  prompt_password : (prompt : String) → Call
  userauth_password : (username password : String) → Call
  channel_session : Call
  exec : (command : String) → Call
  read_to_string send_eof wait_eof wait_close : Call
  current_exe : Call
  open_file : (path : String) → Call
  read_file : Call
  write_all : List ℕ → Call

-- The calls so far, the last one at the end.
abbrev pub History : Type 0
History = List Call

-- `text` is the string that a call returns, `keys` are the identities of the agent.
pub record Answers : Type 0 where
  pub succeeds : History → Call → Bool
  pub text : History → Call → String
  pub keys : History → List String
  pub authenticated : History → Bool
  pub random_secret : History → String

-- A computation that makes calls and may return `Err`.
abbrev pub M : Type 0 → Type 0
M A = History → Result A × History

abbrev pub pure : {A : Type 0} → A → M A
pure a h = (Result.ok a, h)

abbrev pub raise : {A : Type 0} → Error → M A
raise e h = (Result.err e, h)

abbrev pub and_then : {A B : Type 0} → Result A → History → (A → M B) → Result B × History
and_then (Result.ok a) h f = f a h
and_then (Result.err e) h f = (Result.err e, h)

infixl 5 ◌>>=◌ ◌>>◌
abbrev pub ◌>>=◌ : {A B : Type 0} → M A → (A → M B) → M B
◌>>=◌ m f h = and_then (m h).0 (m h).1 f

abbrev pub ◌>>◌ : {A B : Type 0} → M A → M B → M B
◌>>◌ m n h = and_then (m h).0 (m h).1 (λ _. n)

-- `let _ = …`
abbrev pub attempt : {A : Type 0} → M A → M (Unit {0})
attempt m h = (Result.ok tt, (m h).1)

module _ (w : Answers) where
  -- `…?` on a call.
  unfoldable pub call : Call → M (Unit {0})
  call c h = (if w.succeeds h c then Result.ok tt else Result.err Error.io, h ++ c ∷ [])

  -- `….unwrap()` on a call.
  unfoldable pub call_unwrap : Call → M (Unit {0})
  call_unwrap c h =
      (if w.succeeds h c then Result.ok tt else Result.err Error.unwrap_failed, h ++ c ∷ [])

  -- The string that the call returned which was made last.
  unfoldable pub answer : Call → M String
  answer c h = (Result.ok (w.text h c), h)

  unfoldable pub unless_authenticated : M (Unit {0}) → M (Unit {0})
  unless_authenticated m h = if w.authenticated h then (Result.ok tt, h) else m h

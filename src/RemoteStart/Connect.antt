-- ===== src/RemoteStart/Connect.antt =====
-- The authentication of src/remote_start.rs, and that no command is run before it.
use deltasync.Base.{
  ℕ, ◌≡◌, refl, sym, ap, subst, ◌∙◌, List, [], ◌∷◌, ◌++◌, append-nil, Bool, true, false,
  if◌then◌else◌, Option, none, some,
}
use deltasync.Bytes.{String}
use deltasync.Io.{Error, Result}
use deltasync.RemoteStart.{
  RemoteStartOptions, address_of, password_prompt, connect, try_identities, with_identities,
  try_ssh_auth_with_agent, try_identity_file, ask_password,
}
use deltasync.RemoteStart.Session.{
  History, Call, Answers, M, ◌>>◌, raise, attempt, call, unless_authenticated,
}
use deltasync.RemoteStart.Log.{commands, commands-append, uploads, uploads-append, invert, failing}
use deltasync.RemoteStart.Quiet.{
  Added, Added-trans, Adds, call-Adds, answer-Adds, pure-Adds, raise-Adds, attempt-Adds,
  unless-Adds, bind-Adds, then-Adds, step-Adds,
}

-- Calls that run no command and send nothing.
abbrev pub IsQuiet : History → Type 0
IsQuiet h = (commands h ≡ []) × (uploads h ≡ [])

IsQuiet-nil : IsQuiet []
unfolding commands uploads
IsQuiet-nil = (refl, refl)

IsQuiet-join : (h h' : History) → IsQuiet h → IsQuiet h' → IsQuiet (h ++ h')
IsQuiet-join h h' x y = (
  commands-append h h' ∙ ap (λ (l : List String). l ++ commands h') x.0 ∙ y.0,
  uploads-append h h' ∙ ap (λ (l : List ℕ). l ++ uploads h') x.1 ∙ y.1,
)

module _ (w : Answers) where
  abbrev IsSilent : {A : Type 0} → M A → Type 0
  IsSilent m = Adds w IsQuiet IsQuiet-nil IsQuiet-join m

  step-Silent :
      {B : Type 0} (c : Call) (n : M B) → IsQuiet (c ∷ []) → IsSilent n → IsSilent (call w c >> n)
  step-Silent c n p y = step-Adds w IsQuiet IsQuiet-nil IsQuiet-join c n p y

  then-Silent :
      {B : Type 0} (m : M (Unit {0})) (n : M B) → IsSilent m → IsSilent n → IsSilent (m >> n)
  then-Silent m n x y = then-Adds w IsQuiet IsQuiet-nil IsQuiet-join m n x y

  unless-Silent : (m : M (Unit {0})) → IsSilent m → IsSilent (unless_authenticated w m)
  unless-Silent m x = unless-Adds w IsQuiet IsQuiet-nil IsQuiet-join m x

  identity-IsQuiet :
      (username identity : String) → IsQuiet (Call.agent_userauth username identity ∷ [])
  unfolding commands uploads
  identity-IsQuiet username identity = (refl, refl)

  try_identities-IsSilent :
      (username : String) (keys : List String) → IsSilent (try_identities w username keys)
  unfolding try_identities
  try_identities-IsSilent username [] h = ([], sym (append-nil h), IsQuiet-nil)
  try_identities-IsSilent username (identity ∷ rest) h =
      by_test (w.succeeds h (Call.agent_userauth username identity))
        (try_identities-IsSilent username rest (h ++ Call.agent_userauth username identity ∷ []))
    where
      tried :
          Added w IsQuiet IsQuiet-nil IsQuiet-join h
            (h ++ Call.agent_userauth username identity ∷ [])
      tried = (Call.agent_userauth username identity ∷ [], refl, identity-IsQuiet username identity)

      by_test :
          (b : Bool)
          → Added w IsQuiet IsQuiet-nil IsQuiet-join
              (h ++ Call.agent_userauth username identity ∷ [])
              (try_identities w username rest (h ++ Call.agent_userauth username identity ∷ [])).1
          → Added w IsQuiet IsQuiet-nil IsQuiet-join h
              (let h' = h ++ Call.agent_userauth username identity ∷ [] in
                if b then (Result.ok tt, h') else try_identities w username rest h').1
      by_test true later = tried
      by_test false later = Added-trans w IsQuiet IsQuiet-nil IsQuiet-join h _ _ tried later

  try_ssh_auth_with_agent-IsSilent :
      (username : String) → IsSilent (try_ssh_auth_with_agent w username)
  unfolding try_ssh_auth_with_agent with_identities commands uploads
  try_ssh_auth_with_agent-IsSilent username =
      step-Silent Call.session_agent _ (refl, refl)
        (step-Adds w IsQuiet IsQuiet-nil IsQuiet-join Call.agent_connect _ (refl, refl)
          (step-Adds w IsQuiet IsQuiet-nil IsQuiet-join Call.list_identities _ (refl, refl)
            (step-Adds w IsQuiet IsQuiet-nil IsQuiet-join Call.identities _ (refl, refl)
              (λ h. try_identities-IsSilent username (w.keys h) h))))

  try_identity_file-IsSilent :
      (username : String) (file : Option String) → IsSilent (try_identity_file w username file)
  unfolding try_identity_file commands uploads
  try_identity_file-IsSilent username none = pure-Adds w IsQuiet IsQuiet-nil IsQuiet-join tt
  try_identity_file-IsSilent username (some file) =
      attempt-Adds w IsQuiet IsQuiet-nil IsQuiet-join
        (call w (Call.userauth_pubkey_file username file))
        (call-Adds w IsQuiet IsQuiet-nil IsQuiet-join (Call.userauth_pubkey_file username file)
          (refl, refl))

  ask_password-IsSilent : (options : RemoteStartOptions) → IsSilent (ask_password w options)
  unfolding ask_password commands uploads
  ask_password-IsSilent options =
      step-Silent (Call.prompt_password (password_prompt w options)) _ (refl, refl)
        (bind-Adds w IsQuiet IsQuiet-nil IsQuiet-join _ _
          (answer-Adds w IsQuiet IsQuiet-nil IsQuiet-join
            (Call.prompt_password (password_prompt w options)))
          (λ password.
            call-Adds w IsQuiet IsQuiet-nil IsQuiet-join
              (Call.userauth_password options.username password) (refl, refl)))

  connect-IsSilent : (options : RemoteStartOptions) → IsSilent (connect w options)
  unfolding connect commands uploads
  connect-IsSilent options =
      step-Silent (Call.tcp_connect (address_of options)) _ (refl, refl)
        (step-Silent Call.new_session _ (refl, refl)
          (step-Silent Call.handshake _ (refl, refl)
            (then-Silent (try_identity_file w options.username options.identity_file) _
              (try_identity_file-IsSilent options.username options.identity_file)
              (then-Silent
                (unless_authenticated w (attempt (try_ssh_auth_with_agent w options.username))) _
                (unless-Silent (attempt (try_ssh_auth_with_agent w options.username)) (
                  attempt-Adds w IsQuiet IsQuiet-nil IsQuiet-join
                    (try_ssh_auth_with_agent w options.username)
                    (try_ssh_auth_with_agent-IsSilent options.username)))
                (then-Silent (unless_authenticated w (ask_password w options)) _
                  (unless-Silent (ask_password w options) (ask_password-IsSilent options))
                  (unless-Silent (raise Error.not_authenticated) (
                    raise-Adds w IsQuiet IsQuiet-nil IsQuiet-join (Unit {0})
                      Error.not_authenticated)))))))

  -- Behind the last check the session is authenticated.
  last_check :
      (h : History) (u : Unit {0}) (h' : History)
      → unless_authenticated w (raise Error.not_authenticated) h ≡ (Result.ok u, h')
      → w.authenticated h' ≡ true
  unfolding unless_authenticated
  last_check h u h' e = by_test (w.authenticated h) refl e
    where
      by_test :
          (b : Bool)
          → w.authenticated h ≡ b
          → ◌≡◌ {A = Result (Unit {0}) × History}
              (if b then (Result.ok tt, h) else (Result.err Error.not_authenticated, h))
              (Result.ok u, h')
          → w.authenticated h' ≡ true
      by_test true known q =
          subst (λ (x : History). w.authenticated x ≡ true)
            (ap (λ (p : Result (Unit {0}) × History). p.1) q) known
      by_test false known q = absurd (failing q)

  pub connect-authenticated :
      (options : RemoteStartOptions) (h : History) (u : Unit {0}) (h' : History)
      → connect w options h ≡ (Result.ok u, h')
      → w.authenticated h' ≡ true
  unfolding connect
  connect-authenticated options h u h' e =
      invert (call w (Call.tcp_connect (address_of options))) _ h u h' e (λ u1 h1 x1 e1.
        invert (call w Call.new_session) _ h1 u h' e1 (λ u2 h2 x2 e2.
          invert (call w Call.handshake) _ h2 u h' e2 (λ u3 h3 x3 e3.
            invert (try_identity_file w options.username options.identity_file) _ h3 u h' e3
              (λ u4 h4 x4 e4.
                invert
                  (unless_authenticated w (attempt (try_ssh_auth_with_agent w options.username))) _
                  h4 u h' e4
                  (λ u5 h5 x5 e5.
                    invert (unless_authenticated w (ask_password w options)) _ h5 u h' e5
                      (λ u6 h6 x6 e6. last_check h6 u h' e6))))))

  pub connect-IsQuiet : (options : RemoteStartOptions) → IsQuiet (connect w options []).1
  connect-IsQuiet options =
      let (rest, e, quiet) = connect-IsSilent options [] in subst IsQuiet (sym e) quiet

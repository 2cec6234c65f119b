-- ===== src/Main/CommandLine/Remote.antt =====
-- When `main` of src/main.rs starts a server on the remote end.
use deltasync.Base.{
  ◌≤◌, ◌≡◌, refl, sym, ap, subst, ◌∙◌, List, [], ◌∷◌, ◌++◌, append-nil, Bool, true, false, Option,
  none, some, if◌then◌else◌, length, ltb, ◌⊎◌, inl, inr,
}
use deltasync.Bytes.{String, from_utf8}
use deltasync.Io.{Error, Result}
use deltasync.Main.Paths.{PathOps, absolute_path}
use deltasync.Main.CommandLine.{
  Args, Effect, removes_executable, detaches, starts_remote, Surroundings, M, pure, raise, lift,
  and_then, ◌>>=◌, unwrap_or, ok_or, check_secret, choose_username, remove_self, detach,
  start_remote, remote_secret, client_secret, dest_path, client_mode, server_mode, startup,
}
use deltasync.Main.CommandLine.Plans.{check_secret-ok, ok_injective}
use deltasync.RemoteStart.{RemoteStartOptions}
use deltasync.RemoteStart.Text.{text}

unfoldable pub remote_starts : List Effect → List RemoteStartOptions
remote_starts [] = []
remote_starts (removes_executable ∷ es) = remote_starts es
remote_starts (detaches ∷ es) = remote_starts es
remote_starts (starts_remote options ∷ es) = options ∷ remote_starts es

remote_starts-append :
    (es fs : List Effect) → remote_starts (es ++ fs) ≡ remote_starts es ++ remote_starts fs
unfolding remote_starts
remote_starts-append [] fs = refl
remote_starts-append (removes_executable ∷ es) fs = remote_starts-append es fs
remote_starts-append (detaches ∷ es) fs = remote_starts-append es fs
remote_starts-append (starts_remote options ∷ es) fs = ap (◌∷◌ options) (remote_starts-append es fs)

abbrev IsLocal : {A : Type 0} → M A → Type 0
IsLocal m = remote_starts m.1 ≡ []

-- Behind a local computation the starts are those of the rest.
behind_local :
    {A B : Type 0} (P : List RemoteStartOptions → Type 0) (m : M A) (f : A → M B)
    → IsLocal m
    → P []
    → ((a : A) → m.0 ≡ Result.ok a → P (remote_starts (f a).1))
    → P (remote_starts (m >>= f).1)
behind_local {A} {B} P m f none_ p rest = go m.0 refl
  where
    go : (o : Result A) → m.0 ≡ o → P (remote_starts (and_then o m.1 f).1)
    go (Result.ok a) e =
        subst P
          (sym (
            remote_starts-append m.1 (f a).1
            ∙ ap (λ (xs : List RemoteStartOptions). xs ++ remote_starts (f a).1) none_))
          (rest a e)
    go (Result.err x) e = subst P (sym none_) p

-- Before a local rest they are those of the first part.
before_local :
    {A B : Type 0} (m : M A) (f : A → M B)
    → ((a : A) → IsLocal (f a))
    → remote_starts (m >>= f).1 ≡ remote_starts m.1
before_local {A} {B} m f none_ = go m.0
  where
    go : (o : Result A) → remote_starts (and_then o m.1 f).1 ≡ remote_starts m.1
    go (Result.ok a) =
        remote_starts-append m.1 (f a).1
        ∙ ap (◌++◌ (remote_starts m.1)) (none_ a)
        ∙ append-nil (remote_starts m.1)
    go (Result.err x) = refl

ok_or-IsLocal : {A : Type 0} (e : Error) (o : Option A) → IsLocal (ok_or e o)
unfolding remote_starts
ok_or-IsLocal e none = refl
ok_or-IsLocal e (some a) = refl

by_test-IsLocal :
    {A : Type 0} (b : Bool) (m n : M A) → IsLocal m → IsLocal n → IsLocal (if b then m else n)
by_test-IsLocal true m n x y = x
by_test-IsLocal false m n x y = y

check_secret-IsLocal : (s : String) → IsLocal (check_secret s)
unfolding check_secret remote_starts
check_secret-IsLocal s =
    by_test-IsLocal (ltb 255 (length s)) (raise Error.secret_too_long) (pure s) refl refl

module _ (os : Surroundings) (paths : PathOps) where
  -- The user of the remote end: the one given, or the current one where the name is UTF-8.
  abbrev pub IsUser : Args → String → Type 0
  IsUser args username =
      (args.remote_start_user ≡ some username)
      ⊎ ((args.remote_start_user ≡ none)
          × ((current : String) × (os.current_username ≡ some current)
              × (from_utf8 current ≡ some username)))

  -- No server is started; or one is, in client mode with `--remote-start`, where the secret of the
  -- command line is not too long, for the user named.
  abbrev pub Starts : Args → List RemoteStartOptions → Type 0
  Starts args starts =
      (starts ≡ [])
      ⊎ ((username : String) × (args.server ≡ false)
          × (args.remote_start ≡ true)
          × (length (unwrap_or [] args.secret) ≤ 255)
          × IsUser args username
          × (starts
              ≡ record {
                address = unwrap_or (text "127.0.0.1") args.ip;
                ssh_port = args.remote_start_port;
                username = username;
                identity_file = args.identity_file;
                workers = unwrap_or args.workers args.remote_start_workers;
                server_port = args.port;
              }
                ∷ []))

  choose_username-IsUser :
      (args : Args) (username : String)
      → choose_username args.remote_start_user os.current_username ≡ some username
      → IsUser args username
  unfolding choose_username
  choose_username-IsUser args username e = go args.remote_start_user os.current_username refl refl e
    where
      go :
          (given current : Option String)
          → args.remote_start_user ≡ given
          → os.current_username ≡ current
          → choose_username given current ≡ some username
          → IsUser args username
      go (some user) current g c e' = inl (g ∙ e')
      go none none g c e' = absurd cc
      go none (some name) g c e' = inr (g, (name, c, e'))

  remove_self-IsLocal : (b : Bool) → IsLocal (remove_self os paths b)
  unfolding remove_self remote_starts
  remove_self-IsLocal true = refl
  remove_self-IsLocal false = refl

  detach-IsLocal : (b : Bool) → IsLocal (detach os paths b)
  unfolding detach remote_starts
  detach-IsLocal true = refl
  detach-IsLocal false = refl

  dest_path-IsLocal : (dest : Option String) (src : String) → IsLocal (dest_path os paths dest src)
  unfolding dest_path remote_starts
  dest_path-IsLocal none src = refl
  dest_path-IsLocal (some d) src = refl

  lift-IsLocal : {A : Type 0} (r : Result A) → IsLocal (lift r)
  unfolding remote_starts
  lift-IsLocal r = refl

  module _ (args : Args) (client : args.server ≡ false)
      (fits : length (unwrap_or [] args.secret) ≤ 255) where
    abbrev ip : String
    ip = unwrap_or (text "127.0.0.1") args.ip

    remote_secret-Starts :
        args.remote_start ≡ true → Starts args (remote_starts (remote_secret os paths args ip).1)
    unfolding remote_secret start_remote remote_starts
    remote_secret-Starts flag =
        behind_local (Starts args)
          (ok_or Error.no_username (choose_username args.remote_start_user os.current_username)) _
          (ok_or-IsLocal Error.no_username
            (choose_username args.remote_start_user os.current_username))
          (inl refl)
          (λ username e. inr (
            username,
            client,
            flag,
            fits,
            choose_username-IsUser args username
                (found (choose_username args.remote_start_user os.current_username) username e),
            refl,
          ))
      where
        found :
            (o : Option String) (u : String)
            → (ok_or Error.no_username o).0 ≡ Result.ok u
            → o ≡ some u
        found none u e = absurd cc
        found (some x) u e = ap (λ (y : String). some y) (ok_injective e)

    client_secret-Starts :
        (secret : String) → Starts args (remote_starts (client_secret os paths args ip secret).1)
    unfolding client_secret remote_starts
    client_secret-Starts secret = by_flag args.remote_start refl
      where
        by_flag :
            (b : Bool)
            → args.remote_start ≡ b
            → Starts args
                (remote_starts (if b then remote_secret os paths args ip else pure secret).1)
        by_flag true flag = remote_secret-Starts flag
        by_flag false flag = inl refl

    client_mode-Starts :
        (secret : String) → Starts args (remote_starts (client_mode os paths args secret).1)
    unfolding client_mode remote_starts
    client_mode-Starts secret =
        subst (Starts args)
          (sym (
            before_local (client_secret os paths args ip secret) _ (λ s.
              behind_local (λ (xs : List RemoteStartOptions). xs ≡ [])
                (ok_or Error.missing_source args.src) _
                (ok_or-IsLocal Error.missing_source args.src) refl
                (λ src_arg e.
                  behind_local (λ (xs : List RemoteStartOptions). xs ≡ [])
                    (lift (absolute_path paths src_arg)) _
                    (lift-IsLocal (absolute_path paths src_arg)) refl
                    (λ src e'.
                      behind_local (λ (xs : List RemoteStartOptions). xs ≡ [])
                        (dest_path os paths args.dest src) _ (dest_path-IsLocal args.dest src) refl
                        (λ dest e''. refl))))))
          (client_secret-Starts secret)

  -- Whatever the arguments, and whether it succeeds or not, `main` starts no server on the remote
  -- end, or it starts one, in client mode with `--remote-start` and a secret of at most 255 bytes,
  -- for the user given, or the current one where none is given and the name is UTF-8, at the
  -- address given or 127.0.0.1, with `--remote-start-port` for SSH, `--port` for the server, the
  -- identity file, and `--remote-start-workers` or else `--workers`.
  pub startup-Starts : (args : Args) → Starts args (remote_starts (startup os paths args).1)
  unfolding startup server_mode remote_starts
  startup-Starts args =
      behind_local (Starts args) (remove_self os paths args.ephemeral) _
        (remove_self-IsLocal args.ephemeral) (inl refl)
        (λ u e.
          behind_local (Starts args) (detach os paths args.detached) _
            (detach-IsLocal args.detached) (inl refl)
            (λ u' e'.
              behind_local (Starts args) (check_secret (unwrap_or [] args.secret)) _
                (check_secret-IsLocal (unwrap_or [] args.secret)) (inl refl)
                (λ secret e''.
                  by_mode args.server refl secret
                    (check_secret-ok (unwrap_or [] args.secret) secret e'').1)))
    where
      by_mode :
          (b : Bool)
          → args.server ≡ b
          → (secret : String) → length (unwrap_or [] args.secret) ≤ 255
          → Starts args (
              remote_starts
                (if b
                  then server_mode os paths args secret
                  else client_mode os paths args secret).1)
      by_mode true server secret fits = inl refl
      by_mode false client secret fits = client_mode-Starts args client fits secret

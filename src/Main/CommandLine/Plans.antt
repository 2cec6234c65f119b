-- ===== src/Main/CommandLine/Plans.antt =====
-- What `main` of src/main.rs goes on to, and what it has done before.
use deltasync.Base.{
  ℕ, ◌≤◌, ◌≡◌, refl, sym, ap, subst, ◌++◌, [], Bool, true, false, Option, none, some, if◌then◌else◌,
  length, ltb, arith, inl, inr, Bool-cases,
}
use deltasync.Bytes.{String}
use deltasync.Client.Request.{try_into}
use deltasync.Io.{Error, Result}
use deltasync.Main.Paths.{PathOps, absolute_path, absolute_path-absolute}
use deltasync.Main.CommandLine.{
  Args, Plan, serves, syncs, Surroundings, M, pure, lift, and_then, ◌>>=◌, unwrap_or, ok_or,
  check_secret, choose_username, remove_self, detach, start_remote, remote_options, remote_secret,
  address_of, client_secret, dest_path, client_mode, server_mode, startup,
}
use deltasync.RemoteStart.Secret.{remote_start_server-IsDrawn}
use deltasync.RemoteStart.Session.{History}
use deltasync.RemoteStart.Text.{text, to_string}

-- A bind that returns `Ok` has two parts that do.
invert :
    {A B G : Type 0} (m : M A) (f : A → M B) (b : B)
    → (m >>= f).0 ≡ Result.ok b
    → ((a : A) → m.0 ≡ Result.ok a → (f a).0 ≡ Result.ok b → G)
    → G
invert {A} {B} {G} m f b e k = go m.0 refl e
  where
    go : (o : Result A) → m.0 ≡ o → (and_then o m.1 f).0 ≡ Result.ok b → G
    go (Result.ok a) same e' = k a same e'
    go (Result.err x) same e' = absurd cc

pub ok_injective : {A : Type 0} {x y : A} → ◌≡◌ {A = Result A} (Result.ok x) (Result.ok y) → x ≡ y
ok_injective q = cc

pub check_secret-ok : (s t : String) → (check_secret s).0 ≡ Result.ok t → (t ≡ s) × (length s ≤ 255)
unfolding check_secret
check_secret-ok s t e = elim (Bool-cases (ltb 255 (length s))) [
  | inl long ↦ cc (rw long at e)
  | inr short ↦
      let same : ◌≡◌ {A = Result String} (Result.ok s) (Result.ok t) = rw short at e in
      (sym (ok_injective same), ground (arith, short))
]

module _ (os : Surroundings) (paths : PathOps) where
  open paths use {is_absolute}

  -- The secrets that are drawn fit in a `u8` with their length; they are of 30 characters.
  abbrev pub HasShortSecrets : Type 0
  HasShortSecrets = (h : History) → length (os.answers.random_secret h) ≤ 255

  -- The path that is given, made absolute; without a destination it is the source.
  abbrev pub IsPath : String → String → Type 0
  IsPath given path = (is_absolute path ≡ true) × (absolute_path paths given ≡ Result.ok path)

  abbrev pub IsDest : Option String → String → String → Type 0
  IsDest none src d = d ≡ src
  IsDest (some dest) src d = IsPath dest d

  -- What `main` guarantees to the accept loop and to `client::new_process`.
  abbrev pub IsSound : Args → Plan → Type 0
  IsSound args (serves address secret workers one_shot) =
      (args.server ≡ true)
      × (secret ≡ unwrap_or [] args.secret)
      × (length secret ≤ 255)
      × (address ≡ unwrap_or (text "0.0.0.0") args.ip ++ text ":" ++ to_string args.port)
      × (workers ≡ args.workers)
      × (one_shot ≡ args.one_shot)
  IsSound args (syncs address o) =
      (args.server ≡ false)
      × ((src : String) × (args.src ≡ some src) × IsPath src o.src_path)
      × (is_absolute o.dest ≡ true)
      × IsDest args.dest o.src_path o.dest
      × (try_into 256 (length o.secret) ≡ Result.ok (length o.secret))
      × (address ≡ unwrap_or (text "127.0.0.1") args.ip ++ text ":" ++ to_string args.port)
      × (o.force_truncate ≡ args.force_truncate)
      × (o.workers ≡ args.workers)
      × (o.block_size ≡ args.block_size)
      × (o.hash_algorithm ≡ args.hash)

  short-try_into : (n : ℕ) → n ≤ 255 → try_into 256 n ≡ Result.ok n
  unfolding try_into
  short-try_into n h = ground arith

  remote_secret-short :
      HasShortSecrets
      → (args : Args) (ip s : String) → (remote_secret os paths args ip).0 ≡ Result.ok s
      → length s ≤ 255
  unfolding remote_secret start_remote
  remote_secret-short short args ip s e =
      invert (ok_or Error.no_username (choose_username args.remote_start_user os.current_username))
        _ s e
        (λ username e0 e1.
          let (h, drawn) =
            remote_start_server-IsDrawn os.answers os.program
              (remote_options os paths args ip username) os.executable s e1 in
          subst (λ (x : String). length x ≤ 255) (sym drawn) (short h))

  client_secret-short :
      HasShortSecrets
      → (args : Args) (ip given s : String) → length given ≤ 255
      → (client_secret os paths args ip given).0 ≡ Result.ok s
      → length s ≤ 255
  unfolding client_secret
  client_secret-short short args ip given s fits e = by_flag args.remote_start e
    where
      by_flag :
          (b : Bool)
          → (if b then remote_secret os paths args ip else pure given).0 ≡ Result.ok s
          → length s ≤ 255
      by_flag true e' = remote_secret-short short args ip s e'
      by_flag false e' = subst (λ (x : String). length x ≤ 255) (ok_injective e') fits

  dest_path_sound :
      (dest : Option String) (src d : String)
      → is_absolute src ≡ true
      → (dest_path os paths dest src).0 ≡ Result.ok d
      → (is_absolute d ≡ true) × IsDest dest src d
  unfolding dest_path
  dest_path_sound none src d absolute e =
      let same : src ≡ d = ok_injective e in
      (subst (λ (x : String). is_absolute x ≡ true) same absolute, sym same)
  dest_path_sound (some x) src d absolute e =
      let absolute' = (absolute_path-absolute paths x d e).0 in (absolute', (absolute', e))

  client_mode-IsSound :
      HasShortSecrets
      → (args : Args) (given : String) (plan : Plan) → args.server ≡ false
      → length given ≤ 255
      → (client_mode os paths args given).0 ≡ Result.ok plan
      → IsSound args plan
  unfolding client_mode address_of
  client_mode-IsSound short args given plan client fits e =
      invert (client_secret os paths args _ given) _ plan e (λ secret e0 e1.
        invert (ok_or Error.missing_source args.src) _ plan e1 (λ src_arg e2 e3.
          invert (lift (absolute_path paths src_arg)) _ plan e3 (λ src e4 e5.
            invert (dest_path os paths args.dest src) _ plan e5 (λ dest e6 e7.
              let absolute = (absolute_path-absolute paths src_arg src e4).0 in
              let (absolute', same) = dest_path_sound args.dest src dest absolute e6 in
              let given_src : args.src ≡ some src_arg = found args.src src_arg e2 in
              subst (IsSound args) (ok_injective e7) (
                client,
                (src_arg, given_src, (absolute, e4)),
                absolute',
                same,
                short-try_into (length secret)
                    (client_secret-short short args _ given secret fits e0),
                refl,
                refl,
                refl,
                refl,
                refl,
              )))))
    where
      found :
          (o : Option String) (x : String)
          → (ok_or Error.missing_source o).0 ≡ Result.ok x
          → o ≡ some x
      found none x e' = absurd cc
      found (some y) x e' = ap (λ (z : String). some z) (ok_injective e')

  -- What `main` goes on to: with `--server` it serves with the secret given, of at most 255 bytes,
  -- on the address, with the workers and the one-shot flag of the arguments; without it, the paths
  -- of the source and of the destination are those given, made absolute, the destination is the
  -- source where none is given, the length of the secret fits the byte that the client sends it
  -- with, and the address, the flag `--truncate`, the workers, the block size and the algorithm are
  -- those of the arguments. The secrets that `remote_start_server` draws have at most 255 bytes.
  pub startup-IsSound :
      HasShortSecrets
      → (args : Args) (plan : Plan) → (startup os paths args).0 ≡ Result.ok plan
      → IsSound args plan
  unfolding startup server_mode address_of
  startup-IsSound short args plan e =
      invert (remove_self os paths args.ephemeral) _ plan e (λ u e0 e1.
        invert (detach os paths args.detached) _ plan e1 (λ u' e2 e3.
          invert (check_secret (unwrap_or [] args.secret)) _ plan e3 (λ secret e4 e5.
            let (same, fits) = check_secret-ok (unwrap_or [] args.secret) secret e4 in
            by_mode args.server refl secret same
              (subst (λ (x : String). length x ≤ 255) (sym same) fits) e5)))
    where
      by_mode :
          (b : Bool)
          → args.server ≡ b
          → (secret : String) → secret ≡ unwrap_or [] args.secret
          → length secret ≤ 255
          → (if b then server_mode os paths args secret else client_mode os paths args secret).0
            ≡ Result.ok plan
          → IsSound args plan
      by_mode true server secret same fits e' =
          subst (IsSound args) (ok_injective e') (server, same, fits, refl, refl, refl)
      by_mode false client secret same fits e' =
          client_mode-IsSound short args secret plan client fits e'

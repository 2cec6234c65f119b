-- ===== src/RemoteStart/Log.antt =====
-- What the calls of src/remote_start.rs have done to the remote end: the commands that were run, and
-- the bytes that were sent to them.
use deltasync.Base.{
  ℕ, ◌≡◌, refl, sym, ap, subst, ◌∙◌, List, [], ◌∷◌, ◌++◌, append_assoc, append-nil,
}
use deltasync.Bytes.{String}
use deltasync.Io.{Error, Result}
use deltasync.RemoteStart.Session.{
  History, Call, Answers, M, ◌>>=◌, ◌>>◌, and_then, call, call_unwrap,
}

abbrev pub command_of : Call → List String
command_of (Call.exec command) = command ∷ []
command_of c = []

abbrev pub bytes_of : Call → List ℕ
bytes_of (Call.write_all bs) = bs
bytes_of c = []

unfoldable pub commands : History → List String
commands [] = []
commands (c ∷ h) = command_of c ++ commands h

unfoldable pub uploads : History → List ℕ
uploads [] = []
uploads (c ∷ h) = bytes_of c ++ uploads h

pub commands-append : (h h' : History) → commands (h ++ h') ≡ commands h ++ commands h'
unfolding commands
commands-append [] h' = refl
commands-append (c ∷ h) h' =
    ap (◌++◌ (command_of c)) (commands-append h h')
    ∙ sym (append_assoc (command_of c) (commands h) (commands h'))

pub uploads-append : (h h' : History) → uploads (h ++ h') ≡ uploads h ++ uploads h'
unfolding uploads
uploads-append [] h' = refl
uploads-append (c ∷ h) h' =
    ap (◌++◌ (bytes_of c)) (uploads-append h h')
    ∙ sym (append_assoc (bytes_of c) (uploads h) (uploads h'))

-- Between two histories these commands were run, and these bytes were sent.
abbrev pub Between : History → History → List String → List ℕ → Type 0
Between h h' cs bs = (commands h' ≡ commands h ++ cs) × (uploads h' ≡ uploads h ++ bs)

-- So they were by a computation that returns `Ok`, of a value that has the property.
abbrev pub Does : {A : Type 0} → M A → (A → Type 0) → List String → List ℕ → Type 0
Does {A} m P cs bs =
    (h : History) (a : A) (h' : History) → m h ≡ (Result.ok a, h') → P a × Between h h' cs bs

abbrev pub Any : {A : Type 0} → A → Type 0
Any a = Unit

pub Between-trans :
    (h h' h'' : History) (cs cs' : List String) (bs bs' : List ℕ)
    → Between h h' cs bs
    → Between h' h'' cs' bs'
    → Between h h'' (cs ++ cs') (bs ++ bs')
Between-trans h h' h'' cs cs' bs bs' x y = (
  y.0 ∙ ap (λ (l : List String). l ++ cs') x.0 ∙ append_assoc (commands h) cs cs',
  y.1 ∙ ap (λ (l : List ℕ). l ++ bs') x.1 ∙ append_assoc (uploads h) bs bs',
)

-- A bind that returns `Ok` has two parts that do.
pub >>=-eq-ok :
    {A B : Type 0} (m : M A) (f : A → M B) (h : History) (b : B) (h'' : History)
    → (m >>= f) h ≡ (Result.ok b, h'')
    → (a : A) × (h' : History) × (m h ≡ (Result.ok a, h')) × (f a h' ≡ (Result.ok b, h''))
>>=-eq-ok {A} {B} m f h b h'' e = go (m h).0 (m h).1 refl refl e
  where
    go :
        (o : Result A) (h' : History)
        → (m h).0 ≡ o
        → (m h).1 ≡ h'
        → and_then o h' f ≡ (Result.ok b, h'')
        → (a : A) × (k : History) × (m h ≡ (Result.ok a, k)) × (f a k ≡ (Result.ok b, h''))
    go (Result.ok a) h' x y e' = (a, h', (λ i. (x i, y i)), e')
    go (Result.err x) h' y z e' = absurd (bad e')
      where
        bad : ◌≡◌ {A = Result B × History} (Result.err x, h') (Result.ok b, h'') → ⊥
        bad q = cc (ap (λ (p : Result B × History). p.0) q)

pub failing :
    {A : Type 0} {e : Error} {h h' : History} {a : A}
    → ◌≡◌ {A = Result A × History} (Result.err e, h) (Result.ok a, h')
    → ⊥
failing {A} q = cc (ap (λ (p : Result A × History). p.0) q)

-- The same, in the style of a rule.
pub invert :
    {A B : Type 0} {G : Type 0} (m : M A) (f : A → M B) (h : History) (b : B) (h'' : History)
    → (m >>= f) h ≡ (Result.ok b, h'')
    → ((a : A) (h' : History) → m h ≡ (Result.ok a, h') → f a h' ≡ (Result.ok b, h'') → G)
    → G
invert m f h b h'' e k = let (a, h', first, second) = >>=-eq-ok m f h b h'' e in k a h' first second

pub bind-Does :
    {A B : Type 0} (m : M A) (f : A → M B) (P : A → Type 0) (Q : B → Type 0) (cs cs' : List String)
    (bs bs' : List ℕ)
    → Does m P cs bs
    → ((a : A) → P a → Does (f a) Q cs' bs')
    → Does (m >>= f) Q (cs ++ cs') (bs ++ bs')
bind-Does m f P Q cs cs' bs bs' x y h b h'' e =
    let (a, h', first, second) = >>=-eq-ok m f h b h'' e in
    let (p, between) = x h a h' first in
    let (q, between') = y a p h' b h'' second in
    (q, Between-trans h h' h'' cs cs' bs bs' between between')

pub then-Does :
    {A B : Type 0} (m : M A) (n : M B) (Q : B → Type 0) (cs cs' : List String) (bs bs' : List ℕ)
    → Does m Any cs bs
    → Does n Q cs' bs'
    → Does (m >> n) Q (cs ++ cs') (bs ++ bs')
then-Does m n Q cs cs' bs bs' x y = bind-Does m (λ a. n) Any Q cs cs' bs bs' x (λ a p. y)

pub logged : (c : Call) (h : History) → Between h (h ++ c ∷ []) (command_of c) (bytes_of c)
unfolding commands uploads
logged c h = (
  commands-append h (c ∷ []) ∙ ap (◌++◌ (commands h)) (append-nil (command_of c)),
  uploads-append h (c ∷ []) ∙ ap (◌++◌ (uploads h)) (append-nil (bytes_of c)),
)

pub idle : (h : History) → Between h h [] []
idle h = (sym (append-nil (commands h)), sym (append-nil (uploads h)))

module _ (w : Answers) where
  pub call-Does : (c : Call) → Does (call w c) Any (command_of c) (bytes_of c)
  unfolding call
  call-Does c h a h' e = (
    tt,
    subst (λ (x : History). Between h x (command_of c) (bytes_of c))
        (ap (λ (p : Result (Unit {0}) × History). p.1) e) (logged c h),
  )

  call_unwrap-Does : (c : Call) → Does (call_unwrap w c) Any (command_of c) (bytes_of c)
  unfolding call_unwrap
  call_unwrap-Does c h a h' e = (
    tt,
    subst (λ (x : History). Between h x (command_of c) (bytes_of c))
        (ap (λ (p : Result (Unit {0}) × History). p.1) e) (logged c h),
  )

  -- A call before the rest.
  pub step-Does :
      {B : Type 0} (c : Call) (n : M B) (Q : B → Type 0) (cs : List String) (bs : List ℕ)
      → Does n Q cs bs
      → Does (call w c >> n) Q (command_of c ++ cs) (bytes_of c ++ bs)
  step-Does c n Q cs bs y =
      then-Does (call w c) n Q (command_of c) cs (bytes_of c) bs (call-Does c) y

  pub unwrap-Does :
      {B : Type 0} (c : Call) (n : M B) (Q : B → Type 0) (cs : List String) (bs : List ℕ)
      → Does n Q cs bs
      → Does (call_unwrap w c >> n) Q (command_of c ++ cs) (bytes_of c ++ bs)
  unwrap-Does c n Q cs bs y =
      then-Does (call_unwrap w c) n Q (command_of c) cs (bytes_of c) bs (call_unwrap-Does c) y

  -- A computation that makes no call.
  pub silent-Does :
      {A : Type 0} (m : M A) (value : History → A) (P : A → Type 0)
      → ((h : History) → m h ≡ (Result.ok (value h), h))
      → ((h : History) → P (value h))
      → Does m P [] []
  silent-Does {A} m value P same p h a h' e =
      let here : ◌≡◌ {A = Result A × History} (Result.ok (value h), h) (Result.ok a, h') =
        sym (same h) ∙ e in
      let at : value h ≡ a = ok_injective (ap (λ (q : Result A × History). q.0) here) in
      (
        subst P at (p h),
        subst (λ (x : History). Between h x [] []) (ap (λ (q : Result A × History). q.1) here)
            (idle h),
      )
    where
      ok_injective : {x y : A} → ◌≡◌ {A = Result A} (Result.ok x) (Result.ok y) → x ≡ y
      ok_injective q = cc

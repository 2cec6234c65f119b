-- ===== src/RemoteStart/Quiet.antt =====
-- What the computations of src/remote_start.rs add to the history, whatever they return.
use deltasync.Base.{
  ◌≡◌, refl, sym, ap, ◌∙◌, [], ◌∷◌, ◌++◌, append_assoc, append-nil, Bool, true, false,
  if◌then◌else◌,
}
use deltasync.Io.{Error, Result}
use deltasync.RemoteStart.Session.{
  History, Call, Answers, M, ◌>>=◌, ◌>>◌, and_then, pure, raise, attempt, call, call_unwrap, answer,
  unless_authenticated,
}

module _ (w : Answers) (P : History → Type 0) (nothing : P [])
    (joined : (h h' : History) → P h → P h' → P (h ++ h')) where
  abbrev pub Added : History → History → Type 0
  Added h h' = (rest : History) × (h' ≡ h ++ rest) × P rest

  abbrev pub Adds : {A : Type 0} → M A → Type 0
  Adds m = (h : History) → Added h (m h).1

  pub stay : (h : History) → Added h h
  stay h = ([], sym (append-nil h), nothing)

  pub Added-trans : (h h' h'' : History) → Added h h' → Added h' h'' → Added h h''
  Added-trans h h' h'' (rest, e, p) (rest', e', p') = (
    rest ++ rest',
    e' ∙ ap (λ (x : History). x ++ rest') e ∙ append_assoc h rest rest',
    joined rest rest' p p',
  )

  pub call-Adds : (c : Call) → P (c ∷ []) → Adds (call w c)
  unfolding call
  call-Adds c p h = (c ∷ [], refl, p)

  pub call_unwrap-Adds : (c : Call) → P (c ∷ []) → Adds (call_unwrap w c)
  unfolding call_unwrap
  call_unwrap-Adds c p h = (c ∷ [], refl, p)

  pub answer-Adds : (c : Call) → Adds (answer w c)
  unfolding answer
  answer-Adds c h = stay h

  pub pure-Adds : {A : Type 0} (a : A) → Adds (pure a)
  pure-Adds a h = stay h

  pub raise-Adds : (A : Type 0) (e : Error) → Adds {A = A} (raise e)
  raise-Adds A e h = stay h

  pub attempt-Adds : {A : Type 0} (m : M A) → Adds m → Adds (attempt m)
  attempt-Adds m x h = x h

  pub unless-Adds : (m : M (Unit {0})) → Adds m → Adds (unless_authenticated w m)
  unfolding unless_authenticated
  unless-Adds m x h = by_test (w.authenticated h)
    where
      by_test : (b : Bool) → Added h (if b then (Result.ok tt, h) else m h).1
      by_test true = stay h
      by_test false = x h

  pub bind-Adds :
      {A B : Type 0} (m : M A) (f : A → M B) → Adds m → ((a : A) → Adds (f a)) → Adds (m >>= f)
  bind-Adds {A} {B} m f x y h = go (m h).0
    where
      go : (o : Result A) → Added h (and_then o (m h).1 f).1
      go (Result.ok a) = Added-trans h (m h).1 _ (x h) (y a (m h).1)
      go (Result.err e) = x h

  pub then-Adds : {A B : Type 0} (m : M A) (n : M B) → Adds m → Adds n → Adds (m >> n)
  then-Adds m n x y = bind-Adds m (λ a. n) x (λ a. y)

  pub step-Adds : {B : Type 0} (c : Call) (n : M B) → P (c ∷ []) → Adds n → Adds (call w c >> n)
  step-Adds c n p y = then-Adds (call w c) n (call-Adds c p) y

-- ===== src/Main/Accept/Lock.antt =====
-- The accept loop of src/main.rs as a lock that one client holds.
use deltasync.Base.{
  ℕ, ◌≡◌, refl, sym, subst, List, [], ◌∷◌, ◌++◌, Bool, true, false, Option, none, some, get_elem?,
  set, arith, inl, inr, if◌then◌else◌, ◌==◌,
}
use deltasync.Common.Status.{StatusCode}
use deltasync.Main.Accept.{
  Task, processing, replying, storing, Phase, accepting, awaiting, left, Acceptor, bind, Move,
  connects, stream_ends, returns, replied, stored, remove_at, accept_client, spawn_task, turn_away,
  on_connect, on_stream_end, on_return, on_reply, after_await, on_store, step, accept_loop,
}
use deltasync.Main.Accept.Invariant.{Inv, Held, sole}
use deltasync.Main.Accept.Preserved.{bind-Inv, step-Inv, accept_loop-Inv}

pub data Lock : Type 0 where
  free shut : Lock
  busy : ℕ → Lock

-- Whom a server serves; without a client, whether it takes one.
abbrev pub view_of : Phase → List (ℕ × Task) → Lock
view_of p ((client, task) ∷ ts) = busy client
view_of accepting [] = free
view_of awaiting [] = free
view_of left [] = shut

abbrev pub view : Acceptor → Lock
view a = view_of a.phase a.tasks

-- A client takes the lock when it is free, and no other one takes it before it is given back.
infix 40 ◌⟶◌ ◌⟶*◌
pub data ◌⟶◌ : Lock → Lock → Type 0 where
  stay : {l : Lock} → l ⟶ l
  acquire : {c : ℕ} → free ⟶ busy c
  release : {c : ℕ} → busy c ⟶ free
  close : free ⟶ shut
  finish : {c : ℕ} → busy c ⟶ shut

pub data ◌⟶*◌ : Lock → Lock → Type 0 where
  here : {l : Lock} → l ⟶* l
  further : {l m n : Lock} → l ⟶* m → m ⟶ n → l ⟶* n

same_view : (a a' : Acceptor) → a' ≡ a → view a ⟶ view a'
same_view a a' e = subst (λ (x : Acceptor). view a ⟶ view x) (sym e) stay

-- The one task moves on, and the client stays.
moved-⟶ :
    (p : Phase) (count i c : ℕ) (tasks : List (ℕ × Task)) (t t' : Task)
    → Held count tasks
    → get_elem? tasks i ≡ some (c, t)
    → view_of p tasks ⟶ view_of p (set tasks i (c, t'))
moved-⟶ p count i c tasks t t' h found =
    let (at, one, e) = sole count tasks i c t h found in go tasks i e at
  where
    go :
        (ts : List (ℕ × Task)) (j : ℕ)
        → ts ≡ (c, t) ∷ []
        → j ≡ 0
        → view_of p ts ⟶ view_of p (set ts j (c, t'))
    go ts j e z = rw (e, z) stay

on_return-⟶ :
    (i : ℕ) (r : Option StatusCode) (x : Option (ℕ × Task)) (a : Acceptor)
    → get_elem? a.tasks i ≡ x
    → Inv a
    → view a ⟶ view (on_return i r x a)
unfolding on_return
on_return-⟶ i (some status) (some (c, processing)) a e v =
    moved-⟶ a.phase a.client_count i c a.tasks processing (replying status) v.held e
on_return-⟶ i none (some (c, processing)) a e v =
    moved-⟶ a.phase a.client_count i c a.tasks processing storing v.held e
on_return-⟶ i r x a e v = stay

on_reply-⟶ :
    (i : ℕ) (x : Option (ℕ × Task)) (a : Acceptor)
    → get_elem? a.tasks i ≡ x
    → Inv a
    → view a ⟶ view (on_reply i x a)
unfolding on_reply
on_reply-⟶ i (some (c, replying status)) a e v =
    moved-⟶ a.phase a.client_count i c a.tasks (replying status) storing v.held e
on_reply-⟶ i x a e v = stay

released :
    (p : Phase) (i c : ℕ) (ts : List (ℕ × Task))
    → i ≡ 0
    → ts ≡ (c, storing) ∷ []
    → view_of p ts ⟶ view_of (after_await p) (remove_at i ts)
unfolding after_await remove_at
released accepting i c ts z e = rw (e, z) release
released awaiting i c ts z e = rw (e, z) finish
released left i c ts z e = rw (e, z) finish

on_store-⟶ :
    (i : ℕ) (x : Option (ℕ × Task)) (a : Acceptor)
    → get_elem? a.tasks i ≡ x
    → Inv a
    → view a ⟶ view (on_store i x a)
unfolding on_store
on_store-⟶ i (some (c, storing)) a e v =
    let (at, one, same) = sole a.client_count a.tasks i c storing v.held e in
    released a.phase i c a.tasks at same
on_store-⟶ i x a e v = stay

acquired :
    (p p' : Phase) (ts : List (ℕ × Task)) (n : ℕ)
    → p ≡ accepting
    → ts ≡ []
    → view_of p ts ⟶ view_of p' (ts ++ (n, processing) ∷ [])
acquired p p' ts n e e' = rw (e, e') acquire

by_test-⟶ :
    (l : Lock) (b : Bool) (x y : Acceptor)
    → (b ≡ true → l ⟶ view x)
    → (b ≡ false → l ⟶ view y)
    → l ⟶ view (if b then x else y)
by_test-⟶ l true x y h h' = h refl
by_test-⟶ l false x y h h' = h' refl

accept_client-⟶ : (a : Acceptor) → a.phase ≡ accepting → Inv a → view a ⟶ view (accept_client a)
unfolding accept_client spawn_task turn_away
accept_client-⟶ a at v =
    by_test-⟶ (view a) (a.client_count == 0) _ _
      (λ e. acquired a.phase _ a.tasks a.arrivals at (unheld e v.held)) (λ e. stay)
  where
    unheld : (a.client_count == 0) ≡ true → Held a.client_count a.tasks → a.tasks ≡ []
    unheld e (inl (none_left, same)) = same
    unheld e (inr (c, task, one, same)) = absurd (ground (arith, e, one))

on_connect-⟶ : (p : Phase) (a : Acceptor) → a.phase ≡ p → Inv a → view a ⟶ view (on_connect p a)
unfolding on_connect
on_connect-⟶ accepting a at v = accept_client-⟶ a at v
on_connect-⟶ awaiting a at v = stay
on_connect-⟶ left a at v = stay

on_stream_end-⟶ : (p : Phase) (a : Acceptor) → a.phase ≡ p → view a ⟶ view (on_stream_end p a)
unfolding on_stream_end
on_stream_end-⟶ accepting a e = ended a.phase a.tasks e
  where
    ended : (p : Phase) (ts : List (ℕ × Task)) → p ≡ accepting → view_of p ts ⟶ view_of left ts
    ended p ((c, t) ∷ ts) e = stay
    ended accepting [] e = close
    ended awaiting [] e = absurd cc
    ended left [] e = stay
on_stream_end-⟶ awaiting a e = stay
on_stream_end-⟶ left a e = stay

step-⟶ : (m : Move) (a : Acceptor) → Inv a → view a ⟶ view (step m a)
unfolding step
step-⟶ connects a v = on_connect-⟶ a.phase a refl v
step-⟶ stream_ends a v = on_stream_end-⟶ a.phase a refl
step-⟶ (returns i r) a v = on_return-⟶ i r (get_elem? a.tasks i) a refl v
step-⟶ (replied i) a v = on_reply-⟶ i (get_elem? a.tasks i) a refl v
step-⟶ (stored i) a v = on_store-⟶ i (get_elem? a.tasks i) a refl v

run-⟶ :
    (ms : List Move) (a : Acceptor) (l : Lock) → Inv a → l ⟶* view a → l ⟶* view (accept_loop ms a)
unfolding accept_loop
run-⟶ [] a l v h = h
run-⟶ (m ∷ ms) a l v h = run-⟶ ms (step m a) l (step-Inv m a v) (further h (step-⟶ m a v))

-- The accept loop is a lock that one client at a time holds: after any moves its view, which is
-- free, held by a client, or shut, is reached from free by the steps of the lock, and the next move
-- is a step of the lock or changes nothing of it. A client takes the lock when it is free; only
-- from its hands it goes back, or the loop is left.
pub accept_loop-⟶ :
    (one_shot : Bool) (ms : List Move) (m : Move)
    → let a = accept_loop ms (bind one_shot) in (free ⟶* view a) × (view a ⟶ view (step m a))
accept_loop-⟶ one_shot ms m = (
  run-⟶ ms (bind one_shot) free (bind-Inv one_shot) here,
  step-⟶ m (accept_loop ms (bind one_shot)) (accept_loop-Inv one_shot ms),
)

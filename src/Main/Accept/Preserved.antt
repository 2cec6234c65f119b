-- ===== src/Main/Accept/Preserved.antt =====
-- Every move of the accept loop of src/main.rs keeps the invariant.
use deltasync.Base.{
  ℕ, ◌+◌, ◌<◌, ◌≡◌, refl, ap, subst, List, [], ◌∷◌, ◌++◌, Bool, true, false, ◌==◌, if◌then◌else◌,
  get_elem?, inl, inr, arith, ltb, Bool-cases,
}
use deltasync.Common.Status.{StatusCode}
use deltasync.Main.Accept.{
  Task, processing, Phase, accepting, awaiting, left, Acceptor, bind, Move, connects, stream_ends,
  returns, replied, stored, accept_client, spawn_task, turn_away, on_connect, on_stream_end, step,
  accept_loop,
}
use deltasync.Main.Accept.Invariant.{
  Answered, Inv, Has-append, Has-last, on_return-Inv, on_reply-Inv, on_store-Inv,
}

by_test-Inv :
    (b : Bool) (x y : Acceptor)
    → (b ≡ true → Inv x)
    → (b ≡ false → Inv y)
    → Inv (if b then x else y)
by_test-Inv true x y h h' = h refl
by_test-Inv false x y h h' = h' refl

-- One more client has come.
one_more : (n : ℕ) (P : ℕ → Type 0) → ((k : ℕ) → k < n → P k) → P n → (k : ℕ) → k < n + 1 → P k
one_more n P h last k lt = elim (Bool-cases (ltb k n)) [
  | inl below ↦ h k (ground (arith, below))
  | inr above ↦ let e : n ≡ k = ground (arith, above, lt) in subst P e last
]

if-awaiting : (b : Bool) → (if b then awaiting else accepting) ≡ awaiting → b ≡ true
if-awaiting true h = refl
if-awaiting false h = absurd cc

if-accepting : (b : Bool) → (if b then awaiting else accepting) ≡ accepting → b ≡ false
if-accepting true h = absurd cc
if-accepting false h = refl

spawn_task-Inv : (a : Acceptor) → a.phase ≡ accepting → a.tasks ≡ [] → Inv a → Inv (spawn_task a)
unfolding spawn_task
spawn_task-Inv a at none_left v =
    let e : a.tasks ++ (a.arrivals, processing) ∷ [] ≡ (a.arrivals, processing) ∷ [] =
      ap (λ (ts : List (ℕ × Task)). ts ++ (a.arrivals, processing) ∷ []) none_left in
    record {
      held = inr (a.arrivals, processing, refl, e);
      answered =
          one_more a.arrivals (Answered (spawn_task a))
            (λ k lt. elim (v.answered k lt) [ inl (task, same) ↦ absurd cc | inr h ↦ inr h ])
            (inl (processing, e));
      awaits = λ h. (if-awaiting a.one_shot h, refl);
      fresh = λ os h. absurd (cc (if-accepting a.one_shot h));
      once = λ os. omega (arith, (v.fresh os at).1);
    }

turn_away-Inv :
    (a : Acceptor) → a.phase ≡ accepting → a.client_count ≡ 1 → Inv a → Inv (turn_away a)
unfolding turn_away
turn_away-Inv a at one v = record {
  held = v.held;
  answered =
      one_more a.arrivals (Answered (turn_away a))
        (λ k lt. elim (v.answered k lt) [
          | inl h ↦ inl h
          | inr (inl h) ↦ inr (inl h)
          | inr (inr h) ↦ inr (
              inr (
                Has-append (k, StatusCode.client_already_connected) a.replies
                  ((a.arrivals, StatusCode.client_already_connected) ∷ []) h))
        ])
        (inr (inr (Has-last (a.arrivals, StatusCode.client_already_connected) a.replies)));
  awaits = v.awaits;
  fresh = λ os acc. absurd (omega (arith, one, (v.fresh os acc).0));
  once = λ os. absurd (omega (arith, one, (v.fresh os at).0));
}

-- A client is taken where the count is 0, and told of the other one where it is not.
accept_client-Inv : (a : Acceptor) → a.phase ≡ accepting → Inv a → Inv (accept_client a)
unfolding accept_client
accept_client-Inv a at v = elim v.held [
  | inl (zero_count, none_left) ↦
      by_test-Inv (a.client_count == 0) _ _ (λ e. spawn_task-Inv a at none_left v)
        (λ e. absurd (ground (arith, e, zero_count)))
  | inr (c, task, one, same) ↦
      by_test-Inv (a.client_count == 0) _ _ (λ e. absurd (ground (arith, e, one)))
        (λ e. turn_away-Inv a at one v)
]

on_connect-Inv : (p : Phase) (a : Acceptor) → a.phase ≡ p → Inv a → Inv (on_connect p a)
unfolding on_connect
on_connect-Inv accepting a at v = accept_client-Inv a at v
on_connect-Inv awaiting a at v = v
on_connect-Inv left a at v = v

on_stream_end-Inv : (p : Phase) (a : Acceptor) → Inv a → Inv (on_stream_end p a)
unfolding on_stream_end
on_stream_end-Inv accepting a v = record {
  held = v.held;
  answered = v.answered;
  awaits = λ h. absurd cc;
  fresh = λ os h. absurd cc;
  once = v.once;
}
on_stream_end-Inv awaiting a v = v
on_stream_end-Inv left a v = v

pub step-Inv : (m : Move) (a : Acceptor) → Inv a → Inv (step m a)
unfolding step
step-Inv connects a v = on_connect-Inv a.phase a refl v
step-Inv stream_ends a v = on_stream_end-Inv a.phase a v
step-Inv (returns i r) a v = on_return-Inv i r (get_elem? a.tasks i) a refl v
step-Inv (replied i) a v = on_reply-Inv i (get_elem? a.tasks i) a refl v
step-Inv (stored i) a v = on_store-Inv i (get_elem? a.tasks i) a refl v

pub bind-Inv : (one_shot : Bool) → Inv (bind one_shot)
bind-Inv one_shot = record {
  held = inl (refl, refl);
  answered = λ k lt. absurd (omega (arith, lt));
  awaits = λ h. absurd cc;
  fresh = λ os h. (refl, refl);
  once = λ os. omega arith;
}

run-Inv : (ms : List Move) (a : Acceptor) → Inv a → Inv (accept_loop ms a)
unfolding accept_loop
run-Inv [] a v = v
run-Inv (m ∷ ms) a v = run-Inv ms (step m a) (step-Inv m a v)

-- After any moves of the accept loop and of the tasks, in any order: the client count is 1 and
-- there is one task, or it is 0 and there is none; each client that has come is being served, or
-- its process is over, or it was answered `ClientAlreadyConnected`; and with `--one-shot` one
-- client at most has come, and the loop awaits its task while that is there.
pub accept_loop-Inv : (one_shot : Bool) (ms : List Move) → Inv (accept_loop ms (bind one_shot))
accept_loop-Inv one_shot ms = run-Inv ms (bind one_shot) (bind-Inv one_shot)

-- ===== src/Main/Accept/Served.antt =====
-- The accept loop of src/main.rs while a client is served.
use deltasync.Base.{
  ℕ, zero, suc, ◌+◌, ◌≡◌, refl, sym, append-nil, append_assoc, ap, subst, ◌∙◌, List, [], ◌∷◌, ◌++◌,
  Bool, true, false, Option, none, some, get_elem?, ◌==◌, if◌then◌else◌, arith, inl, inr,
}
use deltasync.Common.Status.{StatusCode}
use deltasync.Main.Accept.{
  Task, processing, replying, storing, Phase, accepting, awaiting, Acceptor, bind, Move, connects,
  stream_ends, returns, replied, stored, accept_client, spawn_task, turn_away, on_connect,
  on_return, on_reply, after_await, on_store, step, accept_loop,
}
use deltasync.Main.Accept.Invariant.{Held}
use deltasync.Main.Accept.Preserved.{accept_loop-Inv}

-- The server has client `c`, whose task is that far, and `arrivals` have come.
abbrev pub holding : ℕ → Task → ℕ → List (ℕ × StatusCode) → List ℕ → Acceptor
holding c task arrivals replies over = record {
  one_shot = false;
  client_count = 1;
  tasks = (c, task) ∷ [];
  arrivals = arrivals;
  replies = replies;
  over = over;
  phase = accepting;
}

-- `n` clients that come one after the other, and what they are told, the first one being `k`.
abbrev pub callers : ℕ → List Move
callers zero = []
callers (suc n) = connects ∷ callers n

abbrev pub turned_away : ℕ → ℕ → List (ℕ × StatusCode)
turned_away k zero = []
turned_away k (suc n) = (k, StatusCode.client_already_connected) ∷ turned_away (k + 1) n

-- The stream of the listener has not ended.
abbrev pub IsListening : List Move → Type 0
IsListening [] = Unit
IsListening (connects ∷ ms) = IsListening ms
IsListening (stream_ends ∷ ms) = ⊥
IsListening (returns i r ∷ ms) = IsListening ms
IsListening (replied i ∷ ms) = IsListening ms
IsListening (stored i ∷ ms) = IsListening ms

pub accept_loop-append :
    (xs ys : List Move) (a : Acceptor)
    → accept_loop (xs ++ ys) a ≡ accept_loop ys (accept_loop xs a)
unfolding accept_loop
accept_loop-append [] ys a = refl
accept_loop-append (m ∷ xs) ys a = accept_loop-append xs ys (step m a)

-- Clients that come while another one is connected are told so, and nothing else changes.
pub callers-holding :
    (n c : ℕ) (task : Task) (arrivals : ℕ) (replies : List (ℕ × StatusCode)) (over : List ℕ)
    → accept_loop (callers n) (holding c task arrivals replies over)
      ≡ holding c task (arrivals + n) (replies ++ turned_away arrivals n) over
unfolding accept_loop step on_connect accept_client turn_away
callers-holding zero c task arrivals replies over =
    let same : arrivals ≡ arrivals + 0 = omega arith in
    λ i. holding c task (same i) (sym (append-nil replies) i) over
callers-holding (suc n) c task arrivals replies over =
    let same : arrivals + 1 + n ≡ arrivals + suc n = omega arith in
    let told : List (ℕ × StatusCode) = turned_away (arrivals + 1) n in
    callers-holding n c task (arrivals + 1)
      (replies ++ (arrivals, StatusCode.client_already_connected) ∷ []) over
    ∙ (λ i.
        holding c task (same i)
          (append_assoc replies ((arrivals, StatusCode.client_already_connected) ∷ []) told i) over)

-- The loop takes the next client.
abbrev IsOpen : Acceptor → Type 0
IsOpen a = (a.one_shot ≡ false) × (a.phase ≡ accepting)

on_return-IsOpen :
    (i : ℕ) (r : Option StatusCode) (x : Option (ℕ × Task)) (a : Acceptor)
    → IsOpen a
    → IsOpen (on_return i r x a)
unfolding on_return
on_return-IsOpen i (some status) (some (c, processing)) a h = h
on_return-IsOpen i none (some (c, processing)) a h = h
on_return-IsOpen i r x a h = h

on_reply-IsOpen :
    (i : ℕ) (x : Option (ℕ × Task)) (a : Acceptor) → IsOpen a → IsOpen (on_reply i x a)
unfolding on_reply
on_reply-IsOpen i (some (c, replying status)) a h = h
on_reply-IsOpen i x a h = h

on_store-IsOpen :
    (i : ℕ) (x : Option (ℕ × Task)) (a : Acceptor) → IsOpen a → IsOpen (on_store i x a)
unfolding on_store after_await
on_store-IsOpen i (some (c, storing)) a h = (h.0, ap after_await h.1)
on_store-IsOpen i x a h = h

accept_client-IsOpen : (a : Acceptor) → IsOpen a → IsOpen (accept_client a)
unfolding accept_client spawn_task turn_away
accept_client-IsOpen a h = by_count (a.client_count == 0)
  where
    by_count : (b : Bool) → IsOpen (if b then spawn_task a else turn_away a)
    by_count true = (h.0, ap (λ (o : Bool). if o then awaiting else accepting) h.0)
    by_count false = h

step-IsOpen : (m : Move) (a : Acceptor) → IsListening (m ∷ []) → IsOpen a → IsOpen (step m a)
unfolding step on_connect
step-IsOpen connects a l h =
    subst (λ (p : Phase). IsOpen (on_connect p a)) (sym h.1) (accept_client-IsOpen a h)
step-IsOpen stream_ends a l h = absurd l
step-IsOpen (returns i r) a l h = on_return-IsOpen i r (get_elem? a.tasks i) a h
step-IsOpen (replied i) a l h = on_reply-IsOpen i (get_elem? a.tasks i) a h
step-IsOpen (stored i) a l h = on_store-IsOpen i (get_elem? a.tasks i) a h

listening :
    (m : Move) (ms : List Move) → IsListening (m ∷ ms) → IsListening (m ∷ []) × IsListening ms
listening connects ms l = (tt, l)
listening stream_ends ms l = absurd l
listening (returns i r) ms l = (tt, l)
listening (replied i) ms l = (tt, l)
listening (stored i) ms l = (tt, l)

run-IsOpen : (ms : List Move) (a : Acceptor) → IsListening ms → IsOpen a → IsOpen (accept_loop ms a)
unfolding accept_loop
run-IsOpen [] a l h = h
run-IsOpen (m ∷ ms) a l h =
    let (one, rest) = listening m ms l in run-IsOpen ms (step m a) rest (step-IsOpen m a one h)

-- While a client is served, the state is known but for what came before.
pub reached :
    (ms : List Move) (c : ℕ)
    → IsListening ms
    → (accept_loop ms (bind false)).tasks ≡ (c, processing) ∷ []
    → let a = accept_loop ms (bind false) in a ≡ holding c processing a.arrivals a.replies a.over
reached ms c l e =
    let a = accept_loop ms (bind false) in
    let h = run-IsOpen ms (bind false) l (refl, refl) in
    let one : a.client_count ≡ 1 = counted (accept_loop-Inv false ms).held in
    λ i. record {
      one_shot = h.0 i;
      client_count = one i;
      tasks = e i;
      arrivals = a.arrivals;
      replies = a.replies;
      over = a.over;
      phase = h.1 i;
    }
  where
    counted :
        Held (accept_loop ms (bind false)).client_count (accept_loop ms (bind false)).tasks
        → (accept_loop ms (bind false)).client_count ≡ 1
    counted (inl (none_left, empty)) = absurd (cc (sym e ∙ empty))
    counted (inr (k, task, one, same)) = one

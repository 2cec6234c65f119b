-- ===== src/Main/Accept/Invariant.antt =====
-- What holds of the accept loop of src/main.rs at every moment.
use deltasync.Base.{
  ℕ, zero, suc, ◌≤◌, ◌<◌, ◌≡◌, refl, sym, ap, subst, ◌∙◌, List, [], ◌∷◌, ◌++◌, append_assoc, true,
  Option, none, some, some_injective, get_elem?, set, ◌⊎◌, inl, inr, arith,
}
use deltasync.Common.Status.{StatusCode}
use deltasync.Main.Accept.{
  Task, processing, replying, storing, Phase, accepting, awaiting, left, Acceptor, remove_at,
  on_return, on_reply, after_await, on_store,
}

-- The count is 1 while there is a task, the only one, and 0 otherwise.
abbrev pub Held : ℕ → List (ℕ × Task) → Type 0
Held count tasks =
    ((count ≡ 0) × (tasks ≡ []))
    ⊎ ((client : ℕ) × (task : Task) × (count ≡ 1) × (tasks ≡ (client, task) ∷ []))

abbrev pub Has : {A : Type 0} → A → List A → Type 0
Has {A} a xs = (before : List A) × (after : List A) × (xs ≡ before ++ (a ∷ after))

-- A client is served, its process is over, or it was told that another one is connected.
abbrev pub Answered : Acceptor → ℕ → Type 0
Answered a c =
    ((task : Task) × (a.tasks ≡ (c, task) ∷ []))
    ⊎ Has c a.over
    ⊎ Has (c, StatusCode.client_already_connected) a.replies

pub record Inv (a : Acceptor) : Type 0 where
  pub held : Held a.client_count a.tasks
  pub answered : (c : ℕ) → c < a.arrivals → Answered a c
  pub awaits : a.phase ≡ awaiting → (a.one_shot ≡ true) × (a.client_count ≡ 1)
  pub fresh : a.one_shot ≡ true → a.phase ≡ accepting → (a.client_count ≡ 0) × (a.arrivals ≡ 0)
  pub once : a.one_shot ≡ true → a.arrivals ≤ 1

pub Has-append : {A : Type 0} (a : A) (xs ys : List A) → Has a xs → Has a (xs ++ ys)
Has-append a xs ys (before, after, e) =
    (before, after ++ ys, ap (λ (zs : List _). zs ++ ys) e ∙ append_assoc before (a ∷ after) ys)

pub Has-last : {A : Type 0} (a : A) (xs : List A) → Has a (xs ++ a ∷ [])
Has-last a xs = (xs, [], refl)

at_place :
    (i : ℕ) (client c : ℕ) (task t : Task)
    → get_elem? {A = ℕ × Task} ((client, task) ∷ []) i ≡ some (c, t)
    → (i ≡ 0) × (◌≡◌ {A = ℕ × Task} (client, task) (c, t))
at_place zero client c task t e = (refl, some_injective e)
at_place (suc i) client c task t e = absurd cc

-- A task that is found is the only one.
pub sole :
    (count : ℕ) (tasks : List (ℕ × Task)) (i c : ℕ) (t : Task)
    → Held count tasks
    → get_elem? tasks i ≡ some (c, t)
    → (i ≡ 0) × (count ≡ 1) × (tasks ≡ (c, t) ∷ [])
sole count tasks i c t (inl (none_left, e)) found =
    absurd (empty (subst (λ (ts : List (ℕ × Task)). get_elem? ts i ≡ some (c, t)) e found))
  where
    empty : get_elem? {A = ℕ × Task} [] i ≡ some (c, t) → ⊥
    empty h = cc
sole count tasks i c t (inr (client, task, one, e)) found =
    let (at, same) =
      at_place i client c task t
        (subst (λ (ts : List (ℕ × Task)). get_elem? ts i ≡ some (c, t)) e found) in
    (at, one, e ∙ ap (λ (x : ℕ × Task). x ∷ []) same)

set_sole :
    (tasks : List (ℕ × Task)) (i : ℕ) (x y : ℕ × Task)
    → i ≡ 0
    → tasks ≡ x ∷ []
    → set tasks i y ≡ y ∷ []
set_sole tasks i x y at e =
    ap (λ (ts : List (ℕ × Task)). set ts i y) e ∙ ap (λ (k : ℕ). set (x ∷ []) k y) at

remove_sole :
    (tasks : List (ℕ × Task)) (i : ℕ) (x : ℕ × Task)
    → i ≡ 0
    → tasks ≡ x ∷ []
    → remove_at i tasks ≡ []
unfolding remove_at
remove_sole tasks i x at e = ap (remove_at i) e ∙ ap (λ (k : ℕ). remove_at k (x ∷ [])) at

same_client :
    (k c : ℕ) (task t : Task) → ◌≡◌ {A = List (ℕ × Task)} ((k, task) ∷ []) ((c, t) ∷ []) → k ≡ c
same_client k c task t e =
    ap (λ (x : ℕ × Task). x.0) (some_injective (ap (λ (ts : List (ℕ × Task)). get_elem? ts 0) e))

-- The task of the client moves on.
moved-Inv :
    (a : Acceptor) (i c : ℕ) (t t' : Task) (replies' : List (ℕ × StatusCode))
    → Inv a
    → get_elem? a.tasks i ≡ some (c, t)
    → ((x : ℕ × StatusCode) → Has x a.replies → Has x replies')
    → Inv (record a { tasks = set a.tasks i (c, t'); replies = replies' })
moved-Inv a i c t t' replies' v found kept =
    let (at, one, e) = sole a.client_count a.tasks i c t v.held found in
    let e' = set_sole a.tasks i (c, t) (c, t') at e in
    record {
      held = inr (c, t', one, e');
      answered = λ k lt. elim (v.answered k lt) [
        | inl (task, same) ↦
            inl
              (t', e' ∙ ap (λ (x : ℕ). (x, t') ∷ []) (sym (same_client k c task t (sym same ∙ e))))
        | inr (inl done) ↦ inr (inl done)
        | inr (inr told) ↦ inr (inr (kept (k, StatusCode.client_already_connected) told))
      ];
      awaits = v.awaits;
      fresh = v.fresh;
      once = v.once;
    }

pub on_return-Inv :
    (i : ℕ) (r : Option StatusCode) (x : Option (ℕ × Task)) (a : Acceptor)
    → get_elem? a.tasks i ≡ x
    → Inv a
    → Inv (on_return i r x a)
unfolding on_return
on_return-Inv i (some status) (some (c, processing)) a e v =
    moved-Inv a i c processing (replying status) a.replies v e (λ x h. h)
on_return-Inv i none (some (c, processing)) a e v =
    moved-Inv a i c processing storing a.replies v e (λ x h. h)
on_return-Inv i r x a e v = v

pub on_reply-Inv :
    (i : ℕ) (x : Option (ℕ × Task)) (a : Acceptor)
    → get_elem? a.tasks i ≡ x
    → Inv a
    → Inv (on_reply i x a)
unfolding on_reply
on_reply-Inv i (some (c, replying status)) a e v =
    moved-Inv a i c (replying status) storing (a.replies ++ (c, status) ∷ []) v e
      (λ x h. Has-append x a.replies ((c, status) ∷ []) h)
on_reply-Inv i x a e v = v

-- Behind the store no task is left and the count is 0.
stored-Inv :
    (a : Acceptor) (i c : ℕ) (p : Phase)
    → Inv a
    → get_elem? a.tasks i ≡ some (c, storing)
    → a.phase ≡ p
    → Inv (record a {
      client_count = 0;
      tasks = remove_at i a.tasks;
      over = a.over ++ c ∷ [];
      phase = after_await p;
    })
unfolding after_await
stored-Inv a i c p v found at_phase =
    let (at, one, e) = sole a.client_count a.tasks i c storing v.held found in
    record {
      held = inl (refl, remove_sole a.tasks i (c, storing) at e);
      answered = λ k lt. elim (v.answered k lt) [
        | inl (task, same) ↦ inr (
            inl (
              subst (λ (x : ℕ). Has x (a.over ++ c ∷ []))
                (sym (same_client k c task storing (sym same ∙ e))) (Has-last c a.over)))
        | inr (inl done) ↦ inr (inl (Has-append k a.over (c ∷ []) done))
        | inr (inr told) ↦ inr (inr told)
      ];
      awaits = not_awaiting p;
      fresh = λ os acc. absurd (omega (arith, one, (v.fresh os (at_phase ∙ still p acc)).0));
      once = v.once;
    }
  where
    not_awaiting : {A : Type 0} (q : Phase) → after_await q ≡ awaiting → A
    not_awaiting accepting h = absurd cc
    not_awaiting awaiting h = absurd cc
    not_awaiting left h = absurd cc

    still : (q : Phase) → after_await q ≡ accepting → q ≡ accepting
    still accepting h = refl
    still awaiting h = absurd cc
    still left h = absurd cc

pub on_store-Inv :
    (i : ℕ) (x : Option (ℕ × Task)) (a : Acceptor)
    → get_elem? a.tasks i ≡ x
    → Inv a
    → Inv (on_store i x a)
unfolding on_store
on_store-Inv i (some (c, storing)) a e v = stored-Inv a i c a.phase v e refl
on_store-Inv i x a e v = v

-- ===== src/Sync/System/Invariant.antt =====
-- What holds of the threads and the channel of src/sync.rs at every moment.
use deltasync.Base.{
  zero, ℕ, suc, ◌+◌, refl, ap, ◌∙◌, length, length-append, ◌≤◌, ◌<◌, ◌≡◌, List, [], ◌∷◌, ◌++◌, true,
  false, ◌==◌, ◌⊎◌, inl, inr, none, some, arith, Bool-cases, ==_iff,
}
use deltasync.Sync.Channel.{SharedState, Channel, wants}
use deltasync.Sync.System.{
  Place, outside, entering, waiting, blocked, gone, Sender, Receiver, resting, polling, got, System,
  put, woken, notify_all,
}

-- No two calls are at one index.
abbrev pub AreDistinct : ℕ → (ℕ → ℕ → ℕ) → Type 0
AreDistinct threads calls =
    (i j n m : ℕ) → i < threads → j < threads → calls i n ≡ calls j m → (i ≡ j) × (n ≡ m)

-- The values of the first `k` indices, in order.
unfoldable pub items {ℓ} : {A : Type ℓ} → (ℕ → A) → ℕ → List A
items item zero = []
items item (suc k) = items item k ++ item k ∷ []

pub length-items {ℓ} : {A : Type ℓ} (item : ℕ → A) (k : ℕ) → length (items item k) ≡ k
unfolding items
length-items item zero = refl
length-items item (suc k) =
    length-append (items item k) (item k ∷ [])
    ∙ ap (λ (n : ℕ). n + 1) (length-items item k)
    ∙ omega arith

module _ {ℓ} {A : Type ℓ} (threads : ℕ) (calls : ℕ → ℕ → ℕ) (item : ℕ → A) where
  -- The call at index `k` has returned.
  abbrev pub Sent : (ℕ → Sender) → ℕ → Type 0
  Sent f k = (i : ℕ) × (n : ℕ) × (i < threads) × (n < (f i).sent) × (calls i n ≡ k)

  -- Where the value of the index asked for is: still with its thread, in the queue, or in hand.
  abbrev pub Under : (ℕ → Sender) → ℕ → List A → Receiver A → Type ℓ
  Under f k q p =
      ((q ≡ []) × ((p ≡ resting) ⊎ (p ≡ polling)))
      ⊎ ((q ≡ item k ∷ []) × ((p ≡ resting) ⊎ (p ≡ polling)) × Sent f k)
      ⊎ ((q ≡ []) × (p ≡ got (item k)) × Sent f k)

  -- Nothing was asked for yet; or an index is, and the values before it were received; or its value
  -- was received too.
  abbrev pub Stage : (ℕ → Sender) → Channel A → Receiver A → List A → Type ℓ
  Stage f ch p out =
      ((ch.shared.wanted_idx ≡ none)
        × (ch.shared.receiving ≡ false)
        × (ch.queue ≡ [])
        × (p ≡ resting)
        × (out ≡ []))
      ⊎ ((k : ℕ) × (ch.shared.wanted_idx ≡ some k)
          × (ch.shared.receiving ≡ true)
          × (out ≡ items item k)
          × Under f k ch.queue p)
      ⊎ ((k : ℕ) × (ch.shared.wanted_idx ≡ some k)
          × (ch.shared.receiving ≡ false)
          × (ch.queue ≡ [])
          × (p ≡ resting)
          × (out ≡ items item (suc k))
          × Sent f k)

  -- A thread that waits has been woken where its index is wanted or the channel is closed; none
  -- holds the lock.
  abbrev pub Calm : SharedState → ℕ → Place → Type 0
  Calm st idx outside = Unit
  Calm st idx entering = Unit
  Calm st idx waiting = (st.recv_closed ≡ false) × (wants st.wanted_idx idx ≡ false)
  Calm st idx blocked = ⊥
  Calm st idx gone = Unit

  abbrev pub CalmAt : SharedState → (ℕ → Sender) → ℕ → Type 0
  CalmAt st f i = Calm st (calls i (f i).sent) (f i).place

  pub record Inv (s : System A) : Type ℓ where
    pub stage : Stage s.senders s.channel s.receiver s.received
    pub calm : (i : ℕ) → CalmAt s.channel.shared s.senders i
    pub free : s.locked ≡ false

  pub put-at : (i : ℕ) (x : Sender) (f : ℕ → Sender) → put i x f i ≡ x
  unfolding put
  put-at i x f = let e : (i == i) ≡ true = ground arith in rw e

  pub put-cases :
      (i : ℕ) (x : Sender) (f : ℕ → Sender) (j : ℕ)
      → ((j ≡ i) × (put i x f j ≡ x)) ⊎ (put i x f j ≡ f j)
  unfolding put
  put-cases i x f j = elim (Bool-cases (j == i)) [
    | inl e ↦ inl ((==_iff j i).0 e, rw e)
    | inr e ↦ inr (rw e)
  ]

  pub Sent-put :
      (i : ℕ) (x : Sender) (f : ℕ → Sender) (k : ℕ)
      → (f i).sent ≤ x.sent
      → Sent f k
      → Sent (put i x f) k
  Sent-put i x f k le (j, n, thread, lt, e) = elim (put-cases i x f j) [
    | inl (same, at) ↦
        (j, n, thread, rw (at) (let lt' : n < (f i).sent = rw same at lt in omega arith), e)
    | inr at ↦ (j, n, thread, rw (at) lt, e)
  ]

  pub calm-put :
      (i : ℕ) (x : Sender) (f : ℕ → Sender) (st : SharedState)
      → Calm st (calls i x.sent) x.place
      → ((j : ℕ) → CalmAt st f j)
      → (j : ℕ) → CalmAt st (put i x f) j
  calm-put i x f st here others j = elim (put-cases i x f j) [
    | inl (same, at) ↦ rw (at, same) here
    | inr at ↦ rw at (others j)
  ]

  Calm-woken : (st st' : SharedState) (idx : ℕ) (p : Place) → Calm st idx p → Calm st' idx (woken p)
  Calm-woken st st' idx outside h = tt
  Calm-woken st st' idx entering h = tt
  Calm-woken st st' idx waiting h = tt
  Calm-woken st st' idx blocked h = absurd h
  Calm-woken st st' idx gone h = tt

  pub calm-notify_all :
      (st st' : SharedState) (f : ℕ → Sender)
      → ((j : ℕ) → CalmAt st f j)
      → (j : ℕ) → CalmAt st' (notify_all f) j
  unfolding notify_all
  calm-notify_all st st' f h j = Calm-woken st st' (calls j (f j).sent) (f j).place (h j)

  Under-mono :
      (f g : ℕ → Sender) (k : ℕ) (q : List A) (p : Receiver A)
      → (Sent f k → Sent g k)
      → Under f k q p
      → Under g k q p
  Under-mono f g k q p m (inl h) = inl h
  Under-mono f g k q p m (inr (inl (a, b, c))) = inr (inl (a, b, m c))
  Under-mono f g k q p m (inr (inr (a, b, c))) = inr (inr (a, b, m c))

  pub Stage-mono :
      (f g : ℕ → Sender) (ch : Channel A) (p : Receiver A) (out : List A)
      → ((k : ℕ) → Sent f k → Sent g k)
      → Stage f ch p out
      → Stage g ch p out
  Stage-mono f g ch p out m (inl h) = inl h
  Stage-mono f g ch p out m (inr (inl (k, a, b, c, d))) =
      inr (inl (k, a, b, c, Under-mono f g k ch.queue p (m k) d))
  Stage-mono f g ch p out m (inr (inr (k, a, b, c, d, e, h))) = inr (inr (k, a, b, c, d, e, m k h))

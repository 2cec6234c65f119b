-- ===== src/Sync/System/Receive.antt =====
-- The moves of the receiving task of src/sync.rs keep the invariant.
use deltasync.Base.{
  ℕ, suc, ◌≡◌, refl, ap, subst, List, [], ◌∷◌, ◌++◌, Bool, true, false, if◌then◌else◌, ◌⊎◌, inl,
  inr, some, arith,
}
use deltasync.Sync.Channel.{Channel, next_wanted, ask, finish}
use deltasync.Sync.System.{
  Sender, Receiver, resting, polling, got, System, notify_all, ask_by, take_by, return_by, none_by,
  cancel_by,
}
use deltasync.Sync.System.Invariant.{items, Stage, Inv, calm-notify_all}
use deltasync.Sync.System.Preserved.{unlocked}

module _ {ℓ} {A : Type ℓ} (threads : ℕ) (calls : ℕ → ℕ → ℕ) (item : ℕ → A) where
  -- The task starts to wait for the queue, or stops.
  switch-Stage :
      (f : ℕ → Sender) (ch : Channel A) (p p' : Receiver A) (out : List A)
      → ch.shared.receiving ≡ true
      → (p ≡ resting) ⊎ (p ≡ polling)
      → (p' ≡ resting) ⊎ (p' ≡ polling)
      → Stage threads calls item f ch p out
      → Stage threads calls item f ch p' out
  switch-Stage f ch p p' out on at to (inl (w, r, q, rest, o)) = absurd cc
  switch-Stage f ch p p' out on at to (inr (inl (k, w, r, o, inl (q, h)))) =
      inr (inl (k, w, r, o, inl (q, to)))
  switch-Stage f ch p p' out on at to (inr (inl (k, w, r, o, inr (inl (q, h, there))))) =
      inr (inl (k, w, r, o, inr (inl (q, to, there))))
  switch-Stage f ch p p' out on at to (inr (inl (k, w, r, o, inr (inr (q, h, there))))) = elim at [
    | inl e ↦ absurd cc
    | inr e ↦ absurd cc
  ]
  switch-Stage f ch p p' out on at to (inr (inr (k, w, r, q, h, o, there))) = absurd cc

  polling-receiving :
      (f : ℕ → Sender) (ch : Channel A) (out : List A)
      → Stage threads calls item f ch polling out
      → ch.shared.receiving ≡ true
  polling-receiving f ch out (inl (w, r, q, rest, o)) = absurd cc
  polling-receiving f ch out (inr (inl (k, w, r, o, u))) = r
  polling-receiving f ch out (inr (inr (k, w, r, q, h, o, there))) = absurd cc

  ask-Stage :
      (f : ℕ → Sender) (ch : Channel A) (out : List A)
      → ch.shared.receiving ≡ false
      → Stage threads calls item f ch resting out
      → Stage threads calls item
          (notify_all f)
          (record ch {
            shared = record ch.shared {
              wanted_idx = next_wanted ch.shared.wanted_idx;
              receiving = true;
            };
          })
          polling
          out
  unfolding next_wanted items notify_all
  ask-Stage f ch out e (inl (w, r, q, p, o)) = inr (inl (0, rw w, refl, o, inl (q, inr refl)))
  ask-Stage f ch out e (inr (inl (k, w, r, o, u))) = cc
  ask-Stage f ch out e (inr (inr (k, w, r, q, p, o, there))) =
      inr (inl (suc k, rw w (ap some (omega arith)), refl, o, inl (q, inr refl)))

  take-Stage :
      (f : ℕ → Sender) (ch : Channel A) (v : A) (vs out : List A)
      → ch.queue ≡ v ∷ vs
      → Stage threads calls item f ch polling out
      → Stage threads calls item f (record ch { queue = vs }) (got v) out
  take-Stage f ch v vs out e (inl (w, r, q, p, o)) = absurd cc
  take-Stage f ch v vs out e (inr (inl (k, w, r, o, inl (q, p)))) = absurd cc
  take-Stage f ch v vs out e (inr (inl (k, w, r, o, inr (inl (q, p, there))))) =
      inr (inl (k, w, r, o, inr (inr (cc, cc, there))))
  take-Stage f ch v vs out e (inr (inl (k, w, r, o, inr (inr (q, p, there))))) = absurd cc
  take-Stage f ch v vs out e (inr (inr (k, w, r, q, p, o, there))) = absurd cc

  return-Stage :
      (f : ℕ → Sender) (ch : Channel A) (v : A) (out : List A)
      → Stage threads calls item f ch (got v) out
      → Stage threads calls item f
          (record ch { shared = record ch.shared { receiving = false } })
          resting
          (out ++ v ∷ [])
  unfolding items
  return-Stage f ch v out (inl (w, r, q, p, o)) = absurd cc
  return-Stage f ch v out (inr (inl (k, w, r, o, inl (q, inl p)))) = absurd cc
  return-Stage f ch v out (inr (inl (k, w, r, o, inl (q, inr p)))) = absurd cc
  return-Stage f ch v out (inr (inl (k, w, r, o, inr (inl (q, p, there))))) = elim p [
    | inl e ↦ absurd cc
    | inr e ↦ absurd cc
  ]
  return-Stage f ch v out (inr (inl (k, w, r, o, inr (inr (q, p, there))))) =
      let same : v ≡ item k = cc in inr (inr (k, w, refl, q, refl, rw (o, same) refl, there))
  return-Stage f ch v out (inr (inr (k, w, r, q, p, o, there))) = absurd cc

  ask-Inv :
      (b : Bool) (s : System A)
      → s.channel.shared.receiving ≡ b
      → s.receiver ≡ resting
      → Inv threads calls item s
      → Inv threads calls item (record s {
        channel = if b then s.channel else record s.channel {
          shared = record s.channel.shared {
            wanted_idx = next_wanted s.channel.shared.wanted_idx;
            receiving = true;
          };
        };
        senders = if b then s.senders else notify_all s.senders;
        receiver = polling;
      })
  ask-Inv true s on at v = record {
    stage =
        switch-Stage s.senders s.channel s.receiver polling s.received on (inl at) (inr refl)
          v.stage;
    calm = v.calm;
    free = v.free;
  }
  ask-Inv false s off at v = record {
    stage = ask-Stage s.senders s.channel s.received off (
        subst (λ (p : Receiver A). Stage threads calls item s.senders s.channel p s.received) at
          v.stage);
    calm =
        calm-notify_all threads calls item s.channel.shared
          (record s.channel.shared {
            wanted_idx = next_wanted s.channel.shared.wanted_idx;
            receiving = true;
          })
          s.senders v.calm;
    free = v.free;
  }

  module _ (s : System A) (v : Inv threads calls item s) where
    -- The stage, where the receiver is known.
    Stage-at :
        (p : Receiver A)
        → s.receiver ≡ p
        → Stage threads calls item s.senders s.channel p s.received
    Stage-at p e =
        subst (λ (x : Receiver A). Stage threads calls item s.senders s.channel x s.received) e
          v.stage

    pub ask_by-Inv :
        (p : Receiver A) → s.receiver ≡ p → Inv threads calls item (ask_by calls item p s)
    unfolding ask_by ask
    ask_by-Inv resting e =
        unlocked threads calls item s.locked s _ v.free
          (ask-Inv s.channel.shared.receiving s refl e v)
    ask_by-Inv polling e = v
    ask_by-Inv (got x) e = v

    pub take_by-Inv :
        (p : Receiver A) (q : List A)
        → s.receiver ≡ p
        → s.channel.queue ≡ q
        → Inv threads calls item (take_by calls item p q s)
    unfolding take_by
    take_by-Inv resting q e h = v
    take_by-Inv polling [] e h = v
    take_by-Inv polling (x ∷ xs) e h = record {
      stage = take-Stage s.senders s.channel x xs s.received h (Stage-at polling e);
      calm = v.calm;
      free = v.free;
    }
    take_by-Inv (got x) q e h = v

    pub return_by-Inv :
        (p : Receiver A) → s.receiver ≡ p → Inv threads calls item (return_by calls item p s)
    unfolding return_by finish
    return_by-Inv resting e = v
    return_by-Inv polling e = v
    return_by-Inv (got x) e = unlocked threads calls item s.locked s _ v.free (record {
      stage = return-Stage s.senders s.channel x s.received (Stage-at (got x) e);
      calm = v.calm;
      free = v.free;
    })

    rested : s.receiver ≡ polling → Inv threads calls item (record s { receiver = resting })
    rested e = record {
      stage =
          switch-Stage s.senders s.channel s.receiver resting s.received
            (polling-receiving s.senders s.channel s.received (Stage-at polling e)) (inr e)
            (inl refl) v.stage;
      calm = v.calm;
      free = v.free;
    }

    pub none_by-Inv :
        (p : Receiver A) (q : List A)
        → s.receiver ≡ p
        → Inv threads calls item (none_by calls item p q s)
    unfolding none_by
    none_by-Inv resting q e = v
    none_by-Inv polling [] e = rested e
    none_by-Inv polling (x ∷ xs) e = v
    none_by-Inv (got x) q e = v

    pub cancel_by-Inv :
        (p : Receiver A) → s.receiver ≡ p → Inv threads calls item (cancel_by calls item p s)
    unfolding cancel_by
    cancel_by-Inv resting e = v
    cancel_by-Inv polling e = rested e
    cancel_by-Inv (got x) e = v

-- ===== src/Sync/System/Preserved.antt =====
-- Every move of the threads and of the task of src/sync.rs keeps the invariant.
use deltasync.Base.{
  ℕ, suc, ◌<◌, ◌≡◌, refl, sym, ap, subst, ◌∙◌, List, [], ◌∷◌, Bool, true, false, if◌then◌else◌, ◌⊎◌,
  inl, inr, Option, none, some, some_injective, arith, ==_iff,
}
use deltasync.Sync.Channel.{
  Channel, Attempt, send, blocking_send, wants, close_sender, close_receiver,
}
use deltasync.Sync.System.{
  Place, outside, entering, waiting, blocked, gone, Sender, Receiver, resting, polling, got, System,
  put, notify_all, go, deliver, after_round, idx_of, round_by, call_by, wake_by, unblock_by,
  drop_by, close_by, shut_by,
}
use deltasync.Sync.System.Invariant.{
  AreDistinct, items, Sent, Calm, Inv, put-at, Sent-put, calm-put, calm-notify_all, Stage-mono,
}

module _ {ℓ} {A : Type ℓ} (threads : ℕ) (calls : ℕ → ℕ → ℕ) (item : ℕ → A) where
  go-Inv :
      (i : ℕ) (p : Place) (s : System A)
      → Inv threads calls item s
      → Calm threads calls item s.channel.shared (idx_of calls item i s) p
      → Inv threads calls item (go i p s)
  go-Inv i p s v c =
      let x : Sender = record (s.senders i) { place = p } in
      record {
        stage =
            Stage-mono threads calls item s.senders (put i x s.senders) s.channel s.receiver
              s.received (λ k. Sent-put threads calls item i x s.senders k (omega arith)) v.stage;
        calm = calm-put threads calls item i x s.senders s.channel.shared c v.calm;
        free = v.free;
      }

  -- The test for the lock, and a test within a round.
  pub unlocked :
      (b : Bool) (s t : System A)
      → b ≡ false
      → Inv threads calls item t
      → Inv threads calls item (if b then s else t)
  unlocked b s t e v = subst (λ (c : Bool). Inv threads calls item (if c then s else t)) (sym e) v

  by_test :
      (i : ℕ) (b : Bool) (a a' : Attempt A) (s : System A)
      → (b ≡ true → Inv threads calls item (after_round i a s))
      → (b ≡ false → Inv threads calls item (after_round i a' s))
      → Inv threads calls item (after_round i (if b then a else a') s)
  by_test i true a a' s taken other = taken refl
  by_test i false a a' s taken other = other refl

  module _ (distinct : AreDistinct threads calls) where
    -- A thread whose call has not returned is not at an index whose call has.
    not-Sent :
        (i : ℕ) (s : System A)
        → i < threads
        → ¬ Sent threads calls item s.senders (idx_of calls item i s)
    not-Sent i s thread (j, n, thread', lt, e) =
        let (same, at) = distinct j i n (s.senders i).sent thread' thread e in
        let lt' : n < (s.senders i).sent = rw same at lt in omega arith

    -- Where the index of a thread within `send` is wanted, the queue is empty and the task waits.
    pub wanted-empty :
        (i : ℕ) (s : System A)
        → i < threads
        → Inv threads calls item s
        → s.channel.shared.wanted_idx ≡ some (idx_of calls item i s)
        → (s.channel.shared.receiving ≡ true)
          × (s.received ≡ items item (idx_of calls item i s))
          × (s.channel.queue ≡ [])
          × ((s.receiver ≡ resting) ⊎ (s.receiver ≡ polling))
    wanted-empty i s thread v e = elim v.stage [
      | inl (w, r, q, p, o) ↦ cc
      | inr (inl (k, w, r, o, u)) ↦
          let at : k ≡ idx_of calls item i s = some_injective (sym w ∙ e) in
          elim u [
            | inl (q, p) ↦ (r, rw (← at) o, q, p)
            | inr (inl (q, p, there)) ↦ absurd (not-Sent i s thread (rw at at there))
            | inr (inr (q, p, there)) ↦ absurd (not-Sent i s thread (rw at at there))
          ]
      | inr (inr (k, w, r, q, p, o, there)) ↦
          let at : k ≡ idx_of calls item i s = some_injective (sym w ∙ e) in
          absurd (not-Sent i s thread (rw at at there))
    ]

    deliver-Inv :
        (i : ℕ) (s : System A)
        → i < threads
        → Inv threads calls item s
        → s.channel.shared.wanted_idx ≡ some (idx_of calls item i s)
        → Inv threads calls item
            (deliver i (record s.channel { queue = item (idx_of calls item i s) ∷ [] }) s)
    deliver-Inv i s thread v e =
        let (r, o, q, p) = wanted-empty i s thread v e in
        let x : Sender = record { place = outside; sent = suc (s.senders i).sent } in
        record {
          stage = inr (
              inl (
                idx_of calls item i s,
                e,
                r,
                o,
                inr (
                    inl (
                      refl,
                      p,
                      (
                        i,
                        (s.senders i).sent,
                        thread,
                        rw (put-at threads calls item i x s.senders) (omega arith),
                        refl,
                      ),
                    )),
              ));
          calm = calm-put threads calls item i x s.senders s.channel.shared tt v.calm;
          free = refl;
        }

    pub wants-some : (w : Option ℕ) (idx : ℕ) → wants w idx ≡ true → w ≡ some idx
    unfolding wants
    wants-some none idx h = cc
    wants-some (some k) idx h = ap some ((==_iff k idx).0 h)

    blocking_send-Inv :
        (i : ℕ) (s : System A) (q : List A)
        → i < threads
        → Inv threads calls item s
        → s.channel.shared.wanted_idx ≡ some (idx_of calls item i s)
        → q ≡ []
        → Inv threads calls item
            (after_round i (blocking_send s.channel q (item (idx_of calls item i s))) s)
    unfolding blocking_send after_round
    blocking_send-Inv i s [] thread v e empty =
        by_test i s.channel.rx_closed _ _ s (λ shut. go-Inv i gone s v tt)
          (λ room. deliver-Inv i s thread v e)
    blocking_send-Inv i s (x ∷ q) thread v e empty = cc

    round-Inv :
        (i : ℕ) (s : System A)
        → i < threads
        → Inv threads calls item s
        → Inv threads calls item (
            after_round i (send s.channel (idx_of calls item i s) (item (idx_of calls item i s))) s)
    unfolding send after_round
    round-Inv i s thread v =
        by_test i s.channel.shared.recv_closed _ _ s (λ shut. go-Inv i gone s v tt)
          (λ open_now.
            by_test i (wants s.channel.shared.wanted_idx (idx_of calls item i s)) _ _ s
              (λ mine.
                let e = wants-some s.channel.shared.wanted_idx (idx_of calls item i s) mine in
                blocking_send-Inv i s s.channel.queue thread v e (wanted-empty i s thread v e).2)
              (λ not_mine. go-Inv i waiting s v (open_now, not_mine)))

    pub round_by-Inv :
        (i : ℕ) (p : Place) (s : System A)
        → i < threads
        → Inv threads calls item s
        → Inv threads calls item (round_by calls item i p s)
    unfolding round_by
    round_by-Inv i outside s thread v = v
    round_by-Inv i entering s thread v = unlocked s.locked s _ v.free (round-Inv i s thread v)
    round_by-Inv i waiting s thread v = v
    round_by-Inv i blocked s thread v = v
    round_by-Inv i gone s thread v = v

    pub unblock_by-Inv :
        (i : ℕ) (p : Place) (q : List A) (s : System A)
        → (s.senders i).place ≡ p
        → i < threads
        → Inv threads calls item s
        → Inv threads calls item (unblock_by calls item i p q s)
    unfolding unblock_by
    unblock_by-Inv i outside q s e thread v = v
    unblock_by-Inv i entering q s e thread v = v
    unblock_by-Inv i waiting q s e thread v = v
    unblock_by-Inv i blocked [] s e thread v = absurd (rw e at (v.calm i))
    unblock_by-Inv i blocked (x ∷ q) s e thread v = v
    unblock_by-Inv i gone q s e thread v = v

  pub call_by-Inv :
      (i : ℕ) (p : Place) (s : System A)
      → Inv threads calls item s
      → Inv threads calls item (call_by calls item i p s)
  unfolding call_by
  call_by-Inv i outside s v = go-Inv i entering s v tt
  call_by-Inv i entering s v = v
  call_by-Inv i waiting s v = v
  call_by-Inv i blocked s v = v
  call_by-Inv i gone s v = v

  pub wake_by-Inv :
      (i : ℕ) (p : Place) (s : System A)
      → Inv threads calls item s
      → Inv threads calls item (wake_by calls item i p s)
  unfolding wake_by
  wake_by-Inv i outside s v = v
  wake_by-Inv i entering s v = v
  wake_by-Inv i waiting s v = go-Inv i entering s v tt
  wake_by-Inv i blocked s v = v
  wake_by-Inv i gone s v = v

  pub drop_by-Inv :
      (i : ℕ) (p : Place) (s : System A)
      → Inv threads calls item s
      → Inv threads calls item (drop_by calls item i p s)
  unfolding drop_by
  drop_by-Inv i outside s v = go-Inv i gone s v tt
  drop_by-Inv i entering s v = v
  drop_by-Inv i waiting s v = v
  drop_by-Inv i blocked s v = v
  drop_by-Inv i gone s v = v

  -- All are woken, and the state that they look at is another one.
  notify_all-Inv :
      (s : System A) (ch : Channel A)
      → Inv threads calls item s
      → ch.queue ≡ s.channel.queue
      → ch.shared.wanted_idx ≡ s.channel.shared.wanted_idx
      → ch.shared.receiving ≡ s.channel.shared.receiving
      → Inv threads calls item (record s { channel = ch; senders = notify_all s.senders })
  unfolding notify_all
  notify_all-Inv s ch v q w r = record {
    stage = rw (q, w, r) v.stage;
    calm = calm-notify_all threads calls item s.channel.shared ch.shared s.senders v.calm;
    free = v.free;
  }

  pub close_by-Inv :
      (i : ℕ) (p : Place) (s : System A)
      → Inv threads calls item s
      → Inv threads calls item (close_by calls item i p s)
  unfolding close_by close_sender
  close_by-Inv i outside s v =
      unlocked s.locked s _ v.free
        (go-Inv i gone _ (notify_all-Inv s (close_sender s.channel) v refl refl refl) tt)
  close_by-Inv i entering s v = v
  close_by-Inv i waiting s v = v
  close_by-Inv i blocked s v = v
  close_by-Inv i gone s v = v

  shut-Inv :
      (b : Bool) (s : System A)
      → Inv threads calls item s
      → Inv threads calls item (record s {
        channel = if b then s.channel else record s.channel {
          shared = record s.channel.shared { recv_closed = true };
          rx_closed = true;
        };
        senders = if b then s.senders else notify_all s.senders;
      })
  shut-Inv true s v = v
  shut-Inv false s v = notify_all-Inv s _ v refl refl refl

  pub shut_by-Inv :
      (p : Receiver A) (s : System A)
      → Inv threads calls item s
      → Inv threads calls item (shut_by calls item p s)
  unfolding shut_by close_receiver
  shut_by-Inv resting s v = unlocked s.locked s _ v.free (shut-Inv s.channel.shared.recv_closed s v)
  shut_by-Inv polling s v = v
  shut_by-Inv (got x) s v = v

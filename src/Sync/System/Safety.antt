-- ===== src/Sync/System/Safety.antt =====
-- What a use of the ordered channel of src/sync.rs relies on, at every moment of every run.
use deltasync.Base.{
  ltb, ltb→lt, ℕ, suc, ◌≤◌, ◌<◌, ◌≡◌, ◌≢◌, refl, sym, ap, subst, ◌∙◌, List, [], ◌∷◌, ◌++◌, Bool,
  true, false, if◌then◌else◌, ◌⊎◌, inl, inr, arith, Bool-cases, length,
}
use deltasync.Sync.Channel.{send, blocking_send, wants}
use deltasync.Sync.System.{
  entering, waiting, blocked, polling, System, start, Move, call, round, wake, unblock, drop_sender,
  close_sending, ask_next, take_value, return_value, return_none, cancel, close_receiving, deliver,
  after_round, idx_of, by_thread, round_by, take_by, return_by, step, run,
}
use deltasync.Sync.System.Invariant.{AreDistinct, items, length-items, Inv}
use deltasync.Sync.System.Preserved.{
  round_by-Inv, unblock_by-Inv, call_by-Inv, wake_by-Inv, drop_by-Inv, close_by-Inv, shut_by-Inv,
  wanted-empty, wants-some,
}
use deltasync.Sync.System.Receive.{
  ask_by-Inv, take_by-Inv, return_by-Inv, none_by-Inv, cancel_by-Inv,
}

module _ {ℓ} {A : Type ℓ} (threads : ℕ) (calls : ℕ → ℕ → ℕ) (item : ℕ → A)
    (distinct : AreDistinct threads calls) where
  threaded :
      (i : ℕ) (s s' : System A)
      → Inv threads calls item s
      → (i < threads → Inv threads calls item s')
      → Inv threads calls item (by_thread calls item threads i s s')
  threaded i s s' v h = elim (Bool-cases (ltb i threads)) [
    | inl e ↦
        subst (λ (c : Bool). Inv threads calls item (if c then s' else s)) (sym e)
          (h (ltb→lt i threads e))
    | inr e ↦ subst (λ (c : Bool). Inv threads calls item (if c then s' else s)) (sym e) v
  ]

  pub step-Inv :
      (m : Move) (s : System A)
      → Inv threads calls item s
      → Inv threads calls item (step calls item threads m s)
  unfolding step
  step-Inv (call i) s v =
      threaded i s _ v (λ thread. call_by-Inv threads calls item i (s.senders i).place s v)
  step-Inv (round i) s v =
      threaded i s _ v
        (λ thread. round_by-Inv threads calls item distinct i (s.senders i).place s thread v)
  step-Inv (wake i) s v =
      threaded i s _ v (λ thread. wake_by-Inv threads calls item i (s.senders i).place s v)
  step-Inv (unblock i) s v = threaded i s _ v (λ thread.
      unblock_by-Inv threads calls item distinct i (s.senders i).place s.channel.queue s refl thread
        v)
  step-Inv (drop_sender i) s v =
      threaded i s _ v (λ thread. drop_by-Inv threads calls item i (s.senders i).place s v)
  step-Inv (close_sending i) s v =
      threaded i s _ v (λ thread. close_by-Inv threads calls item i (s.senders i).place s v)
  step-Inv ask_next s v = ask_by-Inv threads calls item s v s.receiver refl
  step-Inv take_value s v = take_by-Inv threads calls item s v s.receiver s.channel.queue refl refl
  step-Inv return_value s v = return_by-Inv threads calls item s v s.receiver refl
  step-Inv return_none s v = none_by-Inv threads calls item s v s.receiver s.channel.queue refl
  step-Inv cancel s v = cancel_by-Inv threads calls item s v s.receiver refl
  step-Inv close_receiving s v = shut_by-Inv threads calls item s.receiver s v

  run-Inv :
      (ms : List Move) (s : System A)
      → Inv threads calls item s
      → Inv threads calls item (run calls item threads ms s)
  unfolding run
  run-Inv [] s v = v
  run-Inv (m ∷ ms) s v = run-Inv ms (step calls item threads m s) (step-Inv m s v)

  pub start-Inv : Inv threads calls item start
  start-Inv = record { stage = inl (refl, refl, refl, refl, refl); calm = λ i. tt; free = refl }

  received-items :
      (s : System A) → Inv threads calls item s → s.received ≡ items item (length s.received)
  received-items s v = elim v.stage [
    | inl (w, r, q, p, o) ↦ counted 0 (unfold items in o)
    | inr (inl (k, w, r, o, u)) ↦ counted k o
    | inr (inr (k, w, r, q, p, o, there)) ↦ counted (suc k) o
  ]
    where
      counted : (k : ℕ) → s.received ≡ items item k → s.received ≡ items item (length s.received)
      counted k o = o ∙ ap (items item) (sym (ap length o ∙ length-items item k))

  -- After any moves of the threads and of the task, the values that `OrderedReceiver::recv` has
  -- returned are those of the indices 0, 1, 2, ... in this order, without a gap and each once,
  -- whatever the order in which the threads call `send`, and although futures of `recv` are
  -- dropped, waits end without a reason and the channel is closed. No two calls of `send` are at
  -- one index.
  pub run-received :
      (ms : List Move)
      → let s = run calls item threads ms start in s.received ≡ items item (length s.received)
  run-received ms = received-items (run calls item threads ms start) (run-Inv ms start start-Inv)

  queue-short : (s : System A) → Inv threads calls item s → length s.channel.queue ≤ 1
  queue-short s v = elim v.stage [
    | inl (w, r, q, p, o) ↦ rw q (omega arith)
    | inr (inl (k, w, r, o, inl (q, p))) ↦ rw q (omega arith)
    | inr (inl (k, w, r, o, inr (inl (q, p, there)))) ↦ rw q (omega arith)
    | inr (inl (k, w, r, o, inr (inr (q, p, there)))) ↦ rw q (omega arith)
    | inr (inr (k, w, r, q, p, o, there)) ↦ rw q (omega arith)
  ]

  calm-waiting :
      (s : System A) (i : ℕ)
      → Inv threads calls item s
      → (s.senders i).place ≡ waiting
      → (s.channel.shared.recv_closed ≡ false)
        × (wants s.channel.shared.wanted_idx (idx_of calls item i s) ≡ false)
  calm-waiting s i v e = rw e at (v.calm i)

  calm-blocked : (s : System A) (i : ℕ) → Inv threads calls item s → (s.senders i).place ≢ blocked
  calm-blocked s i v e = rw e at (v.calm i)

  -- After any moves the queue within the ordered channel holds at most one value and no thread
  -- holds the lock or waits for room in the queue with the lock held. No two calls of `send` are at
  -- one index.
  pub run-bounded :
      (ms : List Move) (i : ℕ)
      → let s = run calls item threads ms start in
        (length s.channel.queue ≤ 1) × (s.locked ≡ false) × ((s.senders i).place ≢ blocked)
  run-bounded ms i =
      let v = run-Inv ms start start-Inv in (queue-short _ v, v.free, calm-blocked _ i v)

  -- No wake-up is lost: after any moves, a thread that is in the wait of `send` is at an index that
  -- is not the wanted one, and the channel is not closed. No two calls of `send` are at one index.
  pub run-waiting :
      (ms : List Move) (i : ℕ)
      → let s = run calls item threads ms start in
        (s.senders i).place ≡ waiting
        → (s.channel.shared.recv_closed ≡ false)
          × (wants s.channel.shared.wanted_idx (idx_of calls item i s) ≡ false)
  run-waiting ms i e = calm-waiting _ i (run-Inv ms start start-Inv) e

  -- A thread within `send` whose index is wanted.
  in_send-entering :
      (s : System A) (i : ℕ)
      → Inv threads calls item s
      → wants s.channel.shared.wanted_idx (idx_of calls item i s) ≡ true
      → ((s.senders i).place ≡ entering) ⊎ ((s.senders i).place ≡ waiting)
      → (s.senders i).place ≡ entering
  in_send-entering s i v mine (inl e) = e
  in_send-entering s i v mine (inr e) = let (open_now, other) = calm-waiting s i v e in absurd cc

  round-deliver :
      (s : System A) (i : ℕ)
      → i < threads
      → Inv threads calls item s
      → (s.senders i).place ≡ entering
      → s.channel.shared.recv_closed ≡ false
      → s.channel.rx_closed ≡ false
      → wants s.channel.shared.wanted_idx (idx_of calls item i s) ≡ true
      → step calls item threads (round i) s
        ≡ deliver i (record s.channel { queue = item (idx_of calls item i s) ∷ [] }) s
  unfolding step round_by send blocking_send after_round
  round-deliver s i thread v at open_now room mine =
      let q =
        (wanted-empty threads calls item distinct i s thread v
          (wants-some threads calls item distinct s.channel.shared.wanted_idx _ mine)).2 in
      let here : ltb i threads ≡ true = ground arith in
      simp (here, at, v.free, open_now, mine, q, room)

  take-return :
      (s : System A) (v : A)
      → s.receiver ≡ polling
      → s.channel.queue ≡ v ∷ []
      → s.locked ≡ false
      → (run calls item threads (take_value ∷ return_value ∷ []) s).received ≡ s.received ++ v ∷ []
  unfolding run step take_by return_by
  take-return s v p q free = simp (p, q, free)

  -- After any moves, where the task waits in `recv` on a channel that is not closed and the index
  -- that it wants is that of a thread within `send`, a round of that thread followed by the moves
  -- of the task returns the value of that index. No two calls of `send` are at one index.
  pub run-delivers :
      (ms : List Move) (i : ℕ)
      → let s = run calls item threads ms start in
        i < threads
        → s.receiver ≡ polling
        → s.channel.shared.recv_closed ≡ false
        → s.channel.rx_closed ≡ false
        → wants s.channel.shared.wanted_idx (idx_of calls item i s) ≡ true
        → ((s.senders i).place ≡ entering) ⊎ ((s.senders i).place ≡ waiting)
        → (run calls item threads (round i ∷ take_value ∷ return_value ∷ []) s).received
          ≡ s.received ++ item (idx_of calls item i s) ∷ []
  unfolding run
  run-delivers ms i thread p open_now room mine within =
      let s = run calls item threads ms start in
      let v = run-Inv ms start start-Inv in
      let at = in_send-entering s i v mine within in
      let e = round-deliver s i thread v at open_now room mine in
      rw e (
        take-return (deliver i (record s.channel { queue = item (idx_of calls item i s) ∷ [] }) s)
          (item (idx_of calls item i s)) p refl refl)

-- ===== src/HashFile/Stream/Joins.antt =====
-- The threads of src/hash_file.rs end where `HashStream::drop` joins them.
use deltasync.Base.{
  ℕ, ◌<◌, ◌≡◌, refl, sym, ap, subst, ◌∙◌, List, [], ◌∷◌, true, false, not, ◌&&◌, ltb, arith, length,
  Bool-cases, inl, inr,
}
use deltasync.HashFile.Stream.{
  Stream, opened, Act, moves, drops_loan, drops_stream, has_reclaimed, is_open, close_stream, act,
  act_all,
}
use deltasync.Sync.System.{
  Place, outside, entering, waiting, blocked, gone, Sender, Receiver, resting, polling, got, System,
  call, round, cancel, close_receiving, round_by, call_by, go, step,
}
use deltasync.Sync.System.Invariant.{AreDistinct, Calm, Inv, put-at}
use deltasync.Sync.System.Safety.{step-Inv, start-Inv}
use deltasync.HashFile.Stream.Shut.{
  either, if_true, if_false, IsShut, send-IsShut, step-IsShut, close_receiving-IsShut, cancelled,
}

module _ {A : Type 0} (threads : ℕ) (calls : ℕ → ℕ → ℕ) (item : ℕ → A)
    (distinct : AreDistinct threads calls) where
  -- The invariant of the channel, which is closed while the task joins.
  abbrev Valid : Stream A → Type 0
  Valid s =
      Inv threads calls item s.system × (s.joining ≡ true → IsShut threads calls item s.system)

  close_stream-Valid :
      (p : Receiver A) (s : Stream A)
      → s.system.receiver ≡ p
      → Valid s
      → Valid (close_stream calls item threads p s)
  unfolding close_stream
  close_stream-Valid resting s e v = (
    step-Inv threads calls item distinct close_receiving s.system v.0,
    λ j. close_receiving-IsShut threads calls item s.system e v.0.free,
  )
  close_stream-Valid polling s e v =
      let v' = step-Inv threads calls item distinct cancel s.system v.0 in
      (
        step-Inv threads calls item distinct close_receiving _ v',
        λ j.
            close_receiving-IsShut threads calls item _ (cancelled threads calls item s.system e)
              v'.free,
      )
  close_stream-Valid (got x) s e v = v

  act-Valid : (a : Act) (s : Stream A) → Valid s → Valid (act calls item threads a s)
  unfolding act
  act-Valid (moves m) s v = elim (Bool-cases (is_open calls item threads m s)) [
    | inl o ↦ rw o (
      step-Inv threads calls item distinct m s.system v.0,
      λ j. step-IsShut threads calls item m s j o (v.1 j),
    )
    | inr no_ ↦ rw no_ v
  ]
  act-Valid (drops_loan k) s v =
      either Valid (not s.joining && ltb k (length s.system.received)) _ s v v
  act-Valid drops_stream s v =
      either Valid s.joining s _ v (close_stream-Valid s.system.receiver s refl v)

  act_all-Valid : (xs : List Act) (s : Stream A) → Valid s → Valid (act_all calls item threads xs s)
  unfolding act_all
  act_all-Valid [] s v = v
  act_all-Valid (a ∷ xs) s v = act_all-Valid xs (act calls item threads a s) (act-Valid a s v)

  opened-Valid : Valid opened
  opened-Valid = (start-Inv threads calls item distinct, λ j. absurd cc)

  -- On a closed channel a round of `send` is the last one.
  round-gone :
      (i : ℕ) (s : System A)
      → i < threads
      → (s.senders i).place ≡ entering
      → s.locked ≡ false
      → IsShut threads calls item s
      → ((step calls item threads (round i) s).senders i).place ≡ gone
  unfolding step round_by
  round-gone i s thread e f h =
      let left : step calls item threads (round i) s ≡ go i gone s =
        if_true (ltb i threads) _ s (ground (arith, thread))
        ∙ ap (λ (p : Place). round_by calls item i p s) e
        ∙ if_false s.locked s _ f
        ∙ send-IsShut threads calls item s i h in
      ap (λ (x : System A). (x.senders i).place) left
      ∙ ap (λ (x : Sender). x.place) (put-at threads calls item i _ s.senders)

  -- A thread that is called upon to go on ends, wherever it is.
  ends :
      (p : Place) (i : ℕ) (s : System A)
      → (s.senders i).place ≡ p
      → i < threads
      → Inv threads calls item s
      → IsShut threads calls item s
      → ((step calls item threads (round i) (step calls item threads (call i) s)).senders i).place
        ≡ gone
  unfolding step call_by round_by
  ends p i s e thread v h =
      subst (λ (x : System A). ((step calls item threads (round i) x).senders i).place ≡ gone)
        (sym (
          if_true (ltb i threads) _ s (ground (arith, thread))
          ∙ ap (λ (q : Place). call_by calls item i q s) e))
        (by_place p e)
    where
      by_place :
          (q : Place)
          → (s.senders i).place ≡ q
          → ((step calls item threads (round i) (call_by calls item i q s)).senders i).place ≡ gone
      by_place outside e' =
          round-gone i (go i entering s) thread
            (ap (λ (x : Sender). x.place) (put-at threads calls item i _ s.senders)) v.free h
      by_place entering e' = round-gone i s thread e' v.free h
      by_place waiting e' =
          let (open_now, other) =
            subst (Calm threads calls item s.channel.shared (calls i (s.senders i).sent)) e'
              (v.calm i) in
          absurd (cc (sym h ∙ open_now))
      by_place blocked e' = absurd (
          subst (Calm threads calls item s.channel.shared (calls i (s.senders i).sent)) e'
            (v.calm i))
      by_place gone e' =
          ap (λ (x : System A). (x.senders i).place)
            (if_true (ltb i threads) _ s (ground (arith, thread))
              ∙ ap (λ (q : Place). round_by calls item i q s) e')
          ∙ e'

  -- After any moves of the threads and of the task, once `HashStream::drop` has closed the channel,
  -- a thread that has the block back which it sent last ends with at most one more call of `send`,
  -- wherever it was, waiting in `send` included, so that it can be joined. No two calls of `send`
  -- are at one index.
  pub drop-joins :
      (xs : List Act) (i : ℕ)
      → i < threads
      → let s = act_all calls item threads xs opened in
        s.joining ≡ true
        → has_reclaimed calls item threads i s ≡ true
        → ((act_all calls item threads (moves (call i) ∷ moves (round i) ∷ []) s).system.senders
            i).place
          ≡ gone
  unfolding act_all act is_open
  drop-joins xs i thread j back =
      let s = act_all calls item threads xs opened in
      let v = act_all-Valid xs opened opened-Valid in
      ap (λ (x : Stream A). ((step calls item threads (round i) x.system).senders i).place)
        (if_true (has_reclaimed calls item threads i s) _ s back)
      ∙ ends (s.system.senders i).place i s.system refl thread v.0 (v.1 j)

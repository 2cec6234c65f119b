-- ===== src/HashFile/Stream/Shut.antt =====
-- A closed channel stays closed while the threads of src/hash_file.rs go on.
use deltasync.Base.{
  ℕ, ◌≡◌, refl, sym, ap, subst, ◌∙◌, List, [], ◌∷◌, Bool, true, false, ltb, if◌then◌else◌,
}
use deltasync.HashFile.Stream.{Stream, is_open}
use deltasync.Sync.Channel.{Channel, send, close_sender, close_receiver}
use deltasync.Sync.System.{
  Place, outside, entering, waiting, blocked, gone, Receiver, resting, polling, System, Move, call,
  round, wake, unblock, drop_sender, close_sending, ask_next, take_value, return_value, return_none,
  cancel, close_receiving, after_round, idx_of, round_by, call_by, wake_by, unblock_by, drop_by,
  close_by, cancel_by, shut_by, go, step,
}

pub either : {A : Type 0} (P : A → Type 0) (b : Bool) (x y : A) → P x → P y → P (if b then x else y)
either P true x y h k = h
either P false x y h k = k

pub if_true : {A : Type 0} (b : Bool) (x y : A) → b ≡ true → (if b then x else y) ≡ x
if_true true x y e = refl
if_true false x y e = absurd cc

pub if_false : {A : Type 0} (b : Bool) (x y : A) → b ≡ false → (if b then x else y) ≡ y
if_false true x y e = absurd cc
if_false false x y e = refl

module _ {A : Type 0} (threads : ℕ) (calls : ℕ → ℕ → ℕ) (item : ℕ → A) where
  abbrev pub IsShut : System A → Type 0
  IsShut s = s.channel.shared.recv_closed ≡ true

  -- On a closed channel `send` is an error at once.
  pub send-IsShut :
      (s : System A) (i : ℕ)
      → IsShut s
      → after_round i (send s.channel (idx_of calls item i s) (item (idx_of calls item i s))) s
        ≡ go i gone s
  unfolding send after_round
  send-IsShut s i h = rw h refl

  round_by-IsShut :
      (i : ℕ) (p : Place) (s : System A) → IsShut s → IsShut (round_by calls item i p s)
  unfolding round_by
  round_by-IsShut i outside s h = h
  round_by-IsShut i entering s h =
      either IsShut s.locked s _ h (subst IsShut (sym (send-IsShut s i h)) h)
  round_by-IsShut i waiting s h = h
  round_by-IsShut i blocked s h = h
  round_by-IsShut i gone s h = h

  call_by-IsShut : (i : ℕ) (p : Place) (s : System A) → IsShut s → IsShut (call_by calls item i p s)
  unfolding call_by
  call_by-IsShut i outside s h = h
  call_by-IsShut i entering s h = h
  call_by-IsShut i waiting s h = h
  call_by-IsShut i blocked s h = h
  call_by-IsShut i gone s h = h

  wake_by-IsShut : (i : ℕ) (p : Place) (s : System A) → IsShut s → IsShut (wake_by calls item i p s)
  unfolding wake_by
  wake_by-IsShut i outside s h = h
  wake_by-IsShut i entering s h = h
  wake_by-IsShut i waiting s h = h
  wake_by-IsShut i blocked s h = h
  wake_by-IsShut i gone s h = h

  unblock_by-IsShut :
      (i : ℕ) (p : Place) (q : List A) (s : System A)
      → IsShut s
      → IsShut (unblock_by calls item i p q s)
  unfolding unblock_by
  unblock_by-IsShut i outside q s h = h
  unblock_by-IsShut i entering q s h = h
  unblock_by-IsShut i waiting q s h = h
  unblock_by-IsShut i blocked [] s h = h
  unblock_by-IsShut i blocked (x ∷ q) s h = h
  unblock_by-IsShut i gone q s h = h

  drop_by-IsShut : (i : ℕ) (p : Place) (s : System A) → IsShut s → IsShut (drop_by calls item i p s)
  unfolding drop_by
  drop_by-IsShut i outside s h = h
  drop_by-IsShut i entering s h = h
  drop_by-IsShut i waiting s h = h
  drop_by-IsShut i blocked s h = h
  drop_by-IsShut i gone s h = h

  close_by-IsShut :
      (i : ℕ) (p : Place) (s : System A) → IsShut s → IsShut (close_by calls item i p s)
  unfolding close_by close_sender
  close_by-IsShut i outside s h = either IsShut s.locked s _ h refl
  close_by-IsShut i entering s h = h
  close_by-IsShut i waiting s h = h
  close_by-IsShut i blocked s h = h
  close_by-IsShut i gone s h = h

  -- The moves that are open while the task joins leave the channel closed.
  pub step-IsShut :
      (m : Move) (s : Stream A)
      → s.joining ≡ true
      → is_open calls item threads m s ≡ true
      → IsShut s.system
      → IsShut (step calls item threads m s.system)
  unfolding is_open step
  step-IsShut (call i) s j o h =
      either IsShut (ltb i threads) _ s.system
        (call_by-IsShut i (s.system.senders i).place s.system h) h
  step-IsShut (round i) s j o h =
      either IsShut (ltb i threads) _ s.system
        (round_by-IsShut i (s.system.senders i).place s.system h) h
  step-IsShut (wake i) s j o h =
      either IsShut (ltb i threads) _ s.system
        (wake_by-IsShut i (s.system.senders i).place s.system h) h
  step-IsShut (unblock i) s j o h =
      either IsShut (ltb i threads) _ s.system
        (unblock_by-IsShut i (s.system.senders i).place s.system.channel.queue s.system h) h
  step-IsShut (drop_sender i) s j o h =
      either IsShut (ltb i threads) _ s.system
        (drop_by-IsShut i (s.system.senders i).place s.system h) h
  step-IsShut (close_sending i) s j o h =
      either IsShut (ltb i threads) _ s.system
        (close_by-IsShut i (s.system.senders i).place s.system h) h
  step-IsShut ask_next s j o h = absurd (cc (rw j at o))
  step-IsShut take_value s j o h = absurd (cc (rw j at o))
  step-IsShut return_value s j o h = absurd (cc (rw j at o))
  step-IsShut return_none s j o h = absurd (cc (rw j at o))
  step-IsShut cancel s j o h = absurd (cc (rw j at o))
  step-IsShut close_receiving s j o h = absurd cc

  close_receiver-shut : (ch : Channel A) → (close_receiver ch).shared.recv_closed ≡ true
  unfolding close_receiver
  close_receiver-shut ch = go ch.shared.recv_closed refl
    where
      go :
          (b : Bool)
          → ch.shared.recv_closed ≡ b
          → (if b then ch else record ch {
            shared = record ch.shared { recv_closed = true };
            rx_closed = true;
          }).shared.recv_closed
            ≡ true
      go true e = e
      go false e = refl

  pub close_receiving-IsShut :
      (s : System A)
      → s.receiver ≡ resting
      → s.locked ≡ false
      → IsShut (step calls item threads close_receiving s)
  unfolding step shut_by
  close_receiving-IsShut s e f =
      subst IsShut
        (sym (ap (λ (p : Receiver A). shut_by calls item p s) e ∙ if_false s.locked s _ f))
        (close_receiver-shut s.channel)

  pub cancelled :
      (s : System A) → s.receiver ≡ polling → (step calls item threads cancel s).receiver ≡ resting
  unfolding step cancel_by
  cancelled s e = rw e refl

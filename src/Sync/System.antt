-- ===== src/Sync/System.antt =====
-- The ordered channel of src/sync.rs in use: threads that send, each at its own indices, and a task
-- that receives. Each move is a part of an operation that runs without interruption.
pub mod Invariant
pub mod Preserved
pub mod Receive
pub mod Safety
use deltasync.Base.{
  ℕ, suc, ◌+◌, List, [], ◌∷◌, ◌++◌, Bool, true, false, not, ◌&&◌, ◌||◌, ◌==◌, ltb, if◌then◌else◌,
}
use deltasync.Sync.Channel.{
  Channel, Attempt, closed, waits, blocks, pushed, ordered_channel, send, ask, finish, close_sender,
  close_receiver,
}

-- Where a thread is: outside `send`, about to take the lock in it, in `cond_var.wait`, in
-- `blocking_send` with the lock held, or past its last call, with its sender dropped.
pub data Place : Type 0 where
  outside entering waiting blocked gone : Place

-- `sent` counts the calls that have returned `Ok`.
pub record Sender : Type 0 where
  pub place : Place
  pub sent : ℕ

-- Where the receiving task is: outside `recv`, in `inner.recv().await`, or behind it with a value.
pub data Receiver {ℓ} (A : Type ℓ) : Type ℓ where
  resting polling : Receiver A
  got : A → Receiver A

-- `locked` where a thread holds the lock between two moves; `received` are the values that `recv`
-- has returned.
pub record System {ℓ} (A : Type ℓ) : Type ℓ where
  pub channel : Channel A
  pub locked : Bool
  pub senders : ℕ → Sender
  pub receiver : Receiver A
  pub received : List A

abbrev pub start {ℓ} : {A : Type ℓ} → System A
start = record {
  channel = ordered_channel;
  locked = false;
  senders = λ i. record { place = outside; sent = 0 };
  receiver = resting;
  received = [];
}

pub data Move : Type 0 where
  -- A thread calls `send`, runs a round of its loop, is woken without a reason, gets room in the
  -- queue, drops its sender, or calls `close`.
  call round wake unblock drop_sender close_sending : ℕ → Move
  -- The task calls `recv`, is given a value of the queue, returns it, or returns `None`; its future
  -- is dropped; or it calls `close`.
  ask_next take_value return_value return_none cancel close_receiving : Move

unfoldable pub put {ℓ} : {A : Type ℓ} → ℕ → A → (ℕ → A) → ℕ → A
put i x f j = if j == i then x else f j

-- `cond_var.notify_all()`
abbrev pub woken : Place → Place
woken waiting = entering
woken p = p

unfoldable pub notify_all : (ℕ → Sender) → ℕ → Sender
notify_all f j = record (f j) { place = woken (f j).place }

abbrev pub go {ℓ} : {A : Type ℓ} → ℕ → Place → System A → System A
go i p s = record s { senders = put i (record (s.senders i) { place = p }) s.senders }

-- `send` has returned `Ok`.
abbrev pub deliver {ℓ} : {A : Type ℓ} → ℕ → Channel A → System A → System A
deliver i ch s = record s {
  channel = ch;
  locked = false;
  senders = put i (record { place = outside; sent = suc (s.senders i).sent }) s.senders;
}

-- After an `Err` a thread makes no further call.
unfoldable pub after_round {ℓ} : {A : Type ℓ} → ℕ → Attempt A → System A → System A
after_round i closed s = go i gone s
after_round i waits s = go i waiting s
after_round i blocks s = record (go i blocked s) { locked = true }
after_round i (pushed ch) s = deliver i ch s

module _ {ℓ} {A : Type ℓ} (calls : ℕ → ℕ → ℕ) (item : ℕ → A) where
  -- A call of thread `i` is at the index `calls i n`, where `n` calls have returned, and of the value
  -- `item` of that index.
  abbrev pub idx_of : ℕ → System A → ℕ
  idx_of i s = calls i (s.senders i).sent

  unfoldable pub round_by : ℕ → Place → System A → System A
  round_by i entering s =
      if s.locked then s else after_round i (send s.channel (idx_of i s) (item (idx_of i s))) s
  round_by i p s = s

  unfoldable pub call_by : ℕ → Place → System A → System A
  call_by i outside s = go i entering s
  call_by i p s = s

  unfoldable pub wake_by : ℕ → Place → System A → System A
  wake_by i waiting s = go i entering s
  wake_by i p s = s

  unfoldable pub unblock_by : ℕ → Place → List A → System A → System A
  unblock_by i blocked [] s = deliver i (record s.channel { queue = item (idx_of i s) ∷ [] }) s
  unblock_by i p q s = s

  unfoldable pub drop_by : ℕ → Place → System A → System A
  drop_by i outside s = go i gone s
  drop_by i p s = s

  unfoldable pub close_by : ℕ → Place → System A → System A
  close_by i outside s =
      if s.locked
      then s
      else go i gone (record s { channel = close_sender s.channel; senders = notify_all s.senders })
  close_by i p s = s

  unfoldable pub ask_by : Receiver A → System A → System A
  ask_by resting s = if s.locked then s else record s {
    channel = ask s.channel;
    senders = if s.channel.shared.receiving then s.senders else notify_all s.senders;
    receiver = polling;
  }
  ask_by p s = s

  unfoldable pub take_by : Receiver A → List A → System A → System A
  take_by polling (v ∷ vs) s = record s {
    channel = record s.channel { queue = vs };
    receiver = got v;
  }
  take_by p q s = s

  unfoldable pub return_by : Receiver A → System A → System A
  return_by (got v) s = if s.locked then s else record s {
    channel = finish s.channel;
    receiver = resting;
    received = s.received ++ v ∷ [];
  }
  return_by p s = s

  -- The queue is empty, and closed or without senders, which the model leaves open.
  unfoldable pub none_by : Receiver A → List A → System A → System A
  none_by polling [] s = record s { receiver = resting }
  none_by p q s = s

  unfoldable pub cancel_by : Receiver A → System A → System A
  cancel_by polling s = record s { receiver = resting }
  cancel_by p s = s

  unfoldable pub shut_by : Receiver A → System A → System A
  shut_by resting s = if s.locked then s else record s {
    channel = close_receiver s.channel;
    senders = if s.channel.shared.recv_closed then s.senders else notify_all s.senders;
  }
  shut_by p s = s

  -- The threads are the numbers below `threads`. A move that is not open changes nothing.
  abbrev pub by_thread : ℕ → ℕ → System A → System A → System A
  by_thread threads i s s' = if ltb i threads then s' else s

  unfoldable pub step : ℕ → Move → System A → System A
  step threads (call i) s = by_thread threads i s (call_by i (s.senders i).place s)
  step threads (round i) s = by_thread threads i s (round_by i (s.senders i).place s)
  step threads (wake i) s = by_thread threads i s (wake_by i (s.senders i).place s)
  step threads (unblock i) s =
      by_thread threads i s (unblock_by i (s.senders i).place s.channel.queue s)
  step threads (drop_sender i) s = by_thread threads i s (drop_by i (s.senders i).place s)
  step threads (close_sending i) s = by_thread threads i s (close_by i (s.senders i).place s)
  step threads ask_next s = ask_by s.receiver s
  step threads take_value s = take_by s.receiver s.channel.queue s
  step threads return_value s = return_by s.receiver s
  step threads return_none s = none_by s.receiver s.channel.queue s
  step threads cancel s = cancel_by s.receiver s
  step threads close_receiving s = shut_by s.receiver s

  unfoldable pub run : ℕ → List Move → System A → System A
  run threads [] s = s
  run threads (m ∷ ms) s = run threads ms (step threads m s)

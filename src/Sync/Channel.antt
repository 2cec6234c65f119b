-- ===== src/Sync/Channel.antt =====
-- The operations of the ordered channel of src/sync.rs, as far as they run under its lock, and the
-- `tokio::sync::mpsc` queue of capacity 1 within it.
use deltasync.Base.{
  ℕ, ◌+◌, List, [], ◌∷◌, Bool, true, false, Option, none, some, ◌==◌, if◌then◌else◌,
}

pub record SharedState : Type 0 where
  pub wanted_idx : Option ℕ
  pub recv_closed : Bool
  pub receiving : Bool

-- The shared state, and the queue: what is in it, and whether its receiver has been closed.
pub record Channel {ℓ} (A : Type ℓ) : Type ℓ where
  pub shared : SharedState
  pub queue : List A
  pub rx_closed : Bool

abbrev pub ordered_channel {ℓ} : {A : Type ℓ} → Channel A
ordered_channel = record {
  shared = record { wanted_idx = none; recv_closed = false; receiving = false };
  queue = [];
  rx_closed = false;
}

-- What a round of the loop of `send` comes to: `Err`, a wait on the condition variable, the value
-- in the queue and `Ok`, or a wait for room in the queue, with the lock held.
pub data Attempt {ℓ} (A : Type ℓ) : Type ℓ where
  closed waits blocks : Attempt A
  pushed : Channel A → Attempt A

-- `state.wanted_idx == Some(idx)`
unfoldable pub wants : Option ℕ → ℕ → Bool
wants none idx = false
wants (some k) idx = k == idx

-- `mpsc::Sender::blocking_send` on a queue of capacity 1.
unfoldable pub blocking_send {ℓ} : {A : Type ℓ} → Channel A → List A → A → Attempt A
blocking_send ch [] value =
    if ch.rx_closed then closed else pushed (record ch { queue = value ∷ [] })
blocking_send ch (v ∷ vs) value = if ch.rx_closed then closed else blocks

-- One round of the loop of `OrderedSender::send`.
unfoldable pub send {ℓ} : {A : Type ℓ} → Channel A → ℕ → A → Attempt A
send ch idx value =
    if ch.shared.recv_closed
    then closed
    else if wants ch.shared.wanted_idx idx
    then blocking_send ch ch.queue value
    else waits

unfoldable pub next_wanted : Option ℕ → Option ℕ
next_wanted none = some 0
next_wanted (some i) = some (i + 1)

-- `OrderedReceiver::recv` before it waits for the queue.
unfoldable pub ask {ℓ} : {A : Type ℓ} → Channel A → Channel A
ask ch = if ch.shared.receiving then ch else record ch {
  shared = record ch.shared { wanted_idx = next_wanted ch.shared.wanted_idx; receiving = true };
}

-- `OrderedReceiver::recv` behind the value.
unfoldable pub finish {ℓ} : {A : Type ℓ} → Channel A → Channel A
finish ch = record ch { shared = record ch.shared { receiving = false } }

-- `OrderedSender::close`
unfoldable pub close_sender {ℓ} : {A : Type ℓ} → Channel A → Channel A
close_sender ch = record ch { shared = record ch.shared { recv_closed = true } }

-- `OrderedReceiver::close`
unfoldable pub close_receiver {ℓ} : {A : Type ℓ} → Channel A → Channel A
close_receiver ch =
    if ch.shared.recv_closed
    then ch
    else record ch { shared = record ch.shared { recv_closed = true }; rx_closed = true }

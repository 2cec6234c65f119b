-- ===== src/HashFile/Stream.antt =====
-- `HashStream` of src/hash_file.rs: what its `recv` answers, and its threads with the loans of
-- src/sync.rs that they reclaim, up to its `drop`, which joins them.
pub mod Shut
pub mod Joins
mod Examples
use deltasync.Base.{
  ℕ, zero, suc, Bool, true, false, not, ◌&&◌, Option, none, some, ltb, if◌then◌else◌, length, List,
  [], ◌∷◌, ◌==◌,
}
use deltasync.Bytes.{String}
use deltasync.HashFile.{FileBlockData}
use deltasync.Select.{Received, value, nothing, error}
use deltasync.Sync.System.{
  Receiver, resting, polling, got, System, start, Move, call, round, wake, unblock, drop_sender,
  close_sending, ask_next, take_value, return_value, return_none, cancel, close_receiving, step,
}

-- The branch of `select!` that is ready: `rx.recv()`, or `error_rx.changed()` with the message.
pub data Ready : Type 0 where
  received : Option (ℕ × FileBlockData) → Ready
  changed : String → Ready

unfoldable selected : Ready → Received
selected (received none) = nothing
selected (received (some (idx, block))) = value block
selected (changed message) = error

-- `HashStream::recv`, by the error that the threads have reported before.
unfoldable pub recv : Option String → Ready → Received
unfolding selected
recv (some message) ready = error
recv none ready = selected ready

-- The channel with its threads and its task. The block of an index is on loan until it is dropped,
-- `dropped` says whether it was. `joining` where `HashStream::drop` has closed the channel.
pub record Stream {ℓ} (A : Type ℓ) : Type ℓ where
  pub system : System A
  pub dropped : ℕ → Bool
  pub joining : Bool

abbrev pub opened {ℓ} : {A : Type ℓ} → Stream A
opened = record { system = start; dropped = λ k. false; joining = false }

-- A move within the channel; the loan of an index, which the task has been handed, is dropped; the
-- stream is.
pub data Act : Type 0 where
  moves : Move → Act
  drops_loan : ℕ → Act
  drops_stream : Act

module _ {ℓ} {A : Type ℓ} (calls : ℕ → ℕ → ℕ) (item : ℕ → A) (threads : ℕ) where
  -- `blocking_reclaim` of the last block that a thread has sent is over.
  abbrev pub is_reclaimed : ℕ → ℕ → (ℕ → Bool) → Bool
  is_reclaimed i zero dropped = true
  is_reclaimed i (suc n) dropped = dropped (calls i n)

  abbrev pub has_reclaimed : ℕ → Stream A → Bool
  has_reclaimed i s = is_reclaimed i (s.system.senders i).sent s.dropped

  -- A thread goes on with its own block in hand only; the task makes no move while it joins, and the
  -- channel is closed by `drop`.
  unfoldable pub is_open : Move → Stream A → Bool
  is_open (call i) s = has_reclaimed i s
  is_open (round i) s = true
  is_open (wake i) s = true
  is_open (unblock i) s = true
  is_open (drop_sender i) s = has_reclaimed i s
  is_open (close_sending i) s = has_reclaimed i s
  is_open ask_next s = not s.joining
  is_open take_value s = not s.joining
  is_open return_value s = not s.joining
  is_open return_none s = not s.joining
  is_open cancel s = not s.joining
  is_open close_receiving s = false

  -- `self.rx.close()`, behind the drop of a future of `recv`; a value that it was given is returned
  -- without a wait.
  unfoldable pub close_stream : Receiver A → Stream A → Stream A
  close_stream resting s = record s {
    system = step calls item threads close_receiving s.system;
    joining = true;
  }
  close_stream polling s = record s {
    system = step calls item threads close_receiving (step calls item threads cancel s.system);
    joining = true;
  }
  close_stream (got v) s = s

  unfoldable pub act : Act → Stream A → Stream A
  act (moves m) s =
      if is_open m s then record s { system = step calls item threads m s.system } else s
  act (drops_loan k) s =
      if not s.joining && ltb k (length s.system.received)
      then record s { dropped = λ j. if j == k then true else s.dropped j }
      else s
  act drops_stream s = if s.joining then s else close_stream s.system.receiver s

  unfoldable pub act_all : List Act → Stream A → Stream A
  act_all [] s = s
  act_all (a ∷ as_) s = act_all as_ (act a s)

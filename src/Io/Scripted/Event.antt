-- ===== src/Io/Scripted/Event.antt =====
-- What the next call of a scripted stream comes to.
use deltasync.Base.{ℕ}

-- The future is dropped, the call fails, or up to `n + 1` bytes go over.
pub data Event : Type 0 where
  give : ℕ → Event
  wait lose : Event

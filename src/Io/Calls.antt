-- ===== src/Io/Calls.antt =====
-- How a call of an async function ends, for the functions of src/common.rs.
use deltasync.Base.{ℕ, Option, none, some}

-- The errors that the code raises, by their messages; `io` stands for whatever `?` passes on from
-- the operating system or from tokio, and `unwrap_failed` for a panic.
pub data Error : Type 0 where
  io : Error
  closed_by_peer : Error
  too_long : (size max : ℕ) → Error
  invalid_utf8 : Error
  unknown_status : Error
  invalid_secret file_size_differs permission_denied client_already_connected : Error
  unknown_hash_algorithm protocol_version_mismatch invalid_block_size : Error
  does_not_fit : Error
  empty_source : Error
  invalid_path : Error
  secret_too_long no_username missing_source not_authenticated unwrap_failed : Error

-- What the future of one `read` or `write` comes to: it is ready, or the `select!` around it takes
-- another branch and drops it, or the call fails.
pub data Poll {ℓ} (A : Type ℓ) : Type ℓ where
  ready : A → Poll A
  pending failed : Poll A

-- A call returns `Ok` or `Err`, or is cancelled where it awaits. `stuck` is no Rust outcome: a loop
-- of the model has run out of fuel.
pub data Outcome {ℓ} (A : Type ℓ) : Type ℓ where
  done : A → Outcome A
  bail : Error → Outcome A
  cancelled stuck : Outcome A

-- The outcome of a `&mut self` method, with the object and the stream that it leaves.
pub record Turn (Self Io A : Type 0) : Type 0 where
  pub outcome : Outcome A
  pub self : Self
  pub stream : Io

-- A Rust `Result<A, anyhow::Error>`.
pub data Result {ℓ} (A : Type ℓ) : Type ℓ where
  ok : A → Result A
  err : Error → Result A

infixl 5 ◌>>=◌
abbrev pub ◌>>=◌ {ℓ κ} : {A : Type ℓ} {B : Type κ} → Result A → (A → Result B) → Result B
ok a >>= f = f a
err e >>= f = err e

-- `?` on a call of tokio.
abbrev pub or_io {ℓ} : {A : Type ℓ} → Option A → Result A
or_io none = err io
or_io (some a) = ok a

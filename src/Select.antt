-- ===== src/Select.antt =====
-- The `tokio::select!` loops of src/client.rs and src/server.rs: how a round of such a loop ends.
use deltasync.Base.{List, [], ◌∷◌, Bool, true, false, Option, none, some}
use deltasync.HashFile.{FileBlockData}

-- The loop goes on, is left by `break`, or the function returns `Err`.
pub data Flow (A : Type 0) : Type 0 where
  goes_on breaks returns_err : A → Flow A

abbrev pub continue_with : {A : Type 0} → Flow A → (A → Flow A) → Flow A
continue_with (goes_on a) f = f a
continue_with (breaks a) f = breaks a
continue_with (returns_err a) f = returns_err a

-- What `hasher.recv()` answers.
pub data Received : Type 0 where
  value : FileBlockData → Received
  nothing error : Received

unfoldable pub is_empty {ℓ} : {A : Type ℓ} → List A → Bool
is_empty [] = true
is_empty (x ∷ xs) = false

unfoldable pub is_some {ℓ} : {A : Type ℓ} → Option A → Bool
is_some none = false
is_some (some a) = true

abbrev pub left_with : {A : Type 0} → Flow A → A
left_with (goes_on a) = a
left_with (breaks a) = a
left_with (returns_err a) = a

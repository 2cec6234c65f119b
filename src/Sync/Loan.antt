-- ===== src/Sync/Loan.antt =====
-- The loans of src/sync.rs: a value that comes back to its owner when the loan of it is dropped.
use deltasync.Base.{◌≡◌, refl, sym, subst, List, [], ◌∷◌, Bool, true, false, Option, none, some}

-- The `oneshot` channel of a loan: nothing sent yet, a value, or a sender that is gone without one.
pub data Slot {ℓ} (A : Type ℓ) : Type ℓ where
  unsent broken : Slot A
  sent : A → Slot A

-- `tx` says whether the sender is there.
pub record Loan {ℓ} (A : Type ℓ) : Type ℓ where
  pub value : A
  pub tx : Bool

-- What a call of `blocking_reclaim` comes to.
pub data Reclaimed {ℓ} (A : Type ℓ) : Type ℓ where
  waits panics : Reclaimed A
  reclaimed : A → Reclaimed A

unfoldable pub loan {ℓ} : {A : Type ℓ} → A → Loan A × Slot A
loan a = (record { value = a; tx = true }, unsent)

unfoldable pub blocking_reclaim {ℓ} : {A : Type ℓ} → Slot A → Reclaimed A
blocking_reclaim unsent = waits
blocking_reclaim broken = panics
blocking_reclaim (sent a) = reclaimed a

-- `DerefMut`: the holder changes the value.
unfoldable pub deref_mut {ℓ} : {A : Type ℓ} → (A → A) → Loan A → Loan A
deref_mut f l = record l { value = f l.value }

-- `self.tx.take().unwrap().send(..)`; where the sender was taken before, the `unwrap` panics.
unfoldable send_back {ℓ} : {A : Type ℓ} → Bool → A → Slot A
send_back true a = sent a
send_back false a = broken

-- `Drop`
unfoldable pub drop_loan {ℓ} : {A : Type ℓ} → Loan A → Slot A
unfolding send_back
drop_loan l = send_back l.tx l.value

-- A loan in use: its holder, if it has not been dropped, and the slot.
pub record Lent {ℓ} (A : Type ℓ) : Type ℓ where
  pub holder : Option (Loan A)
  pub slot : Slot A

pub data Use {ℓ} (A : Type ℓ) : Type ℓ where
  writes : (A → A) → Use A
  drops : Use A

unfoldable pub lend {ℓ} : {A : Type ℓ} → A → Lent A
lend a = record { holder = some (loan a).0; slot = (loan a).1 }

unfoldable pub use_by {ℓ} : {A : Type ℓ} → Use A → Option (Loan A) → Lent A → Lent A
use_by u none s = s
use_by (writes f) (some l) s = record s { holder = some (deref_mut f l) }
use_by drops (some l) s = record { holder = none; slot = drop_loan l }

unfoldable pub uses {ℓ} : {A : Type ℓ} → List (Use A) → Lent A → Lent A
uses [] s = s
uses (u ∷ us) s = uses us (use_by u s.holder s)

-- The value at the drop.
abbrev pub written_back {ℓ} : {A : Type ℓ} → List (Use A) → A → A
written_back [] a = a
written_back (writes f ∷ us) a = written_back us (f a)
written_back (drops ∷ us) a = a

module _ {ℓ} {A : Type ℓ} where
  -- The owner waits while the loan is held, and has the value `a` behind the drop.
  abbrev pub Returns : Option (Loan A) → Slot A → A → Type ℓ
  Returns none slot a = blocking_reclaim slot ≡ reclaimed a
  Returns (some l) slot a = blocking_reclaim slot ≡ waits

  uses-dropped :
      (us : List (Use A)) (slot : Slot A)
      → uses us (record { holder = none; slot = slot }) ≡ record { holder = none; slot = slot }
  unfolding uses use_by
  uses-dropped [] slot = refl
  uses-dropped (u ∷ us) slot = uses-dropped us slot

  -- Whatever the holder of a loan does with the value, `blocking_reclaim` waits while the loan is
  -- held, and behind its drop returns the value as the holder has left it; it never panics.
  pub uses-Returns :
      (us : List (Use A)) (a : A)
      → let s = uses us (lend a) in Returns s.holder s.slot (written_back us a)
  unfolding uses use_by lend loan deref_mut drop_loan blocking_reclaim
  uses-Returns [] a = refl
  uses-Returns (writes f ∷ us) a = uses-Returns us (f a)
  uses-Returns (drops ∷ us) a =
      subst (λ (s : Lent A). Returns s.holder s.slot a) (sym (uses-dropped us (sent a))) refl

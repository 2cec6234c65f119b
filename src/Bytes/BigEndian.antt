-- ===== src/Bytes/BigEndian.antt =====
-- Eight bytes, the most significant first: the loops of src/common.rs and the words that tokio's
-- `write_u64` puts on the wire.
use deltasync.Base.{
  ℕ, zero, suc, ◌+◌, ◌*◌, ◌/◌, ◌%◌, ◌^◌, ◌≤◌, ◌<◌, ◌≡◌, refl, ap, ◌∙◌, sym, List, [], ◌∷◌, ◌++◌,
  append-nil, append_assoc, arith, length, length-append, length-set, set, drop, replicate, subst,
}
use native.Mathlib.Nat.{pow-suc}

abbrev pub IsByte : ℕ → Type 0
IsByte b = b < 256

abbrev pub IsU64 : ℕ → Type 0
IsU64 n = n < 2 ^ 64

abbrev pub All {ℓ κ} : {A : Type ℓ} → (A → Type κ) → List A → Type κ
All P [] = Unit
All P (x ∷ xs) = P x × All P xs

-- The `k` low bytes of `n`, the most significant first.
unfoldable pub be : ℕ → ℕ → List ℕ
be zero n = []
be (suc k) n = be k (n / 256) ++ (n % 256) ∷ []

-- `for i in (0..k).rev() { vec[i] = (n & 0xFF) as u8; n >>= 8; }`
unfoldable pub be_fill : ℕ → ℕ → List ℕ → List ℕ
be_fill zero n vec = vec
be_fill (suc i) n vec = be_fill i (n / 256) (set vec i (n % 256))

-- `for b in bytes { acc <<= 8; acc += b as u64; }`
unfoldable pub be_read : ℕ → List ℕ → ℕ
be_read acc [] = acc
be_read acc (b ∷ bs) = be_read ((acc * 256 % 2 ^ 64 + b) % 2 ^ 64) bs

pub length-be : (k n : ℕ) → length (be k n) ≡ k
unfolding be
length-be zero n = refl
length-be (suc k) n =
    omega (arith, length-append (be k (n / 256)) ((n % 256) ∷ []), length-be k (n / 256))

drop-set : (i b : ℕ) (xs : List ℕ) → i < length xs → drop i (set xs i b) ≡ b ∷ drop (suc i) xs
drop-set i b [] h = absurd (omega arith)
drop-set zero b (x ∷ xs) h = refl
drop-set (suc i) b (x ∷ xs) h = drop-set i b xs (omega arith)

be_fill-eq : (k n : ℕ) (vec : List ℕ) → k ≤ length vec → be_fill k n vec ≡ be k n ++ drop k vec
unfolding be be_fill
be_fill-eq zero n vec h = refl
be_fill-eq (suc i) n vec h =
    be_fill-eq i (n / 256) (set vec i (n % 256)) (omega (arith, length-set vec i (n % 256)))
    ∙ rw (drop-set i (n % 256) vec h) (sym (append_assoc (be i (n / 256)) ((n % 256) ∷ []) _))

-- Filling a fresh buffer of eight bytes writes the big-endian word.
pub be_fill-be : (n : ℕ) → be_fill 8 n (replicate 8 0) ≡ be 8 n
be_fill-be n = be_fill-eq 8 n (replicate 8 0) (omega arith) ∙ append-nil (be 8 n)

be_read-append : (acc : ℕ) (xs ys : List ℕ) → be_read acc (xs ++ ys) ≡ be_read (be_read acc xs) ys
unfolding be_read
be_read-append acc [] ys = refl
be_read-append acc (x ∷ xs) ys = be_read-append ((acc * 256 % 2 ^ 64 + x) % 2 ^ 64) xs ys

be_read-be_of_lt : (k n : ℕ) → n < 256 ^ k → IsU64 n → be_read 0 (be k n) ≡ n
unfolding be be_read
be_read-be_of_lt zero n h u = omega arith
be_read-be_of_lt (suc k) n h u =
    rw
      (
        be_read-append 0 (be k (n / 256)) ((n % 256) ∷ []),
        be_read-be_of_lt k (n / 256) (omega (arith, pow-suc 256 k)) (omega arith),
      )
      (omega arith)

-- Reading the eight bytes of a `u64` gives it back.
pub be_read-be : (n : ℕ) → IsU64 n → be_read 0 (be 8 n) ≡ n
be_read-be n h = be_read-be_of_lt 8 n (omega arith) h

be_read-lt : (acc : ℕ) (bs : List ℕ) → IsU64 acc → IsU64 (be_read acc bs)
unfolding be_read
be_read-lt acc [] h = h
be_read-lt acc (b ∷ bs) h = be_read-lt ((acc * 256 % 2 ^ 64 + b) % 2 ^ 64) bs (omega arith)

pub All-append_split {ℓ κ} :
    {A : Type ℓ} (P : A → Type κ) (xs ys : List A) → All P (xs ++ ys) → All P xs × All P ys
All-append_split P [] ys h = (tt, h)
All-append_split P (x ∷ xs) ys h = let (p, q) = All-append_split P xs ys h.1 in ((h.0, p), q)

-- A list that is not empty, split at its last element.
snoc_view :
    (k : ℕ) (xs : List ℕ)
    → length xs ≡ suc k
    → (ys : List ℕ) × (b : ℕ) × (xs ≡ ys ++ b ∷ []) × (length ys ≡ k)
snoc_view k [] h = absurd (omega arith)
snoc_view zero (x ∷ []) h = ([], x, refl, refl)
snoc_view zero (x ∷ y ∷ xs) h = absurd (omega arith)
snoc_view (suc k) (x ∷ []) h = absurd (omega arith)
snoc_view (suc k) (x ∷ y ∷ xs) h =
    let (ys, b, e, l) = snoc_view k (y ∷ xs) (omega arith) in (x ∷ ys, b, ap (◌∷◌ x) e, omega arith)

-- Reading `k` bytes in order gives a number of `k` bytes, and its bytes are those.
read_word :
    (k : ℕ) (xs : List ℕ)
    → 256 ^ k ≤ 2 ^ 64
    → length xs ≡ k
    → All IsByte xs
    → (be_read 0 xs < 256 ^ k) × (be k (be_read 0 xs) ≡ xs)
unfolding be be_read
read_word zero [] h l bytes = (omega arith, refl)
read_word zero (x ∷ xs) h l bytes = absurd (omega arith)
read_word (suc k) xs h l bytes =
    let (ys, b, e, l') = snoc_view k xs l in
    let (front, last) = All-append_split IsByte ys (b ∷ []) (subst (All IsByte) e bytes) in
    let (small, same) = read_word k ys (omega (arith, pow-suc 256 k)) l' front in
    rw (e, be_read-append 0 ys (b ∷ []), be_read, be_read)
      (read_last k (be_read 0 ys) b ys (omega (arith, pow-suc 256 k)) small last.0 same)
  where
    read_last :
        (k m b : ℕ) (ys : List ℕ)
        → 256 * 256 ^ k ≤ 2 ^ 64
        → m < 256 ^ k
        → b < 256
        → be k m ≡ ys
        → ((m * 256 % 2 ^ 64 + b) % 2 ^ 64 < 256 ^ suc k)
          × (be (suc k) ((m * 256 % 2 ^ 64 + b) % 2 ^ 64) ≡ ys ++ b ∷ [])
    read_last k m b ys h small last same =
        let e : (m * 256 % 2 ^ 64 + b) % 2 ^ 64 ≡ m * 256 + b = omega arith in
        let q : (m * 256 + b) / 256 ≡ m = omega arith in
        let w : (m * 256 + b) % 256 ≡ b = omega arith in
        (omega (arith, pow-suc 256 k), rw (e, q, w, same))

-- Eight bytes are the big-endian word of the number that they are read as.
pub be-be_read : (xs : List ℕ) → length xs ≡ 8 → All IsByte xs → be 8 (be_read 0 xs) ≡ xs
be-be_read xs l bytes = (read_word 8 xs (omega arith) l bytes).1

pub be_read-IsU64 : (xs : List ℕ) → IsU64 (be_read 0 xs)
be_read-IsU64 xs = be_read-lt 0 xs (omega arith)

pub All-append {ℓ κ} :
    {A : Type ℓ} (P : A → Type κ) (xs ys : List A) → All P xs → All P ys → All P (xs ++ ys)
All-append P [] ys p q = q
All-append P (x ∷ xs) ys p q = (p.0, All-append P xs ys p.1 q)

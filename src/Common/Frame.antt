-- ===== src/Common/Frame.antt =====
-- A string on the wire: `u64` length, then its bytes (docs/architecture.md, "Wire Protocol
-- Specification"). `write_string`, `read_string` and the resumable structs agree on it.
use deltasync.Base.{ℕ, ◌≡◌, refl, ap, ◌∙◌, sym, List, [], ◌∷◌, ◌++◌, append_assoc, arith, length}
use deltasync.Bytes.{String, IsU64, be, length-be, be_read, be_read-be}

abbrev pub frame : String → List ℕ
frame s = be 8 (length s) ++ s

-- Two splits of one list at the same place are one.
pub append_injective {ℓ} :
    {A : Type ℓ} (xs ys : List A) {us vs : List A}
    → length xs ≡ length ys
    → xs ++ us ≡ ys ++ vs
    → (xs ≡ ys) × (us ≡ vs)
append_injective [] [] l e = (refl, e)
append_injective [] (y ∷ ys) l e = absurd (omega arith)
append_injective (x ∷ xs) [] l e = absurd (omega arith)
append_injective (x ∷ xs) (y ∷ ys) {us} {vs} l e =
    let p : x ≡ y = cc in
    let q : xs ++ us ≡ ys ++ vs = cc in
    let (f, g) = append_injective xs ys (omega arith) q in (cc, g)

-- The word in front of two equal streams is the same, and so is what follows it.
pub word_injective :
    (m n : ℕ) {us vs : List ℕ}
    → IsU64 m
    → IsU64 n
    → be 8 m ++ us ≡ be 8 n ++ vs
    → (m ≡ n) × (us ≡ vs)
word_injective m n hm hn e =
    let (w, rest) = append_injective (be 8 m) (be 8 n) (length-be 8 m ∙ sym (length-be 8 n)) e in
    (sym (be_read-be m hm) ∙ ap (be_read 0) w ∙ be_read-be n hn, rest)

-- A stream begins with one frame at most.
pub frame_injective :
    (s t : String) {us vs : List ℕ}
    → IsU64 (length s)
    → IsU64 (length t)
    → frame s ++ us ≡ frame t ++ vs
    → (s ≡ t) × (us ≡ vs)
frame_injective s t {us} {vs} hs ht e =
    let e' : be 8 (length s) ++ (s ++ us) ≡ be 8 (length t) ++ (t ++ vs) =
      sym (append_assoc (be 8 (length s)) s us) ∙ e ∙ append_assoc (be 8 (length t)) t vs in
    let (l, rest) = word_injective (length s) (length t) hs ht e' in append_injective s t l rest

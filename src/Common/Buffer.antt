-- ===== src/Common/Buffer.antt =====
-- Operations of `Vec<u8>` and of slices that src/common.rs uses.
use deltasync.Base.{
  ℕ, zero, suc, ◌+◌, ◌-◌, ◌≤◌, ◌≡◌, refl, ap, ◌∙◌, List, [], ◌∷◌, ◌++◌, append_assoc, arith, length,
  length-append, length-take, length-drop, take, drop, replicate, length-replicate,
}

-- `buf[p..]` receives `bs`.
unfoldable pub write_at : List ℕ → ℕ → List ℕ → List ℕ
write_at buf p bs = take p buf ++ (bs ++ drop (p + length bs) buf)

-- `Vec::resize(n, 0)`.
unfoldable pub resize : ℕ → List ℕ → List ℕ
resize n buf = take n buf ++ replicate (n - length buf) 0

pub take-append_exact {ℓ} :
    {A : Type ℓ} (n : ℕ) (xs ys : List A) → length xs ≡ n → take n (xs ++ ys) ≡ xs
take-append_exact zero [] ys h = refl
take-append_exact zero (x ∷ xs) ys h = absurd (omega arith)
take-append_exact (suc n) [] ys h = absurd (omega arith)
take-append_exact (suc n) (x ∷ xs) ys h = ap (◌∷◌ x) (take-append_exact n xs ys (omega arith))

pub take-append_le {ℓ} :
    {A : Type ℓ} (n : ℕ) (xs ys : List A) → n ≤ length xs → take n (xs ++ ys) ≡ take n xs
take-append_le zero xs ys h = refl
take-append_le (suc n) [] ys h = absurd (omega arith)
take-append_le (suc n) (x ∷ xs) ys h = ap (◌∷◌ x) (take-append_le n xs ys (omega arith))

pub take-take {ℓ} : {A : Type ℓ} (m n : ℕ) (xs : List A) → m ≤ n → take m (take n xs) ≡ take m xs
take-take zero n xs h = refl
take-take (suc m) zero xs h = absurd (omega arith)
take-take (suc m) (suc n) [] h = refl
take-take (suc m) (suc n) (x ∷ xs) h = ap (◌∷◌ x) (take-take m n xs (omega arith))

pub take_all {ℓ} : {A : Type ℓ} (n : ℕ) (xs : List A) → length xs ≤ n → take n xs ≡ xs
take_all zero [] h = refl
take_all zero (x ∷ xs) h = absurd (omega arith)
take_all (suc n) [] h = refl
take_all (suc n) (x ∷ xs) h = ap (◌∷◌ x) (take_all n xs (omega arith))

pub take-write_at :
    (buf : List ℕ) (p : ℕ) (bs : List ℕ)
    → p + length bs ≤ length buf
    → take (p + length bs) (write_at buf p bs) ≡ take p buf ++ bs
unfolding write_at
take-write_at buf p bs h = rw (← append_assoc (take p buf) bs (drop (p + length bs) buf)) (
    take-append_exact (p + length bs) (take p buf ++ bs) _
      (omega (arith, length-append (take p buf) bs, length-take p buf)))

pub length-write_at :
    (buf : List ℕ) (p : ℕ) (bs : List ℕ)
    → p + length bs ≤ length buf
    → length (write_at buf p bs) ≡ length buf
unfolding write_at
length-write_at buf p bs h = omega (
  arith,
  length-append (take p buf) (bs ++ drop (p + length bs) buf),
  length-append bs (drop (p + length bs) buf),
  length-take p buf,
  length-drop (p + length bs) buf,
)

pub length-resize : (n : ℕ) (buf : List ℕ) → length (resize n buf) ≡ n
unfolding resize
length-resize n buf = omega (
  arith,
  length-append (take n buf) (replicate (n - length buf) 0),
  length-take n buf,
  length-replicate {A = ℕ} (n - length buf) 0,
)

pub take-resize :
    (k n : ℕ) (buf : List ℕ) → k ≤ length buf → k ≤ n → take k (resize n buf) ≡ take k buf
unfolding resize
take-resize k n buf h le =
    take-append_le k (take n buf) _ (omega (arith, length-take n buf)) ∙ take-take k n buf le

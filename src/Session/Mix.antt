-- ===== src/Session/Mix.antt =====
-- A destination that is the source up to some place, and as it was from there on.
use deltasync.Base.{
  ℕ, zero, suc, ◌+◌, ◌-◌, ◌≤◌, ◌≡◌, refl, sym, ap, ◌∙◌, List, [], ◌∷◌, ◌++◌, append_assoc,
  append-nil, length, length-append, length-take, length-drop, take, drop, replicate, arith,
  take-append-drop, inl, inr, Bool-cases, leb, min,
}
use deltasync.Common.Buffer.{take-append_exact}
use deltasync.Common.Drain.{drop-drop, drop_all}
use deltasync.FileSystem.SeekFile.{overwrite}

abbrev pub mix : ℕ → List ℕ → List ℕ → List ℕ
mix p src old = take p src ++ drop p old

drop-append_exact {ℓ} :
    {A : Type ℓ} (n : ℕ) (xs ys : List A) → length xs ≡ n → drop n (xs ++ ys) ≡ ys
drop-append_exact zero [] ys h = refl
drop-append_exact zero (x ∷ xs) ys h = absurd (omega arith)
drop-append_exact (suc n) [] ys h = absurd (omega arith)
drop-append_exact (suc n) (x ∷ xs) ys h = drop-append_exact n xs ys (omega arith)

take-nil {ℓ} : {A : Type ℓ} (n : ℕ) → ◌≡◌ {A = List A} (take n []) []
take-nil zero = refl
take-nil (suc n) = refl

take_add {ℓ} :
    {A : Type ℓ} (m n : ℕ) (xs : List A) → take (m + n) xs ≡ take m xs ++ take n (drop m xs)
take_add zero n xs = ap (λ (k : ℕ). take k xs) (omega arith)
take_add (suc m) n [] = take-nil (suc m + n) ∙ sym (take-nil n)
take_add (suc m) n (x ∷ xs) =
    ap (λ (k : ℕ). take k (x ∷ xs)) (let e : suc m + n ≡ suc (m + n) = omega arith in e)
    ∙ ap (◌∷◌ x) (take_add m n xs)

-- Where the next `n` bytes are the same, the place may be moved.
pub mix-same :
    (p n : ℕ) (src old : List ℕ)
    → take n (drop p src) ≡ take n (drop p old)
    → mix (p + n) src old ≡ mix p src old
mix-same p n src old e =
    ap (λ (x : List ℕ). x ++ drop (p + n) old) (take_add p n src ∙ ap (◌++◌ (take p src)) e)
    ∙ append_assoc (take p src) (take n (drop p old)) (drop (p + n) old)
    ∙ ap (λ (x : List ℕ). take p src ++ (take n (drop p old) ++ x)) (sym (drop-drop p n old))
    ∙ ap (◌++◌ (take p src)) (take-append-drop n (drop p old))

-- Where the next `n` bytes of the source are written there, too.
pub overwrite-mix :
    (p n : ℕ) (src old : List ℕ)
    → length src ≡ length old
    → p ≤ length src
    → overwrite (mix p src old) p (take n (drop p src)) ≡ mix (p + n) src old
unfolding overwrite
overwrite-mix p n src old same le =
    ap (λ (x : List ℕ). x ++ gap (length (mix p src old)) ++ bs ++ behind)
      (take-append_exact p (take p src) (drop p old) size)
    ∙ ap (λ (k : ℕ). take p src ++ replicate k 0 ++ bs ++ behind) no_gap
    ∙ ap (λ (x : List ℕ). x ++ bs ++ behind) (append-nil (take p src))
    ∙ ap (λ (x : List ℕ). x ++ behind) (sym (take_add p n src))
    ∙ ap (λ (x : List ℕ). take (p + n) src ++ x) (below ∙ rest)
  where
    bs : List ℕ
    bs = take n (drop p src)

    behind : List ℕ
    behind = drop (p + length bs) (mix p src old)

    gap : ℕ → List ℕ
    gap k = replicate (p - k) 0

    size : length (take p src) ≡ p
    size = omega (arith, length-take p src)

    no_gap : p - length (mix p src old) ≡ 0
    no_gap = omega (arith, size, length-append (take p src) (drop p old))

    below : behind ≡ drop (p + length bs) old
    below =
        sym (drop-drop p (length bs) (mix p src old))
        ∙ ap (drop (length bs)) (drop-append_exact p (take p src) (drop p old) size)
        ∙ drop-drop p (length bs) old

    count : length bs ≡ min n (length src - p)
    count = omega (arith, length-take n (drop p src), length-drop p src)

    rest : drop (p + length bs) old ≡ drop (p + n) old
    rest = elim (Bool-cases (leb n (length src - p))) [
      | inl e ↦
          ap (λ (k : ℕ). drop k old) (let k : p + length bs ≡ p + n = ground (arith, count, e) in k)
      | inr e ↦
          drop_all (p + length bs) old (ground (arith, count, e, same, le))
          ∙ sym (drop_all (p + n) old (ground (arith, count, e, same, le)))
    ]

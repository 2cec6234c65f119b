-- ===== src/RemoteStart/Text.antt =====
-- The texts of src/remote_start.rs: literals, `to_string` of a number, and `str::trim`.
use Prim.Native.Char.{code}
use Prim.Native.String.{String}
use mathlib.Core.List.{reverse}
use deltasync.Base.{
  ℕ, zero, suc, ◌+◌, ◌/◌, ◌%◌, List, [], ◌∷◌, ◌++◌, Bool, ◌&&◌, ◌||◌, ltb, leb, ◌==◌, if◌then◌else◌,
  length, drop, get_or, refl, ◌≡◌,
}

-- The bytes of an ASCII literal.
abbrev pub text : String → List ℕ
text String.[] = []
text (String.◌∷◌ c s) = code c ∷ text s

-- A `u64` has twenty digits at most.
unfoldable digits : ℕ → ℕ → List ℕ
digits zero n = []
digits (suc fuel) n =
    let high = digits fuel (n / 10) in
    if ltb n 10 then (48 + n) ∷ [] else high ++ (48 + n % 10) ∷ []

unfoldable pub to_string : ℕ → List ℕ
unfolding digits
to_string n = digits 20 n

-- The characters with the Unicode property White_Space, by the length of their UTF-8.
abbrev is_space1 : ℕ → Bool
is_space1 a = a == 0x20 || leb 9 a && leb a 13

abbrev is_space2 : ℕ → ℕ → Bool
is_space2 a b = a == 0xc2 && (b == 0x85 || b == 0xa0)

abbrev is_space3 : ℕ → ℕ → ℕ → Bool
is_space3 a b c =
    (a == 0xe1 && b == 0x9a && c == 0x80)
    || (a == 0xe2 && b == 0x80 && (leb 0x80 c && leb c 0x8a || c == 0xa8 || c == 0xa9 || c == 0xaf))
    || (a == 0xe2 && b == 0x81 && c == 0x9f)
    || (a == 0xe3 && b == 0x80 && c == 0x80)

-- How many bytes of white space a text begins with, for one character, and ends with, backwards.
unfoldable leading_space : List ℕ → ℕ
leading_space bs =
    let a = get_or bs 0 0 in
    let b = get_or bs 1 0 in
    let c = get_or bs 2 0 in
    if is_space1 a then 1 else if is_space2 a b then 2 else if is_space3 a b c then 3 else 0

unfoldable trailing_space : List ℕ → ℕ
trailing_space bs =
    let c = get_or bs 0 0 in
    let b = get_or bs 1 0 in
    let a = get_or bs 2 0 in
    if is_space1 c then 1 else if is_space2 b c then 2 else if is_space3 a b c then 3 else 0

unfoldable strip : (List ℕ → ℕ) → ℕ → List ℕ → List ℕ
strip space zero bs = bs
strip space (suc fuel) bs = elim (space bs) [
  | zero ↦ bs
  | suc n ↦ strip space fuel (drop (suc n) bs)
]

unfoldable pub trim : List ℕ → List ℕ
unfolding strip leading_space trailing_space
trim bs =
    let start = strip leading_space (length bs) bs in
    reverse (strip trailing_space (length start) (reverse start))

trim_test : trim (32 ∷ 47 ∷ 32 ∷ 97 ∷ 0xe2 ∷ 0x80 ∷ 0x89 ∷ 10 ∷ []) ≡ 47 ∷ 32 ∷ 97 ∷ []
unfolding trim
trim_test = refl

to_string_test : to_string 15000 ≡ text "15000"
unfolding to_string
to_string_test = refl

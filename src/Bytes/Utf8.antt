-- ===== src/Bytes/Utf8.antt =====
-- Rust's `String`: its bytes, which are valid UTF-8; and `String::from_utf8`.
use deltasync.Base.{
  ℕ, zero, suc, ◌<◌, ◌≡◌, refl, ap, List, [], ◌∷◌, Bool, true, false, ◌&&◌, arith, leb, ltb, ◌==◌,
  if◌then◌else◌, Option, none, some, ◌⊎◌, inl, inr, Bool-cases,
}

-- A string is its bytes. That they are valid UTF-8 is an invariant of Rust's type, and a hypothesis
-- where it is needed.
abbrev pub String : Type 0
String = List ℕ

-- What the decoder waits for: a first byte, or a byte from `lo` to `hi` with `more` behind it.
pub data Expect : Type 0 where
  lead : Expect
  tail : (lo hi more : ℕ) → Expect

-- What follows a first byte: no overlong form, no surrogate, nothing past U+10FFFF.
after_lead : ℕ → Option Expect
after_lead b =
    if ltb b 0x80
    then some lead
    else if leb 0xc2 b && leb b 0xdf
    then some (tail 0x80 0xbf 0)
    else if b == 0xe0
    then some (tail 0xa0 0xbf 1)
    else if b == 0xed
    then some (tail 0x80 0x9f 1)
    else if leb 0xe1 b && leb b 0xef
    then some (tail 0x80 0xbf 1)
    else if b == 0xf0
    then some (tail 0x90 0xbf 2)
    else if leb 0xf1 b && leb b 0xf3
    then some (tail 0x80 0xbf 2)
    else if b == 0xf4
    then some (tail 0x80 0x8f 2)
    else none

after_tail : ℕ → Expect
after_tail zero = lead
after_tail (suc n) = tail 0x80 0xbf n

next : Expect → ℕ → Option Expect
unfolding after_lead after_tail
next lead b = after_lead b
next (tail lo hi more) b = if leb lo b && leb b hi then some (after_tail more) else none

decodes : Expect → List ℕ → Bool
unfolding next
decodes lead [] = true
decodes (tail lo hi more) [] = false
decodes e (b ∷ bs) = elim (next e b) [ none ↦ false | some e' ↦ decodes e' bs ]

unfoldable pub is_utf8 : List ℕ → Bool
unfolding decodes
is_utf8 bs = decodes lead bs

unfoldable pub from_utf8 : List ℕ → Option String
from_utf8 bs = if is_utf8 bs then some bs else none

pub from_utf8-eq-some :
    (bs : List ℕ) {s : String} → from_utf8 bs ≡ some s → (bs ≡ s) × (is_utf8 bs ≡ true)
unfolding from_utf8
from_utf8-eq-some bs h = ground arith

pub from_utf8-cases :
    (bs : List ℕ)
    → ((from_utf8 bs ≡ some bs) × (is_utf8 bs ≡ true))
      ⊎ ((from_utf8 bs ≡ none) × (is_utf8 bs ≡ false))
unfolding from_utf8
from_utf8-cases bs = elim (Bool-cases (is_utf8 bs)) [
  | inl e ↦ inl (rw e, e)
  | inr e ↦ inr (rw e, e)
]

pub is_utf8-from_utf8 : (bs : List ℕ) → is_utf8 bs ≡ true → from_utf8 bs ≡ some bs
unfolding from_utf8
is_utf8-from_utf8 bs h = ground arith

-- "é" in two bytes; a lone continuation byte; an overlong "/".
utf8_table :
    (is_utf8 (0xc3 ∷ 0xa9 ∷ 0x21 ∷ []) ≡ true)
    × (is_utf8 (0xa9 ∷ []) ≡ false)
    × (is_utf8 (0xc0 ∷ 0xaf ∷ []) ≡ false)
unfolding is_utf8
utf8_table = (refl, refl, refl)

next-ascii : (b : ℕ) → b < 128 → next lead b ≡ some lead
unfolding next
next-ascii b h = ground arith

pub is_utf8-ascii : (b : ℕ) → b < 128 → is_utf8 (b ∷ []) ≡ true
unfolding is_utf8
is_utf8-ascii b h =
    ap (λ (o : Option Expect). elim o as (λ _. Bool) [ none ↦ false | some e ↦ decodes e [] ])
      (next-ascii b h)

-- ===== src/Io/Scripted/Reader.antt =====
-- A reader that follows a script.
use deltasync.Base.{
  ℕ, zero, suc, ◌%◌, ◌≤◌, ◌<◌, ◌≡◌, refl, sym, ap, ◌∙◌, subst, List, [], ◌∷◌, ◌++◌, map, inl, inr,
  arith, Option, none, some, length, length-take, take, drop, min, leb, if◌then◌else◌, Bool-cases,
  tests,
}
use deltasync.Bytes.{IsByte, IsU64, All, All-append_split, be, be_read, be-be_read, be_read-IsU64}
use deltasync.Io.Calls.{Poll}
use deltasync.Io.Streams.{AsyncRead, IsPrompt, taken}
use deltasync.Io.Scripted.Event.{Event, give, wait, lose}

-- `raw` holds the bytes, modulo 256.
pub record Source : Type 0 where
  pub raw : List ℕ
  pub script : List Event

abbrev pub byte : ℕ → ℕ
byte b = b % 256

abbrev pub unread : Source → List ℕ
unread s = map byte s.raw

abbrev pub from : List ℕ → List Event → Source
from raw script = record { raw = raw; script = script }

abbrev pub read_event : Event → ℕ → List ℕ → List Event → Poll (List ℕ) × Source
read_event (give n) k raw es =
    (Poll.ready (take (min k (suc n)) (map byte raw)), from (drop (min k (suc n)) raw) es)
read_event wait k raw es = (Poll.pending, from raw es)
read_event lose k raw es = (Poll.failed, from raw es)

abbrev pub read_script : (Event → Event) → List Event → ℕ → List ℕ → Poll (List ℕ) × Source
read_script tame [] k raw = read_event (tame (give 255)) k raw []
read_script tame (e ∷ es) k raw = read_event (tame e) k raw es

abbrev pub read_exact : ℕ → Source → Option (List ℕ × Source)
read_exact n s =
    if leb n (length (unread s))
    then some (take n (unread s), from (drop n s.raw) s.script)
    else none

abbrev pub read_u8_raw : List ℕ → List Event → Option (ℕ × Source)
read_u8_raw [] es = none
read_u8_raw (b ∷ raw) es = some (byte b, from raw es)

abbrev pub read_u64 : Source → Option (ℕ × Source)
read_u64 s =
    if leb 8 (length (unread s))
    then some (be_read 0 (take 8 (unread s)), from (drop 8 s.raw) s.script)
    else none

pub bytes_lem : (raw : List ℕ) → All IsByte (map byte raw)
bytes_lem [] = tt
bytes_lem (b ∷ raw) = (omega arith, bytes_lem raw)

split_at : (k : ℕ) (raw : List ℕ) → map byte raw ≡ take k (map byte raw) ++ map byte (drop k raw)
split_at zero raw = refl
split_at (suc k) [] = refl
split_at (suc k) (b ∷ raw) = ap (◌∷◌ (byte b)) (split_at k raw)

nothing_taken : (k : ℕ) (xs : List ℕ) → 0 < k → take k xs ≡ [] → xs ≡ []
nothing_taken zero xs h e = absurd (omega arith)
nothing_taken (suc k) [] h e = refl
nothing_taken (suc k) (x ∷ xs) h e = cc

read_event_takes :
    (e : Event) (k : ℕ) (raw : List ℕ) (es : List Event)
    → let p = read_event e k raw es in map byte raw ≡ taken p.0 ++ unread p.1
read_event_takes (give n) k raw es = split_at (min k (suc n)) raw
read_event_takes wait k raw es = refl
read_event_takes lose k raw es = refl

read_event_fits :
    (e : Event) (k : ℕ) (raw : List ℕ) (es : List Event)
    → length (taken (read_event e k raw es).0) ≤ k
read_event_fits (give n) k raw es = omega (arith, length-take (min k (suc n)) (map byte raw))
read_event_fits wait k raw es = omega arith
read_event_fits lose k raw es = omega arith

read_event_eof :
    (e : Event) (k : ℕ) (raw : List ℕ) (es : List Event)
    → 0 < k
    → (read_event e k raw es).0 ≡ Poll.ready []
    → map byte raw ≡ []
read_event_eof (give n) k raw es h e =
    nothing_taken (min k (suc n)) (map byte raw) (omega arith) (cc)
read_event_eof wait k raw es h e = cc
read_event_eof lose k raw es h e = cc

module _ (tame : Event → Event) where
  abbrev pub read : ℕ → Source → Poll (List ℕ) × Source
  read k s = read_script tame s.script k s.raw

  read_takes_lem :
      (es : List Event) (k : ℕ) (raw : List ℕ)
      → let p = read_script tame es k raw in map byte raw ≡ taken p.0 ++ unread p.1
  read_takes_lem [] k raw = read_event_takes (tame (give 255)) k raw []
  read_takes_lem (e ∷ es) k raw = read_event_takes (tame e) k raw es

  read_fits_lem :
      (es : List Event) (k : ℕ) (raw : List ℕ) → length (taken (read_script tame es k raw).0) ≤ k
  read_fits_lem [] k raw = read_event_fits (tame (give 255)) k raw []
  read_fits_lem (e ∷ es) k raw = read_event_fits (tame e) k raw es

  read_eof_lem :
      (es : List Event) (k : ℕ) (raw : List ℕ)
      → 0 < k
      → (read_script tame es k raw).0 ≡ Poll.ready []
      → map byte raw ≡ []
  read_eof_lem [] k raw h e = read_event_eof (tame (give 255)) k raw [] h e
  read_eof_lem (e' ∷ es) k raw h e = read_event_eof (tame e') k raw es h e

pub read_takes_shut :
    (tame : Event → Event) (k : ℕ) (s : Source)
    → unread s ≡ taken (read tame k s).0 ++ unread (read tame k s).1
read_takes_shut tame k s = read_takes_lem tame s.script k s.raw

pub read_fits_shut :
    (tame : Event → Event) (k : ℕ) (s : Source) → length (taken (read tame k s).0) ≤ k
read_fits_shut tame k s = read_fits_lem tame s.script k s.raw

pub read_eof_shut :
    (tame : Event → Event) (k : ℕ) (s : Source)
    → 0 < k
    → (read tame k s).0 ≡ Poll.ready []
    → unread s ≡ []
read_eof_shut tame k s = read_eof_lem tame s.script k s.raw

pub read_exact_lem :
    (n : ℕ) (s : Source) (bs : List ℕ) (s' : Source)
    → read_exact n s ≡ some (bs, s')
    → (length bs ≡ n) × (unread s ≡ bs ++ unread s')
read_exact_lem n s bs s' e = elim (Bool-cases (leb n (length (unread s)))) [
  | inr short ↦ cc (rw short at e)
  | inl enough ↦
      let e' = rw enough at e in
      let same : take n (unread s) ≡ bs = cc e' in
      let state : from (drop n s.raw) s.script ≡ s' = cc e' in
      rw (← same, ← state) (omega (tests, length-take n (unread s), enough), split_at n s.raw)
]

pub read_u8_lem :
    (raw : List ℕ) (es : List Event) (b : ℕ) (s' : Source)
    → read_u8_raw raw es ≡ some (b, s')
    → map byte raw ≡ b ∷ unread s'
read_u8_lem [] es b s' e = cc
read_u8_lem (x ∷ raw) es b s' e =
    let same : byte x ≡ b = cc in let state : from raw es ≡ s' = cc in rw (← same, ← state)

pub read_u64_lem :
    (s : Source) (n : ℕ) (s' : Source)
    → read_u64 s ≡ some (n, s')
    → IsU64 n × (unread s ≡ be 8 n ++ unread s')
read_u64_lem s n s' e = elim (Bool-cases (leb 8 (length (unread s)))) [
  | inr short ↦ cc (rw short at e)
  | inl enough ↦
      let e' = rw enough at e in
      let same : be_read 0 (take 8 (unread s)) ≡ n = cc e' in
      let state : from (drop 8 s.raw) s.script ≡ s' = cc e' in
      let front = subst (All IsByte) (split_at 8 s.raw) (bytes_lem s.raw) in
      rw (← same, ← state)
        (
          be_read-IsU64 (take 8 (unread s)),
          split_at 8 s.raw
              ∙ ap (λ (xs : List ℕ). xs ++ map byte (drop 8 s.raw))
                  (sym (
                    be-be_read (take 8 (unread s)) (omega (tests, length-take 8 (unread s), enough))
                      (All-append_split IsByte (take 8 (unread s)) (map byte (drop 8 s.raw))
                        front).0)),
        )
]

-- A reader on a script; `tame` may change what the script says.
abbrev pub reader : (Event → Event) → AsyncRead
reader tame = record {
  Source = Source;
  unread = unread;
  read = read tame;
  read_exact = read_exact;
  read_u8 = λ s. read_u8_raw s.raw s.script;
  read_u64 = read_u64;
  unread_bytes = λ s. bytes_lem s.raw;
  read_takes = λ k s. read_takes_shut tame k s;
  read_fits = λ k s. read_fits_shut tame k s;
  read_eof = λ k s. read_eof_shut tame k s;
  read_exact_takes = read_exact_lem;
  read_u8_takes = λ s. read_u8_lem s.raw s.script;
  read_u64_takes = read_u64_lem;
}

-- As the script says.
abbrev pub scripted : AsyncRead
scripted = reader (λ e. e)

-- Whatever the script says, some bytes.
abbrev pub prompt : AsyncRead
prompt = reader (λ e. give 2)

pub prompt-IsPrompt : IsPrompt prompt
prompt-IsPrompt k s = at s.script k s.raw
  where
    at :
        (es : List Event) (k' : ℕ) (raw : List ℕ)
        → (bs : List ℕ) × ((read_script (λ e. give 2) es k' raw).0 ≡ Poll.ready bs)
    at [] k' raw = (_, refl)
    at (e ∷ es) k' raw = (_, refl)

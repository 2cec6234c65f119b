-- ===== src/Io/Scripted/Writer.antt =====
-- A writer that follows a script.
use deltasync.Base.{
  ℕ, suc, ◌≤◌, ◌≡◌, ◌≢◌, refl, sym, ap, List, [], ◌∷◌, ◌++◌, append-nil, arith, Option, some,
  length, take, min,
}
use deltasync.Bytes.{be}
use deltasync.Io.Calls.{Poll}
use deltasync.Io.Streams.{AsyncWrite, IsOpen, accepted}
use deltasync.Io.Scripted.Event.{Event, give, wait, lose}

pub record Sink : Type 0 where
  pub out : List ℕ
  pub script : List Event

abbrev pub write_event : Event → List ℕ → List ℕ → List Event → Poll ℕ × Sink
write_event (give n) bs out es =
    let k = min (suc n) (length bs) in
    (Poll.ready k, record { out = out ++ take k bs; script = es })
write_event wait bs out es = (Poll.pending, record { out = out; script = es })
write_event lose bs out es = (Poll.failed, record { out = out; script = es })

abbrev pub write_script : List Event → List ℕ → List ℕ → Poll ℕ × Sink
write_script [] bs out = write_event (give 255) bs out []
write_script (e ∷ es) bs out = write_event e bs out es

write_event_takes :
    (e : Event) (bs out : List ℕ) (es : List Event)
    → let p = write_event e bs out es in p.1.out ≡ out ++ take (accepted p.0) bs
write_event_takes (give n) bs out es = refl
write_event_takes wait bs out es = sym (append-nil out)
write_event_takes lose bs out es = sym (append-nil out)

pub write_takes_lem :
    (es : List Event) (bs out : List ℕ)
    → let p = write_script es bs out in p.1.out ≡ out ++ take (accepted p.0) bs
write_takes_lem [] bs out = write_event_takes (give 255) bs out []
write_takes_lem (e ∷ es) bs out = write_event_takes e bs out es

write_event_fits :
    (e : Event) (bs out : List ℕ) (es : List Event)
    → accepted (write_event e bs out es).0 ≤ length bs
write_event_fits (give n) bs out es = omega arith
write_event_fits wait bs out es = omega arith
write_event_fits lose bs out es = omega arith

pub write_fits_lem :
    (es : List Event) (bs out : List ℕ) → accepted (write_script es bs out).0 ≤ length bs
write_fits_lem [] bs out = write_event_fits (give 255) bs out []
write_fits_lem (e ∷ es) bs out = write_event_fits e bs out es

abbrev pub append_out : List ℕ → Sink → Option Sink
append_out bs s = some (record s { out = s.out ++ bs })

pub append_out_lem : (bs : List ℕ) (s s' : Sink) → append_out bs s ≡ some s' → s'.out ≡ s.out ++ bs
append_out_lem bs s s' e =
    let state : record s { out = s.out ++ bs } ≡ s' = cc in ap (λ (t : Sink). t.out) (sym state)

abbrev pub writer : AsyncWrite
writer = record {
  Sink = Sink;
  written = λ s. s.out;
  write = λ bs s. write_script s.script bs s.out;
  write_all = append_out;
  write_u8 = λ b. append_out (b ∷ []);
  write_u64 = λ n. append_out (be 8 n);
  write_takes = λ bs s. write_takes_lem s.script bs s.out;
  write_fits = λ bs s. write_fits_lem s.script bs s.out;
  write_all_lem = append_out_lem;
  write_u8_lem = λ b. append_out_lem (b ∷ []);
  write_u64_lem = λ n. append_out_lem (be 8 n);
}

pub writer-IsOpen : IsOpen writer
writer-IsOpen b bs s = at s.script
  where
    event : (e : Event) (es : List Event) → (write_event e (b ∷ bs) s.out es).0 ≢ Poll.ready 0
    event (give n) es h = let z : min (suc n) (suc (length bs)) ≡ 0 = cc in omega (arith, z)
    event wait es h = cc
    event lose es h = cc

    at : (es : List Event) → (write_script es (b ∷ bs) s.out).0 ≢ Poll.ready 0
    at [] = event (give 255) []
    at (e ∷ es) = event e es

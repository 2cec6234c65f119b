-- ===== src/FileSystem/Disk.antt =====
-- A file system that holds its files in memory, for the examples.
use deltasync.Base.{
  ℕ, ◌≡◌, ◌≢◌, refl, sym, ap, List, [], inl, inr, Option, none, some, some_injective, length,
  if◌then◌else◌, Bool-cases,
}
use deltasync.Bytes.{String}
use deltasync.Common.Buffer.{resize}
use deltasync.FileSystem.{FileSystem, Metadata}
use deltasync.Server.Request.{bytes_eq}
use deltasync.Server.Request.Secret.{bytes_eq_sound, bytes_eq_self}

abbrev pub Files : Type 0
Files = String → Option (List ℕ)

abbrev pub stat : Option (List ℕ) → Metadata
stat none = Metadata.not_found
stat (some bs) = Metadata.found (length bs)

abbrev pub size_of : Option (List ℕ) → Option ℕ
size_of none = none
size_of (some bs) = some (length bs)

unfoldable pub put : String → List ℕ → Files → Files
put p bs fs q = if bytes_eq q p then some bs else fs q

pub put-same : (p : String) (bs : List ℕ) (fs : Files) → put p bs fs p ≡ some bs
unfolding put
put-same p bs fs = rw (bytes_eq_self p)

pub put-other : (p : String) (bs : List ℕ) (fs : Files) (q : String) → q ≢ p → put p bs fs q ≡ fs q
unfolding put
put-other p bs fs q ne = elim (Bool-cases (bytes_eq q p)) [
  | inl equal ↦ absurd (ne (bytes_eq_sound q p equal))
  | inr other ↦ rw other
]

abbrev pub resized : String → ℕ → Files → Option (List ℕ) → Option Files
resized p n fs none = none
resized p n fs (some bs) = some (put p (resize n bs) fs)

abbrev pub opened : Files → Option (List ℕ) → Option Files
opened fs none = none
opened fs (some bs) = some fs

pub opened-same : (fs fs' : Files) (o : Option (List ℕ)) → opened fs o ≡ some fs' → fs ≡ fs'
opened-same fs fs' none h = cc
opened-same fs fs' (some bs) h = some_injective h

pub resized_lem :
    (p : String) (n : ℕ) (fs fs' : Files) (o : Option (List ℕ)) (bs : List ℕ)
    → resized p n fs o ≡ some fs'
    → o ≡ some bs
    → fs' p ≡ some (resize n bs)
resized_lem p n fs fs' none bs h e = cc
resized_lem p n fs fs' (some old) bs h e =
    rw (← some_injective h, ← some_injective e) (put-same p (resize n old) fs)

pub resized-other :
    (p : String) (n : ℕ) (fs fs' : Files) (o : Option (List ℕ))
    → resized p n fs o ≡ some fs'
    → (q : String) → q ≢ p
    → fs' q ≡ fs q
resized-other p n fs fs' none h q ne = cc
resized-other p n fs fs' (some old) h q ne =
    rw (← some_injective h) (put-other p (resize n old) fs q ne)

pub stat-found :
    (o : Option (List ℕ)) (n : ℕ)
    → stat o ≡ Metadata.found n
    → (bs : List ℕ) × (o ≡ some bs) × (length bs ≡ n)
stat-found none n h = cc
stat-found (some bs) n h = (bs, refl, cc)

pub stat-not_found : (o : Option (List ℕ)) → stat o ≡ Metadata.not_found → o ≡ none
stat-not_found none h = refl
stat-not_found (some bs) h = cc

pub size_of-some :
    (o : Option (List ℕ)) (n : ℕ)
    → size_of o ≡ some n
    → (bs : List ℕ) × (o ≡ some bs) × (length bs ≡ n)
size_of-some none n h = cc
size_of-some (some bs) n h = (bs, refl, cc)

abbrev pub disk : FileSystem
disk = record {
  Fs = Files;
  contents = λ fs p. fs p;
  metadata = λ p fs. stat (fs p);
  open_write = λ p fs. opened fs (fs p);
  set_len = λ p n fs. resized p n fs (fs p);
  create = λ p fs. some (put p [] fs);
  file_size = λ p fs. size_of (fs p);
  rewind = λ p fs. some tt;
  metadata_found = λ p fs n h. stat-found (fs p) n h;
  metadata_not_found = λ p fs h. stat-not_found (fs p) h;
  open_write_keeps = λ p fs fs' h q. ap (λ (f : Files). f q) (sym (opened-same fs fs' (fs p) h));
  set_len_lem = λ p n fs fs' bs h e. resized_lem p n fs fs' (fs p) bs h e;
  set_len_keeps = λ p n fs fs' h. resized-other p n fs fs' (fs p) h;
  create_lem = λ p fs fs' h. rw (← some_injective h) (put-same p [] fs);
  create_keeps = λ p fs fs' h q ne. rw (← some_injective h) (put-other p [] fs q ne);
  file_size_lem = λ p fs n h. size_of-some (fs p) n h;
}

-- ===== src/Client/Loop/Hearing.antt =====
-- What the event loop of src/client.rs has read: the hashes of the server's blocks, in order.
use deltasync.Base.{
  ℕ, zero, suc, ◌+◌, ◌≤◌, ◌≡◌, refl, sym, ap, subst, ◌∙◌, List, [], ◌∷◌, ◌++◌, true, length,
  length-append, arith, inl, inr, ◌⊎◌,
}
use deltasync.Bytes.{String, be, length-be, is_utf8}
use deltasync.Io.{AsyncRead, Error, Turn, Outcome}
use deltasync.Common.Frame.{frame}
use deltasync.Common.ReadString
use deltasync.Common.ReadString.{ReadString, read_on}
use deltasync.Common.ReadString.Payload.{consumed, IsValid, Ensures}
use deltasync.Common.ReadString.Resume.{read_on-Follows}
use deltasync.Common.ReadString.Progress.{read_on-Delivers}

module _ (remote : ℕ → String) where
  -- `n` hashes from block `k` on, and their frames on the wire.
  unfoldable pub coming : ℕ → ℕ → List String
  coming k zero = []
  coming k (suc n) = remote k ∷ coming (suc k) n

  unfoldable pub incoming : ℕ → ℕ → List ℕ
  incoming k zero = []
  incoming k (suc m) = frame (remote k) ++ incoming (suc k) m

  pub coming-append : (k n : ℕ) → coming k n ++ remote (k + n) ∷ [] ≡ coming k (suc n)
  unfolding coming
  coming-append k zero = ap (λ (x : ℕ). remote x ∷ []) (omega arith)
  coming-append k (suc n) =
      ap (λ (x : ℕ). remote k ∷ (coming (suc k) n ++ remote x ∷ [])) (omega arith)
      ∙ ap (λ (xs : List String). remote k ∷ xs) (coming-append (suc k) n)

module _ (r : AsyncRead) (remote : ℕ → String) where
  open r use {Source, unread}

  -- The object is within the frames of the hashes from block `k` on, `m` of them.
  abbrev pub IsHearing : ReadString → Source → ℕ → ℕ → Type 0
  IsHearing me io k m =
      IsValid me × (me.max_len ≡ 256) × (consumed me ++ unread io ≡ incoming remote k m)

  -- A poll returns the next hash; or it is dropped and nothing is lost; or the stream is over.
  abbrev pub Hears : ℕ → ℕ → Turn ReadString Source String → Type 0
  Hears k m t =
      ((m' : ℕ) × (t.outcome ≡ Outcome.done (remote k)) × IsHearing t.self t.stream (suc k) m')
      ⊎ ((t.outcome ≡ Outcome.cancelled) × IsHearing t.self t.stream k m)
      ⊎ ((e : Error) × (t.outcome ≡ Outcome.bail e))

  at_end :
      (k : ℕ) (o : Outcome String) (me : ReadString) (io : Source)
      → Ensures r 256 [] o me io
      → Hears k 0 (record { outcome = o; self = me; stream = io })
  unfolding incoming
  at_end k (Outcome.done s) me io (fresh, total, valid, short) = absurd (
      omega (
        arith,
        ap length total,
        length-append (frame s) (unread io),
        length-append (be 8 (length s)) s,
        length-be 8 (length s),
      ))
  at_end k Outcome.cancelled me io (v, m, total) = inr (inl (refl, (v, m, sym total)))
  at_end k (Outcome.bail e) me io h = inr (inr (e, refl))
  at_end k Outcome.stuck me io h = absurd h

  pub new-IsValid : IsValid (ReadString.new 256)
  new-IsValid = record { place = inl (omega arith); fits = omega arith; bytes = tt }

  fresh-IsHearing :
      (me : ReadString) (io : Source) (k m : ℕ)
      → me ≡ ReadString.new 256
      → unread io ≡ incoming remote k m
      → IsHearing me io k m
  fresh-IsHearing me io k m e h = rw e (new-IsValid, refl, h)

  pub read_on-Hears :
      ((j : ℕ) → (is_utf8 (remote j) ≡ true) × (length (remote j) ≤ 256))
      → (k m : ℕ) (me : ReadString) (io : Source) → IsHearing me io k m
      → Hears k m (read_on r me io)
  unfolding incoming
  read_on-Hears proper k zero me io (v, max, total) = at_end k _ _ _ (
      subst (λ (x : ℕ). let t = read_on r me io in Ensures r x [] t.outcome t.self t.stream) max
        (subst
          (λ (xs : List ℕ).
            let t = read_on r me io in Ensures r me.max_len xs t.outcome t.self t.stream)
          total (read_on-Follows r me io v)))
  read_on-Hears proper k (suc m) me io (v, max, total) =
      elim (read_on-Delivers r me io (remote k) (incoming remote (suc k) m) v total (proper k).0
        (rw max (proper k).1)) [
          | inl (o, fresh, rest) ↦
              inl (m, o, fresh-IsHearing _ _ (suc k) m (fresh ∙ ap ReadString.new max) rest)
          | inr (inl (o, v', max', rest)) ↦ inr (inl (o, (v', max' ∙ max, rest)))
          | inr (inr o) ↦ inr (inr (Error.io, o))
        ]

-- ===== src/Main/Paths.antt =====
-- `absolute_path` of src/utils.rs.
use deltasync.Base.{
  ◌≡◌, sym, ap, ◌∙◌, Bool, true, Option, some, if◌then◌else◌, Bool-cases, inl, inr, Option-cases,
}
use deltasync.Bytes.{String}
use deltasync.Io.{Result, ◌>>=◌, or_io}

-- What is taken of `std::path`, `std::env` and the crate path_clean. A path is its bytes.
pub record PathOps : Type 0 where
  pub is_absolute : String → Bool
  pub join : String → String → String
  pub clean : String → String
  pub current_dir : Option String
  pub current_dir_absolute : (d : String) → current_dir ≡ some d → is_absolute d ≡ true
  pub join_absolute : (d p : String) → is_absolute d ≡ true → is_absolute (join d p) ≡ true
  pub clean_absolute : (p : String) → is_absolute p ≡ true → is_absolute (clean p) ≡ true
  pub clean_idem : (p : String) → clean (clean p) ≡ clean p

module _ (ops : PathOps) where
  open ops use {
    is_absolute, join, clean, current_dir, current_dir_absolute, join_absolute, clean_absolute,
    clean_idem,
  }

  -- `std::env::current_dir()?.join(path)`
  unfoldable pub in_current_dir : String → Result String
  in_current_dir path = do dir ← or_io current_dir; Result.ok (join dir path)

  unfoldable pub absolute_path : String → Result String
  absolute_path path = do
    absolute ← if is_absolute path then Result.ok path else in_current_dir path
    Result.ok (clean absolute)

  ok_injective : {x y : String} → ◌≡◌ {A = Result String} (Result.ok x) (Result.ok y) → x ≡ y
  ok_injective e = cc

  -- A path that is absolute and clean stays as it is.
  stays : (q : String) → is_absolute q ≡ true → clean q ≡ q → absolute_path q ≡ Result.ok q
  unfolding absolute_path
  stays q yes_ same = rw yes_ (ap (λ (x : String). Result.ok x) same)

  -- The result is an absolute path, cleaned.
  cleaned :
      (path q : String)
      → absolute_path path ≡ Result.ok q
      → (a : String) × (is_absolute a ≡ true) × (clean a ≡ q)
  unfolding absolute_path in_current_dir
  cleaned path q e = elim (Bool-cases (is_absolute path)) [
    | inl absolute ↦ (path, absolute, ok_injective (rw absolute at e))
    | inr relative ↦ elim (Option-cases current_dir) [
      | inl failed ↦ cc (rw (relative, failed) at e)
      | inr (dir, found) ↦ (
        join dir path,
        join_absolute dir path (current_dir_absolute dir found),
        ok_injective (rw (relative, found) at e),
      )
    ]
  ]

  -- A path that `absolute_path` returns is absolute, and it is returned as it is for itself.
  pub absolute_path-absolute :
      (path q : String)
      → absolute_path path ≡ Result.ok q
      → (is_absolute q ≡ true) × (absolute_path q ≡ Result.ok q)
  absolute_path-absolute path q e =
      let (a, absolute, same) = cleaned path q e in
      let absolute' = sym (ap is_absolute same) ∙ clean_absolute a absolute in
      (absolute', stays q absolute' (sym (ap clean same) ∙ clean_idem a ∙ same))

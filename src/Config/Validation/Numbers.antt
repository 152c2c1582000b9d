-- ===== src/Config/Validation/Numbers.antt =====
-- tracing/config/config_validation.go: what the checks of numbers ask.
use autopatch.Common.{
  ℕ, zero, suc, ◌+◌, ◌≡◌, refl, ◌↔◌, Bool, false, ◌||◌, List, [], ◌∷◌, All, if◌then◌else◌, arith,
}
use autopatch.Common.Int.{ℤ, pos, negsuc, ◌≤ℤ◌}
use autopatch.Common.Text.{codes}
use autopatch.Config.Result.{
  Field, named, flip_byte_at, positive, non_negative, ratio, Warning, add_error, add_warning, range,
  many_mutations, no_flip_bytes, long_strings, ValidationResult,
}
use autopatch.Config.Validation.{
  is_negative, not_positive, above, validate_max_mutations, validate_string_mutation_config,
  check_flip_bytes, flip_bytes_or_warning, validate_ratio,
}
use autopatch.Config.Validation.Checks.{
  Checks, nothing-Checks, warning-Checks, then-Checks, Checks-as, error_or_warning-Checks,
  error_if-Checks,
}

pub positive_iff : (z : ℤ) → (not_positive z ≡ false) ↔ (pos 1 ≤ℤ z)
positive_iff (pos zero) = ground arith
positive_iff (pos (suc n)) = (λ e. omega arith, λ h. refl)
positive_iff (negsuc n) = ground arith

pub non_negative_iff : (z : ℤ) → (is_negative z ≡ false) ↔ (pos 0 ≤ℤ z)
non_negative_iff (pos n) = (λ e. omega arith, λ h. refl)
non_negative_iff (negsuc n) = ground arith

-- A byte position of an address, counted from 1.
abbrev pub IsPosition : ℤ → Type 0
IsPosition b = (pos 1 ≤ℤ b) × (b ≤ℤ pos 20)

pub IsPosition-iff : (b : ℤ) → ((not_positive b || above 20 b) ≡ false) ↔ IsPosition b
IsPosition-iff (pos zero) = ground arith
IsPosition-iff (pos (suc n)) = ground arith
IsPosition-iff (negsuc n) = ground arith

-- The checks of one number: an error, or at most a warning.
pub positive-Checks :
    (z : ℤ) (b : Bool) (field : Field) (w : Warning)
    → Checks
        (λ (r : ValidationResult).
          if not_positive z then add_error field positive r else if b then add_warning w r else r)
        (pos 1 ≤ℤ z)
positive-Checks z b field w =
    Checks-as (positive_iff z) (error_or_warning-Checks (not_positive z) b field positive w)

pub non_negative-Checks :
    (z : ℤ) (b : Bool) (field : Field) (w : Warning)
    → Checks
        (λ (r : ValidationResult).
          if is_negative z
          then add_error field non_negative r
          else if b
          then add_warning w r
          else r)
        (pos 0 ≤ℤ z)
non_negative-Checks z b field w =
    Checks-as (non_negative_iff z) (error_or_warning-Checks (is_negative z) b field non_negative w)

pub max_mutations-Checks : (z : ℤ) → Checks (validate_max_mutations z) (pos 1 ≤ℤ z)
unfolding validate_max_mutations
max_mutations-Checks z =
    positive-Checks z (above 100000 z) (named (codes "maxMutations")) many_mutations

pub string-Checks : (z : ℤ) → Checks (validate_string_mutation_config z) (pos 1 ≤ℤ z)
unfolding validate_string_mutation_config
string-Checks z =
    positive-Checks z (above 1000000 z) (named (codes "stringMutation.maxLength")) long_strings

pub flip_bytes-Checks : (i : ℕ) (bs : List ℤ) → Checks (check_flip_bytes i bs) (All IsPosition bs)
unfolding check_flip_bytes
flip_bytes-Checks i [] = nothing-Checks
flip_bytes-Checks i (b ∷ bs) =
    then-Checks
      (Checks-as (IsPosition-iff b)
        (error_if-Checks (not_positive b || above 20 b) (flip_byte_at i) range))
      (flip_bytes-Checks (i + 1) bs)

pub flip_bytes_or_warning-Checks :
    (bs : List ℤ) → Checks (flip_bytes_or_warning bs) (All IsPosition bs)
flip_bytes_or_warning-Checks [] = warning-Checks no_flip_bytes
flip_bytes_or_warning-Checks (b ∷ bs) = flip_bytes-Checks 0 (b ∷ bs)

-- A float64 between 0 and 1.
module _ {F : Type 0} (below_zero above_one : F → Bool) where
  abbrev pub IsRatio : F → Type 0
  IsRatio x = (below_zero x ≡ false) × (above_one x ≡ false)

  pub IsRatio-Checks :
      (field : List ℕ) (x : F) → Checks (validate_ratio below_zero above_one field x) (IsRatio x)
  unfolding validate_ratio
  IsRatio-Checks field x =
      let e : ((below_zero x || above_one x) ≡ false) ↔ IsRatio x = ground arith in
      Checks-as e (error_if-Checks (below_zero x || above_one x) (named field) ratio)

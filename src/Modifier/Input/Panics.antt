-- ===== src/Modifier/Input/Panics.antt =====
-- tracing/mutation/modifier.go, modifyInputDataBasicStrategy: call data without a whole word.
use autopatch.Common.{
  ℕ, ◌-◌, ◌/◌, ◌≡◌, refl, ◌∙◌, Bool, true, false, ◌&&◌, inl, inr, List, length, arith, ltb, leb,
  ◌==◌, if◌then◌else◌, Bool-cases,
}
use autopatch.Modifier.Outcome.{Outcome, returned, failed, panics}
use autopatch.Modifier.Input.{
  Strategy, address_known_substitution, address_nearby_mutation, uint256_boundary_values,
  uint256_step_increment, uint256_multiplier, bool_flip, bytes_pattern_fill, string_length_mutation,
  default_strategy, strategy_of, with_param, mutate_uint_boundary, mutate_uint_step,
  mutate_uint_multiplier, mutate_bool_flip, mutate_byte_patterns, mutate_string_length,
  put_boundary, put_stepped, put_multiple, flip_bool, fill_pattern, put_length,
  modify_input_data_default, run_strategy, modify_input_data_basic_strategy,
}

abbrev pub is_panic {ℓ} : {A : Type ℓ} → Outcome A → Bool
is_panic (returned a) = false
is_panic failed = false
is_panic panics = true

-- The strategies that choose one parameter.
abbrev pub chooses_param : Strategy → Bool
chooses_param address_known_substitution = false
chooses_param address_nearby_mutation = false
chooses_param default_strategy = false
chooses_param _ = true

with_param-panics :
    (bs : List ℕ) (n : ℕ) (change : ℕ → List ℕ)
    → is_panic (with_param bs n change) ≡ ((length bs - 4) / 32 == 0)
unfolding with_param
with_param-panics bs n change = elim (Bool-cases ((length bs - 4) / 32 == 0)) [
  | inl e ↦ rw e refl
  | inr e ↦ rw e refl
]

default-panics :
    (bs : List ℕ) (variant : ℕ) → is_panic (modify_input_data_default bs variant) ≡ false
unfolding modify_input_data_default
default-panics bs variant = elim (Bool-cases (ltb (length bs) 4)) [
  | inl e ↦ rw e refl
  | inr e ↦ rw e refl
]

run_strategy-panics :
    (s : Strategy) (bs : List ℕ) (variant : ℕ)
    → is_panic (run_strategy s bs variant) ≡ (chooses_param s && (length bs - 4) / 32 == 0)
unfolding run_strategy mutate_uint_boundary mutate_uint_step mutate_uint_multiplier mutate_bool_flip
    mutate_byte_patterns mutate_string_length
run_strategy-panics address_known_substitution bs variant = refl
run_strategy-panics address_nearby_mutation bs variant = refl
run_strategy-panics uint256_boundary_values bs variant =
    with_param-panics bs (variant / 2) (put_boundary bs variant)
run_strategy-panics uint256_step_increment bs variant =
    with_param-panics bs (variant / 8) (put_stepped bs variant)
run_strategy-panics uint256_multiplier bs variant =
    with_param-panics bs (variant / 4) (put_multiple bs variant)
run_strategy-panics bool_flip bs variant = with_param-panics bs variant (flip_bool bs)
run_strategy-panics bytes_pattern_fill bs variant =
    with_param-panics bs (variant / 8) (fill_pattern bs variant)
run_strategy-panics string_length_mutation bs variant =
    with_param-panics bs variant (put_length bs variant)
run_strategy-panics default_strategy bs variant = default-panics bs variant

and_comm : (a b : Bool) → (a && b) ≡ (b && a)
and_comm true true = refl
and_comm true false = refl
and_comm false true = refl
and_comm false false = refl

guard_panics :
    (n : ℕ) (chooses : Bool) (o : Outcome (List ℕ))
    → is_panic o ≡ (chooses && (n - 4) / 32 == 0)
    → is_panic (if ltb n 4 then failed else o) ≡ (leb 4 n && ltb n 36 && chooses)
guard_panics n chooses o h = elim (Bool-cases (ltb n 4)) [
  | inl short ↦ let no : leb 4 n ≡ false = ground arith in rw (short, no) refl
  | inr long ↦
      let yes : leb 4 n ≡ true = ground arith in
      let whole : ((n - 4) / 32 == 0) ≡ ltb n 36 = ground arith in
      rw (long, yes) (h ∙ rw whole (and_comm chooses (ltb n 36)))
]

-- A basic strategy panics exactly on call data of 4 to 35 bytes under one of the six strategies that
-- choose a parameter, for they divide by the number of whole words. Every other call returns, the call
-- data or an error.
pub basic_panics_iff :
    (bs strategy : List ℕ) (variant : ℕ)
    → is_panic (modify_input_data_basic_strategy bs strategy variant)
      ≡ (leb 4 (length bs) && ltb (length bs) 36 && chooses_param (strategy_of strategy))
unfolding modify_input_data_basic_strategy
basic_panics_iff bs strategy variant =
    guard_panics (length bs) (chooses_param (strategy_of strategy))
      (run_strategy (strategy_of strategy) bs variant)
      (run_strategy-panics (strategy_of strategy) bs variant)

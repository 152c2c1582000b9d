-- ===== src/Mutation/Numbers/Ranges.antt =====
-- tracing/mutation/type_aware_mutator.go: mutated numbers stay in the range of their type.
use native.Mathlib.Nat.{mod-lt}
use autopatch.Common.{ℕ, ◌*◌, ◌%◌, ◌^◌, ◌<◌, arith, Bool, true, false, if◌then◌else◌}
use autopatch.Common.Int.{ℤ, pos, negsuc, ◌*ℤ◌, ◌≤ℤ◌}
use autopatch.Mutation.Pick.{pick-All}
use autopatch.Mutation.Numbers.{
  add_step_to_big_int, multiply_big_int, set_boundary_value, set_bit_patterns, set_special_values,
  mutate_big_uint, mutate_uint_bits, mutate_int_bits, is_zero, at_least_zero,
}

below-mod : (a n : ℕ) → 0 < n → a % n < n
below-mod a n h = mod-lt a h

-- A mutated unsigned number of w bits has w bits.
pub mutate_uint_bits-lt :
    (w value variant : ℕ) → 0 < 2 ^ w → value < 2 ^ w → mutate_uint_bits w value variant < 2 ^ w
unfolding mutate_uint_bits
mutate_uint_bits-lt w value variant h lt =
    pick-All (λ v. v < 2 ^ w) _ _ variant
      (mod-lt _ h, (mod-lt _ h, (h, (omega arith, (omega arith, (mod-lt _ h, (omega arith, tt)))))))

-- A mutated bit pattern of a signed number stays one of the same width.
pub mutate_int_bits-lt :
    (top value variant : ℕ)
    → 0 < top
    → value < 2 * top
    → mutate_int_bits top value variant < 2 * top
unfolding mutate_int_bits
mutate_int_bits-lt top value variant h lt =
    pick-All (λ v. v < 2 * top) _ _ variant
      (
        mod-lt _ (omega arith),
        (
          mod-lt _ (omega arith),
          (omega arith, (omega arith, (omega arith, (mod-lt _ (omega arith), (ground arith, tt))))),
        ),
      )

abbrev pub IsNonneg : ℤ → Type 0
IsNonneg z = pos 0 ≤ℤ z

at_least_zero-IsNonneg : (r : ℤ) → IsNonneg (at_least_zero r)
unfolding at_least_zero
at_least_zero-IsNonneg r = ground arith

times-IsNonneg :
    (value : ℤ) (n : ℕ)
    → IsNonneg value
    → IsNonneg (if is_zero (pos n) then pos 0 else value *ℤ pos n)
unfolding is_zero ◌*ℤ◌
times-IsNonneg (pos v) n h = ground arith
times-IsNonneg (negsuc v) n h = absurd (omega arith)

if-IsNonneg : (b : Bool) (x y : ℤ) → IsNonneg x → IsNonneg y → IsNonneg (if b then x else y)
if-IsNonneg true x y h k = h
if-IsNonneg false x y h k = k

add_step-IsNonneg : (value : ℤ) (variant : ℕ) → IsNonneg (add_step_to_big_int value variant)
unfolding add_step_to_big_int
add_step-IsNonneg value variant = at_least_zero-IsNonneg _

multiply-IsNonneg :
    (value : ℤ) (variant : ℕ) → IsNonneg value → IsNonneg (multiply_big_int value variant)
unfolding multiply_big_int
multiply-IsNonneg value variant h =
    pick-All (λ m. IsNonneg (if is_zero m then pos 0 else value *ℤ m)) _ _ variant
      (times-IsNonneg value 2 h, (times-IsNonneg value 10 h, (times-IsNonneg value 0 h, tt)))

special-IsNonneg : (value : ℤ) (variant : ℕ) → IsNonneg (set_special_values value variant)
unfolding set_special_values
special-IsNonneg value variant =
    if-IsNonneg (is_zero value) _ _ (omega arith) (pick-All IsNonneg _ _ variant (omega arith))

-- An unsigned number of unbounded size never becomes negative.
pub mutate_big_uint-IsNonneg :
    (value : ℤ) (variant : ℕ) → IsNonneg value → IsNonneg (mutate_big_uint value variant)
unfolding mutate_big_uint set_boundary_value set_bit_patterns
mutate_big_uint-IsNonneg value variant h = pick-All IsNonneg _ _ variant (
  add_step-IsNonneg value variant,
  (
    multiply-IsNonneg value variant h,
    (
      pick-All IsNonneg _ _ variant (omega arith),
      (pick-All IsNonneg _ _ variant (omega arith), (special-IsNonneg value variant, tt)),
    ),
  ),
)

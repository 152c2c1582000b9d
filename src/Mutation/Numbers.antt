-- ===== src/Mutation/Numbers.antt =====
-- tracing/mutation/type_aware_mutator.go: the mutations of numbers and truth values.
pub mod Ranges
use autopatch.Common.{
  ℕ, ◌+◌, ◌-◌, ◌*◌, ◌/◌, ◌%◌, ◌^◌, Bool, true, false, not, List, [], ◌∷◌, ltb, if◌then◌else◌, ◌==◌,
}
use autopatch.Common.Int.{ℤ, pos, negsuc, ◌+ℤ◌, ◌-ℤ◌, ◌*ℤ◌, ltb_ℤ}
use autopatch.Mutation.Pick.{pick}

-- "Ensure non-negative".
unfoldable pub at_least_zero : ℤ → ℤ
at_least_zero result = if ltb_ℤ result (pos 0) then pos 0 else result

-- A strategy that is chosen and run is a pick of the results: the strategies have no effect.
unfoldable pub add_step_to_big_int : ℤ → ℕ → ℤ
add_step_to_big_int value variant = at_least_zero (
    value
    +ℤ pick (pos 1)
        (pos 10 ∷ pos 100 ∷ pos 1000 ∷ negsuc 0 ∷ negsuc 9 ∷ negsuc 99 ∷ negsuc 999 ∷ []) variant)

unfoldable pub is_zero : ℤ → Bool
is_zero (pos n) = n == 0
is_zero (negsuc n) = false

unfoldable pub multiply_big_int : ℤ → ℕ → ℤ
unfolding is_zero
multiply_big_int value variant =
    let multiplier = pick (pos 2) (pos 10 ∷ pos 0 ∷ []) variant in
    if is_zero multiplier then pos 0 else value *ℤ multiplier

unfoldable pub set_boundary_value : ℤ → ℕ → ℤ
set_boundary_value value variant =
    pick (pos 0) (pos 1 ∷ pos 255 ∷ pos 65535 ∷ pos 4294967295 ∷ []) variant

unfoldable pub set_bit_patterns : ℤ → ℕ → ℤ
set_bit_patterns value variant =
    pick (pos 0xffffffff) (pos 0xaaaaaaaa ∷ pos 0x55555555 ∷ []) variant

unfoldable pub set_special_values : ℤ → ℕ → ℤ
unfolding is_zero
set_special_values value variant =
    if is_zero value
    then pos 1
    else pick (pos 1) (pos 2 ∷ pos 4 ∷ pos 8 ∷ pos 16 ∷ pos 32 ∷ pos 64 ∷ pos 128 ∷ pos 256 ∷ [])
        variant

unfoldable pub mutate_big_uint : ℤ → ℕ → ℤ
mutate_big_uint value variant =
    pick (add_step_to_big_int value variant)
      (multiply_big_int value variant
        ∷ set_boundary_value value variant
        ∷ set_bit_patterns value variant
        ∷ set_special_values value variant
        ∷ [])
      variant

-- mutateUint8, mutateUint16, mutateUint32 and mutateUint64 at w = 8, 16, 32, 64. The XOR with all
-- ones is 2^w - 1 - value.
unfoldable pub mutate_uint_bits : ℕ → ℕ → ℕ → ℕ
mutate_uint_bits w value variant =
    pick ((value + 1) % 2 ^ w)
      ((value + (2 ^ w - 1)) % 2 ^ w
        ∷ 0
        ∷ (2 ^ w - 1)
        ∷ (2 ^ w - 1 - value)
        ∷ value * 2 % 2 ^ w
        ∷ value / 2
        ∷ [])
      variant

-- mutateInt8 and so on, on the bit pattern of the number; `top` is 2^(w - 1). The XOR flips the bits
-- below the sign.
unfoldable pub mutate_int_bits : ℕ → ℕ → ℕ → ℕ
mutate_int_bits top value variant =
    pick ((value + 1) % (2 * top))
      ((value + (2 * top - 1)) % (2 * top)
        ∷ 0
        ∷ (top - 1)
        ∷ top
        ∷ (2 * top - value) % (2 * top)
        ∷ (if ltb value top then top - 1 - value else top + (2 * top - 1 - value))
        ∷ [])
      variant

unfoldable pub add_signed_step : ℤ → ℕ → ℤ
add_signed_step value variant =
    value
    +ℤ pick (pos 1)
        (negsuc 0 ∷ pos 10 ∷ negsuc 9 ∷ pos 100 ∷ negsuc 99 ∷ pos 1000 ∷ negsuc 999 ∷ []) variant

unfoldable pub negate_big_int : ℤ → ℕ → ℤ
negate_big_int value variant = pos 0 -ℤ value

unfoldable pub set_signed_boundary : ℤ → ℕ → ℤ
set_signed_boundary value variant =
    pick (negsuc 127)
      (pos 127
        ∷ negsuc 32767
        ∷ pos 32767
        ∷ negsuc 2147483647
        ∷ pos 2147483647
        ∷ pos 0
        ∷ negsuc 0
        ∷ pos 1
        ∷ [])
      variant

unfoldable pub mutate_big_int : ℤ → ℕ → ℤ
mutate_big_int value variant =
    pick (add_signed_step value variant)
      (negate_big_int value variant ∷ set_signed_boundary value variant ∷ []) variant

unfoldable pub mutate_bool : Bool → Bool
mutate_bool value = not value

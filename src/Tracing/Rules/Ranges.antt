-- ===== src/Tracing/Rules/Ranges.antt =====
-- tracing/utils/types.go, calculateValueRange and calculateStorageValueRange.
use autopatch.Common.{ℕ, ◌+◌, ◌-◌, ◌/◌, ◌<◌, ◌≡◌, subst, arith}
use autopatch.Common.Int.{ℤ, pos, negsuc, ◌+ℤ◌, ◌-ℤ◌, ◌≤ℤ◌}
use autopatch.Tracing.Rules.{
  Value, big, byte, number, raw, other, convert_to_big_int, div5, around, calculate_value_range,
}

abbrev pub Within : ℤ × ℤ → ℤ → Type 0
Within b v = (b.0 ≤ℤ v) × (v ≤ℤ b.1)

around-pos : (n : ℕ) → around (pos n) ≡ (pos (n - n / 5), pos (n + n / 5))
unfolding around div5 ◌-ℤ◌ ◌+ℤ◌
around-pos n = ground arith

pub around-Within : (n : ℕ) → Within (around (pos n)) (pos n)
around-Within n = rw (around-pos n) (omega arith, omega arith)

-- The value is the natural number n, which fits its type.
abbrev pub Stands : Value → ℕ → Type 0
Stands (big (pos m)) n = m ≡ n
Stands (byte m) n = (m ≡ n) × (m < 256)
Stands (number (pos m)) n = m ≡ n
Stands _ n = ⊥

Within-byte : (n : ℕ) → n < 256 → Within (calculate_value_range (byte n)) (pos n)
unfolding calculate_value_range ◌-ℤ◌
Within-byte n h = ground (arith, h)

-- A value that is a natural number lies in its own range: a big integer in the range of a fifth to
-- either side, a uint8 in the range of 20 to either side within 0 to 255, another integer in the range
-- of itself.
pub value_range-Within : (v : Value) (n : ℕ) → Stands v n → Within (calculate_value_range v) (pos n)
unfolding calculate_value_range convert_to_big_int
value_range-Within (big (pos m)) n h =
    subst (λ k. Within (around (pos m)) (pos k)) h (around-Within m)
value_range-Within (big (negsuc m)) n h = absurd h
value_range-Within (byte m) n h =
    subst (λ k. Within (calculate_value_range (byte m)) (pos k)) h.0 (Within-byte m h.1)
value_range-Within (number (pos m)) n h = omega (arith, h)
value_range-Within (number (negsuc m)) n h = absurd h
value_range-Within (raw bs) n h = absurd h
value_range-Within other n h = absurd h

around-negsuc : (n : ℕ) → around (negsuc n) ≡ (pos 0, negsuc (n + n / 5 + 1))
unfolding around div5 ◌-ℤ◌ ◌+ℤ◌
around-negsuc n = ground arith

-- No value at all lies in the range of a negative big integer: the lower end is raised to 0 and the
-- upper end is negative.
pub negative_range_empty : (n : ℕ) (v : ℤ) → ¬ Within (calculate_value_range (big (negsuc n))) v
unfolding calculate_value_range
negative_range_empty n v h =
    let b = around-negsuc n in
    let low : pos 0 ≤ℤ v = subst (λ (r : ℤ × ℤ). r.0 ≤ℤ v) b h.0 in
    let high : v ≤ℤ negsuc (n + n / 5 + 1) = subst (λ (r : ℤ × ℤ). v ≤ℤ r.1) b h.1 in
    omega (arith, low, high)

-- ===== src/Sync/Bigint.antt =====
-- common/bigint/bigint.go, Clamp: an unbounded integer's Uint64 is the low 64 bits of its magnitude,
-- and int64(size-1) reads the low 64 bits as a two's complement number.
use autopatch.Common.{
  ℕ, ◌+◌, ◌-◌, ◌%◌, ◌^◌, ◌≤◌, ◌<◌, ◌≡◌, refl, arith, leb, ltb, ◌⊎◌, if◌then◌else◌, Bool-cases, inl,
  inr, leb→le, false,
}
use autopatch.Common.Int.{ℤ, pos, negsuc, pos_part, neg_part, ◌+ℤ◌, ◌-ℤ◌, ◌≤ℤ◌, +ℤ_parts, int_laws}

-- big.Int.Uint64.
abbrev pub uint64 : ℤ → ℕ
uint64 (pos n) = n % 2 ^ 64
uint64 (negsuc n) = (n + 1) % 2 ^ 64

-- int64(n) of a uint64.
abbrev pub int64 : ℕ → ℤ
int64 n = if ltb n (2 ^ 63) then pos n else negsuc (2 ^ 64 - n - 1)

-- size-1 on uint64.
abbrev pub pred64 : ℕ → ℕ
pred64 n = (n + (2 ^ 64 - 1)) % 2 ^ 64

unfoldable pub clamp : ℤ → ℤ → ℕ → ℤ
clamp start end size =
    let count = (uint64 (end -ℤ start) + 1) % 2 ^ 64 in
    if leb count size then end else start +ℤ int64 (pred64 size)

-- The number of steps from `start` to `end`.
abbrev pub steps_to : ℤ → ℤ → ℕ
steps_to start end = pos_part end + neg_part start - (pos_part start + neg_part end)

diff_steps : (start end : ℤ) → start ≤ℤ end → end -ℤ start ≡ pos (steps_to start end)
unfolding ◌-ℤ◌
diff_steps start end le = ground arith

pred64_small : (size : ℕ) → 0 < size → size ≤ 2 ^ 63 → int64 (pred64 size) ≡ pos (size - 1)
pred64_small size lo hi = ground arith

clamp_steps :
    (start end : ℤ) (size : ℕ)
    → start ≤ℤ end
    → end +ℤ pos 1 ≤ℤ start +ℤ pos (2 ^ 64 - 1)
    → 0 < size
    → size ≤ 2 ^ 63
    → clamp start end size
      ≡ (if leb (steps_to start end + 1) size then end else start +ℤ pos (size - 1))
unfolding clamp
clamp_steps start end size le fits lo hi = ground (
  arith,
  diff_steps start end le,
  pred64_small size lo hi,
  +ℤ_parts end (pos 1),
  +ℤ_parts start (pos (2 ^ 64 - 1)),
)

leb-false : (a b : ℕ) → leb a b ≡ false → b < a
leb-false a b h = ground arith

-- For an interval of fewer than 2^64 - 1 steps and a size from 1 to 2^63, the clamped end is the
-- smaller of the end and start + size - 1: the range is not empty, stays inside the interval, has at
-- most `size` numbers, and exactly as many where it does not reach the end.
pub clamp_range :
    (start end : ℤ) (size : ℕ)
    → start ≤ℤ end
    → end +ℤ pos 1 ≤ℤ start +ℤ pos (2 ^ 64 - 1)
    → 0 < size
    → size ≤ 2 ^ 63
    → (start ≤ℤ clamp start end size)
      × (clamp start end size ≤ℤ end)
      × (clamp start end size +ℤ pos 1 ≤ℤ start +ℤ pos size)
      × ((clamp start end size ≡ end) ⊎ (clamp start end size +ℤ pos 1 ≡ start +ℤ pos size))
clamp_range start end size le fits lo hi = elim (Bool-cases (leb (steps_to start end + 1) size)) [
  | inl whole ↦
      let near = leb→le (steps_to start end + 1) size whole in
      rw (clamp_steps start end size le fits lo hi, whole)
        (omega (int_laws, near), omega arith, omega (int_laws, near), inl refl)
  | inr cut ↦
      let far = leb-false (steps_to start end + 1) size cut in
      rw (clamp_steps start end size le fits lo hi, cut)
        (omega int_laws, omega (int_laws, far), omega int_laws, inr (omega int_laws))
]

-- A size of zero does not clamp to an empty range in place: the end moves below the start.
pub clamp_zero :
    (start end : ℤ)
    → start ≤ℤ end
    → end +ℤ pos 1 ≤ℤ start +ℤ pos (2 ^ 64 - 1)
    → clamp start end 0 ≡ start -ℤ pos 1
unfolding clamp ◌+ℤ◌ ◌-ℤ◌
clamp_zero start end le fits = ground arith

-- ===== src/Storage/Value/Signed.antt =====
-- storage/utils/scan.go, SolidityInt.Value: the signed numbers of one to eight bytes.
use autopatch.Common.{
  ℕ, zero, suc, ◌+◌, ◌-◌, ◌*◌, ◌%◌, ◌^◌, ◌≤◌, ◌<◌, ◌≡◌, arith, ltb, if◌then◌else◌, map,
}
use autopatch.Common.Int.{negsuc, ◌-ℤ◌}
use autopatch.Sync.Bigint.{int64}
use autopatch.Storage.Bytes.{from_bytes, big_bytes, flip}
use autopatch.Storage.Bytes.Laws.{from_bytes-flip}
use autopatch.Storage.Value.{u64_value, i64_value, int_value, neg64}

-- The number of k bytes, 2^(8k), that two's complement counts from.
magnitude :
    (k vb : ℕ)
    → k ≤ 32
    → 0 < vb
    → vb < 256 ^ k
    → 256 ^ k ≤ (vb - 1) * 256 + 1
    → from_bytes 0 (map flip (big_bytes (vb - 1))) ≡ 256 ^ k - vb
unfolding big_bytes
magnitude k vb le above lt full = omega (arith, from_bytes-flip 32 k (vb - 1) le (omega arith) full)

-- Negating an int64 that was read from a number of at most 2^63.
neg64-int64 : (r : ℕ) → 0 < r → r ≤ 2 ^ 63 → neg64 (int64 (r % 2 ^ 64)) ≡ negsuc (r - 1)
unfolding ◌-ℤ◌
neg64-int64 r lo hi = ground arith

-- One width at a time, the width a numeral.
module _ (k vb : ℕ) (le : k ≤ 32) where
  negated :
      0 < vb
      → vb < 256 ^ k
      → 256 ^ k ≤ (vb - 1) * 256 + 1
      → 256 ^ k - vb ≤ 2 ^ 63
      → neg64 (int64 (from_bytes 0 (map flip (big_bytes (vb - 1))) % 2 ^ 64))
        ≡ negsuc (256 ^ k - vb - 1)
  negated above lt full small =
      rw (magnitude k vb le above lt full) (neg64-int64 (256 ^ k - vb) (omega arith) small)

-- A field of k bytes (k from 1 to 8) whose top bit is clear reads as itself, and one whose top bit
-- is set reads as the negative number of two's complement, vb - 2^(8k), the smallest included.
pub int_value-twos_complement :
    (k vb : ℕ)
    → 1 ≤ k
    → k ≤ 8
    → vb < 2 ^ (8 * k)
    → int_value vb (8 * k) ≡ (
        if ltb vb (2 ^ (8 * k - 1))
        then u64_value vb
        else i64_value (negsuc (2 ^ (8 * k) - vb - 1)))
unfolding int_value
int_value-twos_complement zero vb a b lt = absurd (omega arith)
int_value-twos_complement (suc zero) vb a b lt = ground (arith, negated 1 vb (omega arith))
int_value-twos_complement (suc (suc zero)) vb a b lt = ground (arith, negated 2 vb (omega arith))
int_value-twos_complement (suc (suc (suc zero))) vb a b lt =
    ground (arith, negated 3 vb (omega arith))
int_value-twos_complement (suc (suc (suc (suc zero)))) vb a b lt =
    ground (arith, negated 4 vb (omega arith))
int_value-twos_complement (suc (suc (suc (suc (suc zero))))) vb a b lt =
    ground (arith, negated 5 vb (omega arith))
int_value-twos_complement (suc (suc (suc (suc (suc (suc zero)))))) vb a b lt =
    ground (arith, negated 6 vb (omega arith))
int_value-twos_complement (suc (suc (suc (suc (suc (suc (suc zero))))))) vb a b lt =
    ground (arith, negated 7 vb (omega arith))
int_value-twos_complement (suc (suc (suc (suc (suc (suc (suc (suc zero)))))))) vb a b lt =
    ground (arith, negated 8 vb (omega arith))
int_value-twos_complement (suc (suc (suc (suc (suc (suc (suc (suc (suc k))))))))) vb a b lt =
    absurd (omega arith)

-- Wider fields lose information: two non-negative fields of 256 bits that are 2^64 apart read the
-- same, as do all their low 64 bits.
pub int_value-truncates :
    (vb : ℕ) → vb + 2 ^ 64 < 2 ^ 255 → int_value (vb + 2 ^ 64) 256 ≡ int_value vb 256
unfolding int_value
int_value-truncates vb h = ground arith

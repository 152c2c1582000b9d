-- ===== src/Mutation/Steps/Wraps.antt =====
-- tracing/mutation/mutation_manager.go, GenerateStepBasedStorageValue.
use autopatch.Common.{ℕ, ◌+◌, ◌-◌, ◌^◌, ◌<◌, ◌≡◌, arith}
use autopatch.Common.Int.{ℤ, pos, negsuc, ◌+ℤ◌}
use autopatch.Storage.Bytes.{to_hash}
use autopatch.Mutation.Steps.{
  generate_step_based_storage_value, storage_delta, lift, reduce, magnitude, max_value,
}

lift-pos : (n : ℕ) → lift (pos n) ≡ pos n
unfolding lift
lift-pos n = ground arith

lift-negsuc : (n : ℕ) → n < max_value → lift (negsuc n) ≡ pos (max_value - (n + 1))
unfolding lift ◌+ℤ◌
lift-negsuc n h = ground arith

reduce-pos : (n : ℕ) → n < 2 ^ 256 → reduce (pos n) ≡ pos n
unfolding reduce
reduce-pos n h = ground arith

hash_of : (n : ℕ) → n < 2 ^ 256 → to_hash (reduce (pos n)) ≡ n
hash_of n h = rw (reduce-pos n h) (omega arith)

stored-pos : (n : ℕ) → n < 2 ^ 256 → to_hash (reduce (lift (pos n))) ≡ n
stored-pos n h = rw (lift-pos n) (hash_of n h)

stored-negsuc : (n : ℕ) → n < max_value → to_hash (reduce (lift (negsuc n))) ≡ max_value - (n + 1)
stored-negsuc n h = rw (lift-negsuc n h) (hash_of (max_value - (n + 1)) (omega arith))

-- What a sum is stored as: itself, or below zero the sum plus 2^256 - 1.
abbrev pub wrapped : ℤ → ℕ
wrapped (pos n) = n
wrapped (negsuc n) = 2 ^ 256 - 1 - (n + 1)

stored-wrapped : (z : ℤ) → magnitude z < 2 ^ 256 → to_hash (reduce (lift z)) ≡ wrapped z
stored-wrapped (pos n) h = stored-pos n (omega arith)
stored-wrapped (negsuc n) h = stored-negsuc n (omega arith)

-- A step is added exactly while the sum stays in the range of a storage word. A sum below zero wraps
-- around modulo 2^256 - 1, not 2^256: the stored value is one less than the word's own subtraction
-- gives. The condition is that the sum's magnitude is below 2^256.
pub storage_value_wraps :
    (original : ℕ) (step : ℤ) (variant : ℕ)
    → magnitude (pos original +ℤ storage_delta step variant) < 2 ^ 256
    → generate_step_based_storage_value original step variant
      ≡ wrapped (pos original +ℤ storage_delta step variant)
unfolding generate_step_based_storage_value
storage_value_wraps original step variant h =
    stored-wrapped (pos original +ℤ storage_delta step variant) h

-- ===== src/Mutation/Steps/Bytes.antt =====
-- tracing/mutation/mutation_manager.go: mutated bytes are bytes.
use autopatch.Common.{
  ℕ, zero, suc, ◌+◌, ◌-◌, ◌*◌, ◌%◌, ◌<◌, List, ◌++◌, length, take, drop, replicate, get_or, set,
  arith, leb, ltb, if◌then◌else◌,
}
use autopatch.Common.Int.{ℤ, pos, negsuc, ◌+ℤ◌}
use autopatch.Storage.Bytes.{AreBytes, from_bytes, to_bytes}
use autopatch.Storage.Bytes.Closed.{
  append-AreBytes, take-AreBytes, drop-AreBytes, zeros-AreBytes, set-AreBytes, if-AreBytes,
  to_bytes-AreBytes,
}
use autopatch.Mutation.Pick.{pick}
use autopatch.Mutation.Steps.{
  MutationConfig, wrap_byte, eight_bytes, word_delta, step_word, step_round, step_rounds,
  apply_step_mutation_to_bytes, magnitude,
}

wrap_byte-lt : (z : ℤ) → wrap_byte z < 256
unfolding wrap_byte
wrap_byte-lt (pos n) = ground arith
wrap_byte-lt (negsuc n) = omega arith

eight_bytes-AreBytes : (z : ℤ) → AreBytes (eight_bytes z)
unfolding eight_bytes
eight_bytes-AreBytes z =
    let bs = to_bytes 9 (magnitude z) in
    let value_bytes = drop (length bs - 8) bs in
    append-AreBytes (replicate (8 - length value_bytes) 0) value_bytes
      (zeros-AreBytes (8 - length value_bytes))
      (drop-AreBytes (length bs - 8) bs (to_bytes-AreBytes 9 (magnitude z)))

step_word-AreBytes :
    (step : ℤ) (variant i offset : ℕ) (bs : List ℕ)
    → AreBytes bs
    → AreBytes (step_word step variant i offset bs)
unfolding step_word
step_word-AreBytes step variant i offset bs h =
    let z = pos (from_bytes 0 (take 8 (drop offset bs))) +ℤ word_delta step variant i in
    let rest = drop (offset + 8) bs in
    if-AreBytes (leb (offset + 8) (length bs)) (take offset bs ++ (eight_bytes z ++ rest)) bs
      (append-AreBytes (take offset bs) (eight_bytes z ++ rest) (take-AreBytes offset bs h) (
        append-AreBytes (eight_bytes z) rest (eight_bytes-AreBytes z)
          (drop-AreBytes (offset + 8) bs h)))
      h

step_rounds-AreBytes :
    (byte_step step : ℤ) (variant n : ℕ) (bs : List ℕ)
    → AreBytes bs
    → AreBytes (step_rounds byte_step step variant n bs)
unfolding step_rounds step_round
step_rounds-AreBytes byte_step step variant zero bs h = h
step_rounds-AreBytes byte_step step variant (suc n) bs h =
    let before = step_rounds byte_step step variant n bs in
    let offset = (variant + n * 17) % length before in
    let sum = pos (get_or before offset 0) +ℤ byte_step in
    step_word-AreBytes step variant n offset (set before offset (wrap_byte sum)) (
      set-AreBytes before offset (wrap_byte sum) (wrap_byte-lt sum)
        (step_rounds-AreBytes byte_step step variant n bs h))

pub apply-AreBytes :
    (m : MutationConfig) (bs : List ℕ) (step : ℤ) (variant : ℕ)
    → AreBytes bs
    → AreBytes (apply_step_mutation_to_bytes m bs step variant)
unfolding apply_step_mutation_to_bytes
apply-AreBytes m bs step variant h =
    step_rounds-AreBytes (pick m.byte_step m.byte_steps variant) step variant
      (if ltb (variant % m.max_mutations + 1) (length bs)
        then variant % m.max_mutations + 1
        else length bs)
      bs h

-- ===== src/Analysis/Slots/Balances.antt =====
-- tracing/analysis/storage_analyzer.go, inferSlotTypeFromValue: values of the size of balances.
use native.Mathlib.Nat.{zero-add, suc-add}
use autopatch.Common.{
  ℕ, zero, suc, ◌+◌, ◌-◌, ◌*◌, ◌^◌, ◌≤◌, ◌<◌, ◌≡◌, refl, ap, ◌∙◌, Bool, true, false, not, ◌&&◌, inl,
  inr, List, [], ◌∷◌, ◌++◌, drop, length, replicate, ltb, ◌==◌, arith, Bool-cases,
}
use autopatch.Storage.Bytes.{from_bytes, to_bytes, big_bytes, hash_bytes}
use autopatch.Storage.Bytes.Laws.{from_bytes-append, from_bytes-zeros, from_bytes-to_bytes}
use autopatch.Modifier.Input.{zero_prefix}
use autopatch.Storage.Bytes.Sizes.{length-to_bytes}
use autopatch.Analysis.Slots.{
  address, count_nonzero, looks_like_address, looks_like_balance, infer_slot_type_from_value,
}

zero_prefix-zeros : (k n : ℕ) (bs : List ℕ) → k ≤ n → zero_prefix k (replicate n 0 ++ bs) ≡ true
zero_prefix-zeros zero n bs h = refl
zero_prefix-zeros (suc k) zero bs h = absurd (omega arith)
zero_prefix-zeros (suc k) (suc n) bs h = zero_prefix-zeros k n bs (omega arith)

drop-replicate : (k m : ℕ) (bs : List ℕ) → drop k (replicate (k + m) 0 ++ bs) ≡ replicate m 0 ++ bs
drop-replicate zero m bs = rw zero-add refl
drop-replicate (suc k) m bs = rw suc-add (drop-replicate k m bs)

not_both : (b : Bool) → not (b && false) ≡ true
not_both true = refl
not_both false = refl

-- Bytes that are all zero stand for zero.
no_nonzero : (acc : ℕ) (bs : List ℕ) → count_nonzero bs ≡ 0 → acc ≡ 0 → from_bytes acc bs ≡ 0
unfolding from_bytes
no_nonzero acc [] h e = e
no_nonzero acc (b ∷ bs) h e =
    no_nonzero (acc * 256 + b) bs (ground (arith, h)) (ground (arith, h, e))

-- A value of 20 bytes at most.
prefixed : (v : ℕ) → v < 256 ^ 20 → zero_prefix 12 (hash_bytes v) ≡ true
unfolding hash_bytes big_bytes
prefixed v h =
    zero_prefix-zeros 12 (32 - length (to_bytes 32 v)) (to_bytes 32 v)
      (omega (arith, length-to_bytes 32 20 v h))

tail_value : (v : ℕ) → v < 256 ^ 20 → from_bytes 0 (drop 12 (hash_bytes v)) ≡ v
unfolding hash_bytes big_bytes
tail_value v h =
    let bs = to_bytes 32 v in
    let gap = 32 - length bs in
    let long : gap ≡ 12 + (gap - 12) = omega (arith, length-to_bytes 32 20 v h) in
    ap (λ (g : ℕ). from_bytes 0 (drop 12 (replicate g 0 ++ bs))) long
    ∙ ap (from_bytes 0) (drop-replicate 12 (gap - 12) bs)
    ∙ from_bytes-append 0 (replicate (gap - 12) 0) bs
    ∙ ap (λ (a : ℕ). from_bytes a bs) (from_bytes-zeros 0 (gap - 12) ∙ omega arith)
    ∙ from_bytes-to_bytes 32 v (omega (arith, h))

has_nonzero : (v : ℕ) → 0 < v → v < 256 ^ 20 → (count_nonzero (drop 12 (hash_bytes v)) == 0) ≡ false
has_nonzero v p h = elim (Bool-cases (count_nonzero (drop 12 (hash_bytes v)) == 0)) [
  | inl e ↦ absurd (
      omega
        (arith, p, tail_value v h, no_nonzero 0 (drop 12 (hash_bytes v)) (ground (arith, e)) refl))
  | inr e ↦ e
]

large-address : (v : ℕ) → 2 ^ 32 ≤ v → v < 2 ^ 160 → looks_like_address v ≡ true
unfolding looks_like_address
large-address v l h =
    let large : ltb v 4294967296 ≡ false = ground (arith, l) in
    rw (prefixed v (omega (arith, h)), has_nonzero v (omega (arith, l)) (omega (arith, h)), large)
      (not_both (ltb (count_nonzero (drop 12 (hash_bytes v))) 4))

-- Every value that looks like a balance is taken for an address, so that no slot that is taken for a
-- number looks like a balance.
pub balance-address : (v : ℕ) → looks_like_balance v ≡ true → infer_slot_type_from_value v ≡ address
unfolding infer_slot_type_from_value looks_like_balance
balance-address v h =
    let low : 10 ^ 15 ≤ v = ground (arith, h) in
    let high : v ≤ 10 ^ 27 = ground (arith, h) in
    let nonzero : (v == 0) ≡ false = ground (arith, low) in
    let not_one : (v == 1) ≡ false = ground (arith, low) in
    rw (nonzero, not_one, large-address v (omega (arith, low)) (omega (arith, high))) refl

-- ===== src/Storage/Bytes/Sizes.antt =====
-- How many bytes a number takes, and the complement of 32 bytes.
use autopatch.Common.{
  ℕ, zero, suc, ◌+◌, ◌-◌, ◌*◌, ◌/◌, ◌%◌, ◌^◌, ◌≤◌, ◌<◌, ◌≡◌, refl, List, [], ◌∷◌, ◌++◌, map, length,
  length-replicate, replicate, ◌==◌, arith, ap, sym, ◌∙◌, Bool-cases, inl, inr, length-append,
}
use autopatch.Storage.Bytes.{from_bytes, to_bytes, big_bytes, hash_bytes, flip, AreBytes}
use autopatch.Storage.Bytes.Closed.{append-AreBytes, zeros-AreBytes, to_bytes-AreBytes}
use autopatch.Storage.Bytes.Laws.{
  from_bytes-append, pow256-suc, pow256-pos, from_bytes-to_bytes, from_bytes-zeros,
}

pub length-to_bytes : (fuel k n : ℕ) → n < 256 ^ k → length (to_bytes fuel n) ≤ k
unfolding to_bytes
length-to_bytes zero k n h = omega arith
length-to_bytes (suc fuel) zero n h = ground arith
length-to_bytes (suc fuel) (suc k) n h = elim (Bool-cases (n == 0)) [
  | inl e ↦ rw e (omega arith)
  | inr e ↦ rw e (
      omega (
        arith,
        length-append (to_bytes fuel (n / 256)) (n % 256 ∷ []),
        length-to_bytes fuel k (n / 256) (omega (arith, pow256-suc k)),
      ))
]

pub length-to_bytes_full :
    (fuel k m : ℕ) → k ≤ fuel → m < 256 ^ k → 256 ^ k ≤ m * 256 + 255 → length (to_bytes fuel m) ≡ k
unfolding to_bytes
length-to_bytes_full zero zero m le lt full = refl
length-to_bytes_full zero (suc k) m le lt full = absurd (omega arith)
length-to_bytes_full (suc fuel) zero m le lt full = ground arith
length-to_bytes_full (suc fuel) (suc k) m le lt full = ground (
  arith,
  pow256-suc k,
  pow256-pos k,
  length-append (to_bytes fuel (m / 256)) (m % 256 ∷ []),
  length-to_bytes_full fuel k (m / 256),
)

-- Complemented bytes, beside the bytes themselves.
from_bytes-map-flip :
    (a c : ℕ) (bs : List ℕ)
    → AreBytes bs
    → from_bytes a (map flip bs) + from_bytes c bs + 1 ≡ (a + c + 1) * 256 ^ length bs
unfolding from_bytes
from_bytes-map-flip a c [] h = omega arith
from_bytes-map-flip a c (b ∷ bs) h =
    let ih = from_bytes-map-flip (a * 256 + flip b) (c * 256 + b) bs h.1 in
    let sum : a * 256 + flip b + (c * 256 + b) + 1 ≡ (a + c + 1) * 256 = omega (arith, h.0) in
    ih
    ∙ ap (λ (t : ℕ). t * 256 ^ length bs) sum
    ∙ omega (arith, ap (λ (t : ℕ). (a + c + 1) * t) (pow256-suc (length bs)))

-- The 32 bytes of a word.
length-hash_bytes : (n : ℕ) → n < 256 ^ 32 → length (hash_bytes n) ≡ 32
unfolding hash_bytes big_bytes
length-hash_bytes n h =
    let pad = 32 - length (to_bytes 32 n) in
    omega (
      arith,
      length-append (replicate pad 0) (to_bytes 32 n),
      length-replicate {A = ℕ} pad 0,
      length-to_bytes 32 32 n h,
    )

from_bytes-hash_bytes : (n : ℕ) → n < 256 ^ 32 → from_bytes 0 (hash_bytes n) ≡ n
unfolding hash_bytes big_bytes
from_bytes-hash_bytes n h =
    let pad = 32 - length (to_bytes 32 n) in
    from_bytes-append 0 (replicate pad 0) (to_bytes 32 n)
    ∙ ap (λ (a : ℕ). from_bytes a (to_bytes 32 n)) (from_bytes-zeros 0 pad ∙ omega arith)
    ∙ from_bytes-to_bytes 32 n h

hash_bytes-AreBytes : (n : ℕ) → AreBytes (hash_bytes n)
unfolding hash_bytes big_bytes
hash_bytes-AreBytes n =
    append-AreBytes (replicate (32 - length (to_bytes 32 n)) 0) (to_bytes 32 n)
      (zeros-AreBytes (32 - length (to_bytes 32 n))) (to_bytes-AreBytes 32 n)

pub from_bytes-flip_hash :
    (n : ℕ) → n < 256 ^ 32 → from_bytes 0 (map flip (hash_bytes n)) + n + 1 ≡ 256 ^ 32
from_bytes-flip_hash n h =
    ap (λ (t : ℕ). from_bytes 0 (map flip (hash_bytes n)) + t + 1) (sym (from_bytes-hash_bytes n h))
    ∙ from_bytes-map-flip 0 0 (hash_bytes n) (hash_bytes-AreBytes n)
    ∙ ap (λ (k : ℕ). (0 + 0 + 1) * 256 ^ k) (length-hash_bytes n h)

-- A number of exactly 32 bytes needs no padding.
pub big_bytes-hash_bytes :
    (m : ℕ) → m < 256 ^ 32 → 256 ^ 32 ≤ m * 256 + 255 → big_bytes m ≡ hash_bytes m
unfolding hash_bytes big_bytes
big_bytes-hash_bytes m lt full =
    let gap : 0 ≡ 32 - length (to_bytes 32 m) =
      omega (arith, length-to_bytes_full 32 32 m (omega arith) lt full) in
    ap (λ (g : ℕ). replicate g 0 ++ to_bytes 32 m) gap

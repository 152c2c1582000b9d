-- ===== src/Mutation/Addresses/Nearby.antt =====
-- tracing/mutation/type_aware_mutator.go, generateNearbyAddr.
use autopatch.Common.{
  ℕ, zero, suc, ◌^◌, ◌≤◌, ◌<◌, ◌≡◌, refl, List, [], ◌∷◌, ◌++◌, length, length-append, length-take,
  length-drop, take, drop, arith, ap,
}
use autopatch.Common.Int.{ℤ, pos, negsuc}
use mathlib.Core.List.{append-nil}
use autopatch.Storage.Bytes.{from_bytes, to_bytes}
use autopatch.Storage.Bytes.Sizes.{length-to_bytes_full}
use autopatch.Storage.Bytes.Laws.{from_bytes-to_bytes}
use autopatch.Mutation.Addresses.{mod_addr, copy, nearby_number, generate_nearby_addr}

-- A number of exactly k bytes.
one_byte : (n : ℕ) → 0 < n → n < 256 → to_bytes 20 n ≡ n ∷ []
unfolding to_bytes
one_byte n lo hi = ground arith

mod_addr-lt : (z : ℤ) → mod_addr z < 2 ^ 160
unfolding mod_addr
mod_addr-lt (pos n) = omega arith
mod_addr-lt (negsuc n) = omega arith

nearby_number-lt : (addr : List ℕ) (variant : ℕ) → nearby_number addr variant < 2 ^ 160
unfolding nearby_number
nearby_number-lt addr variant = mod_addr-lt _

take-nil : (n : ℕ) → take {A = ℕ} n [] ≡ []
take-nil zero = refl
take-nil (suc n) = refl

take-all : (n : ℕ) (xs : List ℕ) → length xs ≡ n → take n xs ≡ xs
take-all zero [] e = refl
take-all zero (x ∷ xs) e = absurd (omega arith)
take-all (suc n) [] e = refl
take-all (suc n) (x ∷ xs) e = ap (◌∷◌ x) (take-all n xs (omega arith))

drop-all : (n : ℕ) (xs : List ℕ) → length xs ≡ n → drop n xs ≡ []
drop-all zero [] e = refl
drop-all zero (x ∷ xs) e = absurd (omega arith)
drop-all (suc n) [] e = refl
drop-all (suc n) (x ∷ xs) e = drop-all n xs (omega arith)

copy-whole : (dst src : List ℕ) → length src ≡ length dst → copy dst src ≡ src
unfolding copy
copy-whole dst src e =
    rw (take-all (length dst) src e, e, drop-all (length dst) dst refl, append-nil) refl

-- Where the number of the nearby address has a first byte that is not zero, the address stands for
-- that number: the old one plus or minus a step from 1 to 1000, modulo 2^160.
pub nearby_exact :
    (addr : List ℕ) (variant : ℕ)
    → length addr ≡ 20
    → 2 ^ 152 ≤ nearby_number addr variant
    → (length (generate_nearby_addr addr variant) ≡ 20)
      × (from_bytes 0 (generate_nearby_addr addr variant) ≡ nearby_number addr variant)
unfolding generate_nearby_addr
nearby_exact addr variant l big =
    let r = nearby_number addr variant in
    let lt = nearby_number-lt addr variant in
    let whole = length-to_bytes_full 20 20 r (omega arith) lt (omega arith) in
    let e = copy-whole addr (to_bytes 20 r) (omega (arith, whole)) in
    (rw e whole, rw e (from_bytes-to_bytes 20 r lt))

-- Elsewhere it does not: a number of one byte is written over the first byte, and the other bytes
-- stay, so that the address is far from both the old one and the number.
pub nearby_misplaced :
    (b : ℕ) (rest : List ℕ) (variant : ℕ)
    → 0 < nearby_number (b ∷ rest) variant
    → nearby_number (b ∷ rest) variant < 256
    → generate_nearby_addr (b ∷ rest) variant ≡ nearby_number (b ∷ rest) variant ∷ rest
unfolding generate_nearby_addr copy
nearby_misplaced b rest variant lo hi =
    rw (one_byte (nearby_number (b ∷ rest) variant) lo hi)
      (ap (λ (t : List ℕ). nearby_number (b ∷ rest) variant ∷ (t ++ rest)) (take-nil (length rest)))

-- copy never changes the length of what it writes to.
pub length-copy : (dst src : List ℕ) → length (copy dst src) ≡ length dst
unfolding copy
length-copy dst src = omega (
  arith,
  length-append (take (length dst) src) (drop (length src) dst),
  length-take (length dst) src,
  length-drop (length src) dst,
)

-- ===== src/Storage/Bytes/Laws.antt =====
-- The conversions between bytes and numbers undo one another.
use native.Mathlib.Nat.{pow-suc, zero-add, suc-add, add-suc, mul-suc}
use native.Mathlib.Numerals.{towards_suc}
use mathlib.Core.List.{append-nil, append_assoc}
use autopatch.Common.{
  ℕ, zero, suc, ◌+◌, ◌-◌, ◌*◌, ◌/◌, ◌%◌, ◌^◌, ◌≤◌, ◌<◌, ◌≡◌, refl, List, [], ◌∷◌, ◌++◌, map, length,
  replicate, arith, ap, ◌∙◌,
}
use autopatch.Storage.Bytes.{from_bytes, to_bytes, flip, AreBytes}

pub from_bytes-snoc :
    (acc : ℕ) (bs : List ℕ) (b : ℕ) → from_bytes acc (bs ++ b ∷ []) ≡ from_bytes acc bs * 256 + b
unfolding from_bytes
from_bytes-snoc acc [] b = refl
from_bytes-snoc acc (c ∷ bs) b = from_bytes-snoc (acc * 256 + c) bs b

pub from_bytes-append :
    (acc : ℕ) (bs cs : List ℕ) → from_bytes acc (bs ++ cs) ≡ from_bytes (from_bytes acc bs) cs
unfolding from_bytes
from_bytes-append acc [] cs = refl
from_bytes-append acc (c ∷ bs) cs = from_bytes-append (acc * 256 + c) bs cs

pub pow256-suc : (k : ℕ) → 256 ^ suc k ≡ 256 ^ k * 256
pow256-suc k = pow-suc 256 k

pub map-snoc : (f : ℕ → ℕ) (bs : List ℕ) (b : ℕ) → map f (bs ++ b ∷ []) ≡ map f bs ++ f b ∷ []
map-snoc f [] b = refl
map-snoc f (c ∷ bs) b = ap (◌∷◌ (f c)) (map-snoc f bs b)

-- Writing a number and reading it back.
pub from_bytes-to_bytes : (fuel n : ℕ) → n < 256 ^ fuel → from_bytes 0 (to_bytes fuel n) ≡ n
unfolding to_bytes from_bytes
from_bytes-to_bytes zero n h = omega arith
from_bytes-to_bytes (suc fuel) n h = ground (
  arith,
  pow256-suc fuel,
  from_bytes-snoc 0 (to_bytes fuel (n / 256)) (n % 256),
  from_bytes-to_bytes fuel (n / 256),
)

pub pow256-pos : (k : ℕ) → 0 < 256 ^ k
pow256-pos zero = omega arith
pow256-pos (suc k) = omega (arith, pow256-suc k, pow256-pos k)

quotient_full : (k m : ℕ) → 256 ^ suc k ≤ m * 256 + 1 → 256 ^ k ≤ m / 256 * 256 + 1
quotient_full zero m h = omega arith
quotient_full (suc k) m h = omega (arith, pow256-suc k, pow256-suc (suc k))

-- The number that the complemented bytes of an (exactly) k-byte number stand for.
pub from_bytes-flip :
    (fuel k m : ℕ)
    → k ≤ fuel
    → m < 256 ^ k
    → 256 ^ k ≤ m * 256 + 1
    → from_bytes 0 (map flip (to_bytes fuel m)) ≡ 256 ^ k - 1 - m
unfolding to_bytes from_bytes
from_bytes-flip zero zero m le lt full = omega arith
from_bytes-flip zero (suc k) m le lt full = absurd (omega arith)
from_bytes-flip (suc fuel) zero m le lt full = ground arith
from_bytes-flip (suc fuel) (suc k) m le lt full = ground (
  arith,
  pow256-suc k,
  map-snoc flip (to_bytes fuel (m / 256)) (m % 256),
  from_bytes-snoc 0 (map flip (to_bytes fuel (m / 256))) (flip (m % 256)),
  from_bytes-flip fuel k (m / 256),
  quotient_full k m,
  pow256-pos k,
)

to_bytes-digit :
    (fuel acc c : ℕ)
    → 0 < acc
    → c < 256
    → to_bytes (suc fuel) (acc * 256 + c) ≡ to_bytes fuel acc ++ c ∷ []
unfolding to_bytes
to_bytes-digit fuel acc c h b = ground arith

to_bytes-zero : (fuel : ℕ) → to_bytes fuel 0 ≡ []
unfolding to_bytes
to_bytes-zero zero = refl
to_bytes-zero (suc fuel) = refl

to_bytes-one : (fuel c : ℕ) → 0 < c → c < 256 → to_bytes (suc fuel) c ≡ c ∷ []
unfolding to_bytes
to_bytes-one fuel c h b = ground (arith, to_bytes-zero fuel)

-- Reading bytes and writing the number back, from a number that is not zero on.
to_bytes-from_bytes_acc :
    (bs : List ℕ) (fuel acc : ℕ)
    → 0 < acc
    → AreBytes bs
    → to_bytes (length bs + fuel) (from_bytes acc bs) ≡ to_bytes fuel acc ++ bs
unfolding from_bytes
to_bytes-from_bytes_acc [] fuel acc h b = rw (zero-add, append-nil)
to_bytes-from_bytes_acc (c ∷ bs) fuel acc h b =
    rw (suc-add, ← add-suc)
      (to_bytes-from_bytes_acc bs (suc fuel) (acc * 256 + c) (omega arith) b.1
        ∙ rw (to_bytes-digit fuel acc c h b.0) (append_assoc (to_bytes fuel acc) (c ∷ []) bs))

-- Bytes without a leading zero survive being read as a number and written back.
pub to_bytes-from_bytes :
    (c : ℕ) (bs : List ℕ) (fuel : ℕ)
    → 0 < c
    → AreBytes (c ∷ bs)
    → length bs < fuel
    → to_bytes fuel (from_bytes 0 (c ∷ bs)) ≡ c ∷ bs
unfolding from_bytes
to_bytes-from_bytes c bs fuel h b l =
    let e : length bs + suc (fuel - length bs - 1) ≡ fuel = omega arith in
    let first = to_bytes-one (fuel - length bs - 1) c h b.0 in
    rw (← e) (
      to_bytes-from_bytes_acc bs (suc (fuel - length bs - 1)) (0 * 256 + c) (omega arith) b.1
      ∙ rw (zero-add, first))

pub from_bytes-zeros : (acc k : ℕ) → from_bytes acc (replicate k 0) ≡ acc * 256 ^ k
unfolding from_bytes
from_bytes-zeros acc zero = omega arith
from_bytes-zeros acc (suc k) =
    omega (arith, from_bytes-zeros (acc * 256 + 0) k, ap (λ (t : ℕ). acc * t) (pow256-suc k))

pub pow-8 : (k : ℕ) → 2 ^ (8 * k) ≡ 256 ^ k
pow-8 zero = refl
pow-8 (suc k) = rw (mul-suc 8 k) (simp towards_suc (omega (arith, pow-8 k, pow256-suc k)))

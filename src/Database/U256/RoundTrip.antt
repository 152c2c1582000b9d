-- ===== src/Database/U256/RoundTrip.antt =====
-- database/utils/serializers/u256.go: a number that was written is read back.
use native.Mathlib.Nat.{pow-suc}
use autopatch.Common.{
  ℕ, zero, suc, ◌+◌, ◌-◌, ◌*◌, ◌/◌, ◌%◌, ◌^◌, ◌<◌, ◌≡◌, refl, ◌≢◌, ap, ◌∙◌, Bool, true, false, some,
  List, [], ◌∷◌, ◌++◌, leb, ◌==◌, if◌then◌else◌, arith, Bool-cases, inl, inr,
}
use autopatch.Common.Int.{pos}
use autopatch.Storage.Label.{decimal}
use autopatch.Storage.Mapping.{read_decimal}
use autopatch.Database.U256.{
  DbValue, text, stored, serialized, refused, failed, scan_text, u256_overflow, below_overflow,
  scan, decimal_digits, value_of,
}

decimal-snoc :
    (acc m d : ℕ) (s : List ℕ)
    → decimal acc s ≡ some m
    → d < 10
    → decimal acc (s ++ (d + 48) ∷ []) ≡ some (m * 10 + d)
unfolding decimal
decimal-snoc acc m d [] e h = ground (arith, e, h)
decimal-snoc acc m d (c ∷ s) e h = ground (arith, e, decimal-snoc (acc * 10 + (c - 48)) m d s)

ten-suc : (k : ℕ) → 10 ^ suc k ≡ 10 ^ k * 10
ten-suc k = pow-suc 10 k

-- The last digit, after those of the quotient.
last_digit : (n : ℕ) → n / 10 ≡ 0 → decimal 0 ((n % 10 + 48) ∷ []) ≡ some n
unfolding decimal
last_digit n e = decimal-snoc 0 0 (n % 10) [] refl (omega arith) ∙ ap some (omega (arith, e))

decimal-digits : (fuel n : ℕ) → n < 10 ^ suc fuel → decimal 0 (decimal_digits (suc fuel) n) ≡ some n
unfolding decimal_digits
decimal-digits zero n h =
    let small : n / 10 ≡ 0 = omega (arith, h) in
    let test : (n / 10 == 0) ≡ true = ground (arith, small) in rw test (last_digit n small)
decimal-digits (suc fuel) n h = elim (Bool-cases (n / 10 == 0)) [
  | inl e ↦ rw e (last_digit n (ground (arith, e)))
  | inr e ↦
      let front = decimal-digits fuel (n / 10) (omega (arith, h, ten-suc (suc fuel))) in
      rw e (
        decimal-snoc 0 (n / 10) (n % 10) (decimal_digits (suc fuel) (n / 10)) front (omega arith)
        ∙ ap some (omega arith))
]

-- A text of digits has no sign.
read-digits :
    (c : ℕ) (cs : List ℕ) (n : ℕ)
    → decimal 0 (c ∷ cs) ≡ some n
    → read_decimal (c ∷ cs) ≡ some (pos n)
unfolding decimal read_decimal
read-digits c cs n e = ground (arith, e)

read-printed : (s : List ℕ) (n : ℕ) → s ≢ [] → decimal 0 s ≡ some n → read_decimal s ≡ some (pos n)
read-printed [] n h e = absurd (h refl)
read-printed (c ∷ cs) n h e = read-digits c cs n e

some_digits : (fuel n : ℕ) → decimal_digits (suc fuel) n ≢ []
unfolding decimal_digits
some_digits fuel n = elim (Bool-cases (n / 10 == 0)) [
  | inl e ↦ rw e (λ h. ground (arith, h))
  | inr e ↦ rw e (snoc-nil (decimal_digits fuel (n / 10)) (n % 10 + 48))
]
  where
    snoc-nil : (xs : List ℕ) (x : ℕ) → (xs ++ x ∷ []) ≢ []
    snoc-nil [] x h = ground (arith, h)
    snoc-nil (y ∷ ys) x h = ground (arith, h)

-- A number below 2^256 is written as a text that is read back as the same number.
pub value_of-scan :
    (n : ℕ)
    → n < 2 ^ 256
    → (s : DbValue) × ((value_of true (some (pos n)) ≡ serialized s)
        × (scan true s ≡ stored (pos n)))
unfolding value_of scan below_overflow
value_of-scan n h =
    let printed = decimal_digits 78 n in
    let fits : leb u256_overflow n ≡ false = ground (arith, h) in
    let read = read-printed printed n (some_digits 77 n) (decimal-digits 77 n (omega (arith, h))) in
    (
      text printed,
      (
        ap (λ (b : Bool). if b then refused else serialized (text printed)) fits,
        ap scan_text read ∙ ap (λ (b : Bool). if b then failed else stored (pos n)) fits,
      ),
    )

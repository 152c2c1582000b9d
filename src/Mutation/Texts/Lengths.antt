-- ===== src/Mutation/Texts/Lengths.antt =====
-- tracing/mutation/type_aware_mutator.go: what mutated texts have to do with the text.
use native.Mathlib.Nat.{div-mul-le_self, mul_comm}
use autopatch.Common.{
  ℕ, zero, suc, ◌-◌, ◌*◌, ◌/◌, ◌≤◌, ◌<◌, ◌≡◌, refl, ◌⊎◌, inl, inr, List, [], ◌∷◌, ◌++◌, length,
  length-append, take, drop, take-append-drop, length-take, false, arith, leb, Bool-cases,
}
use autopatch.Mutation.Pick.{pick, pick-All}
use autopatch.Mutation.Texts.{truncate, repeat, repetitions, repeat_string}

leb-false : (a b : ℕ) → leb a b ≡ false → b < a
leb-false a b h = ground arith

lt→leb-false : (a b : ℕ) → b < a → leb a b ≡ false
lt→leb-false a b h = ground arith

take-prefix :
    (n : ℕ) (value : List ℕ)
    → n < length value
    → (take n value ++ drop (length (take n value)) value ≡ value)
      × (length (take n value) < length value)
take-prefix n value h =
    let e : length (take n value) ≡ n = omega (arith, length-take n value) in
    (rw e (take-append-drop n value), omega (arith, e))

-- A truncated text of at least one byte is a proper prefix of it.
pub truncate-prefix :
    (value : List ℕ) (variant : ℕ)
    → 0 < length value
    → (truncate value variant ++ drop (length (truncate value variant)) value ≡ value)
      × (length (truncate value variant) < length value)
unfolding truncate
truncate-prefix value variant h = elim (Bool-cases (leb (length value) 1)) [
  | inl one ↦ rw one (refl, h)
  | inr more ↦
      let size = leb-false (length value) 1 more in
      let n = pick 0 (1 ∷ length value / 2 ∷ (length value - 1) ∷ []) variant in
      let short : n < length value = pick-All (λ k. k < length value) _ _ variant (omega arith) in
      rw (more, lt→leb-false (length value) n short) (take-prefix n value short)
]

length-repeat : (n : ℕ) (value : List ℕ) → length (repeat n value) ≡ n * length value
unfolding repeat
length-repeat zero value = omega arith
length-repeat (suc n) value =
    omega (arith, length-append value (repeat n value), length-repeat n value)

repetitions-le :
    (size n : ℕ)
    → 0 < size
    → (repetitions size n * size ≤ 1000) ⊎ ((repetitions size n ≡ 1) × (1000 < size))
unfolding repetitions
repetitions-le size n h = ground (arith, div-mul-le_self 1000 size, mul_comm size n)

repetitions-pos : (size n : ℕ) → 1 ≤ n → 1 ≤ repetitions size n
unfolding repetitions
repetitions-pos size n h = ground arith

abbrev copies : List ℕ → ℕ → ℕ
copies value variant = repetitions (length value) (pick 2 (3 ∷ 10 ∷ []) variant)

repeat_string-copies :
    (value : List ℕ) (variant : ℕ)
    → 0 < length value
    → repeat_string value variant ≡ repeat (copies value variant) value
unfolding repeat_string
repeat_string-copies value variant h = ground arith

-- A repeated text is a whole number of copies, at least one, and at most 1000 bytes long, unless the
-- text alone is longer and stays as it was.
pub repeat_string_bounds :
    (value : List ℕ) (variant : ℕ)
    → 0 < length value
    → (k : ℕ) × (repeat_string value variant ≡ repeat k value)
      × (1 ≤ k)
      × ((length (repeat_string value variant) ≤ 1000) ⊎ (k ≡ 1))
repeat_string_bounds value variant h =
    let k = copies value variant in
    let e = repeat_string-copies value variant h in
    (
      k,
      e,
      repetitions-pos _ _ (pick-All (λ n. 1 ≤ n) _ _ variant (omega arith)),
      elim (repetitions-le (length value) (pick 2 (3 ∷ 10 ∷ []) variant) h) [
        | inl le ↦ inl (rw (e, length-repeat k value) le)
        | inr (one, _) ↦ inr one
      ],
    )

-- ===== src/Mutation/Texts/FlipTwice.antt =====
-- tracing/mutation/type_aware_mutator.go, flipBytes: flipping is its own inverse.
use autopatch.Common.{
  ℕ, zero, suc, ◌+◌, ◌%◌, ◌≡◌, refl, List, [], ◌∷◌, length, length-set, get_or, arith, ltb,
  if◌then◌else◌, ap, ◌∙◌, sym,
}
use autopatch.Storage.Bytes.{AreBytes, flip}
use autopatch.Mutation.Texts.{flip_at, flip_rounds, flip_bytes}

length-flip_at : (i : ℕ) (xs : List ℕ) → length (flip_at i xs) ≡ length xs
unfolding flip_at
length-flip_at i xs = length-set xs i (flip (get_or xs i 0))

flip_at-suc : (i x : ℕ) (xs : List ℕ) → flip_at (suc i) (x ∷ xs) ≡ x ∷ flip_at i xs
unfolding flip_at
flip_at-suc i x xs = refl

flip_at-AreBytes : (i : ℕ) (xs : List ℕ) → AreBytes xs → AreBytes (flip_at i xs)
unfolding flip_at
flip_at-AreBytes i [] b = tt
flip_at-AreBytes zero (x ∷ xs) b = (omega arith, b.1)
flip_at-AreBytes (suc i) (x ∷ xs) b = (b.0, flip_at-AreBytes i xs b.1)

flip_at-twice : (i : ℕ) (xs : List ℕ) → AreBytes xs → flip_at i (flip_at i xs) ≡ xs
unfolding flip_at
flip_at-twice i [] b = refl
flip_at-twice zero (x ∷ xs) b = ap (λ (t : ℕ). t ∷ xs) (omega arith)
flip_at-twice (suc i) (x ∷ xs) b = ap (◌∷◌ x) (flip_at-twice i xs b.1)

flip_at_comm : (i j : ℕ) (xs : List ℕ) → flip_at i (flip_at j xs) ≡ flip_at j (flip_at i xs)
unfolding flip_at
flip_at_comm i j [] = refl
flip_at_comm zero zero (x ∷ xs) = refl
flip_at_comm zero (suc j) (x ∷ xs) = refl
flip_at_comm (suc i) zero (x ∷ xs) = refl
flip_at_comm (suc i) (suc j) (x ∷ xs) = ap (◌∷◌ x) (flip_at_comm i j xs)

length-flip_rounds : (v n : ℕ) (xs : List ℕ) → length (flip_rounds v n xs) ≡ length xs
unfolding flip_rounds
length-flip_rounds v zero xs = refl
length-flip_rounds v (suc n) xs =
    length-flip_at ((v + n) % length (flip_rounds v n xs)) (flip_rounds v n xs)
    ∙ length-flip_rounds v n xs

flip_rounds-AreBytes : (v n : ℕ) (xs : List ℕ) → AreBytes xs → AreBytes (flip_rounds v n xs)
unfolding flip_rounds
flip_rounds-AreBytes v zero xs b = b
flip_rounds-AreBytes v (suc n) xs b = flip_at-AreBytes _ _ (flip_rounds-AreBytes v n xs b)

-- A round, with the length that all rounds have.
flip_rounds-suc :
    (v n : ℕ) (xs : List ℕ)
    → flip_rounds v (suc n) xs ≡ flip_at ((v + n) % length xs) (flip_rounds v n xs)
unfolding flip_rounds
flip_rounds-suc v n xs =
    ap (λ (t : ℕ). flip_at ((v + n) % t) (flip_rounds v n xs)) (length-flip_rounds v n xs)

flip_rounds-zero : (v : ℕ) (xs : List ℕ) → flip_rounds v 0 xs ≡ xs
unfolding flip_rounds
flip_rounds-zero v xs = refl

flip_rounds-flip_at :
    (v n i : ℕ) (xs : List ℕ) → flip_rounds v n (flip_at i xs) ≡ flip_at i (flip_rounds v n xs)
flip_rounds-flip_at v zero i xs =
    flip_rounds-zero v (flip_at i xs) ∙ ap (flip_at i) (sym (flip_rounds-zero v xs))
flip_rounds-flip_at v (suc n) i xs =
    rw
      (
        flip_rounds-suc v n (flip_at i xs),
        length-flip_at i xs,
        flip_rounds-flip_at v n i xs,
        flip_rounds-suc v n xs,
      )
      (flip_at_comm ((v + n) % length xs) i (flip_rounds v n xs))

flip_rounds-twice :
    (v n : ℕ) (xs : List ℕ) → AreBytes xs → flip_rounds v n (flip_rounds v n xs) ≡ xs
flip_rounds-twice v zero xs b = flip_rounds-zero v (flip_rounds v 0 xs) ∙ flip_rounds-zero v xs
flip_rounds-twice v (suc n) xs b =
    let m = (v + n) % length xs in
    rw
      (
        flip_rounds-suc v n (flip_rounds v (suc n) xs),
        length-flip_rounds v (suc n) xs,
        flip_rounds-suc v n xs,
      )
      (ap (flip_at m) (flip_rounds-flip_at v n m (flip_rounds v n xs))
        ∙ flip_at-twice m (flip_rounds v n (flip_rounds v n xs)) (rw (flip_rounds-twice v n xs b) b)
        ∙ flip_rounds-twice v n xs b)

-- Flipping the bytes that a variant chooses keeps the length, and flipping them again gives the bytes
-- back.
pub flip_bytes-twice :
    (value : List ℕ) (variant : ℕ)
    → AreBytes value
    → (length (flip_bytes value variant) ≡ length value)
      × (flip_bytes (flip_bytes value variant) variant ≡ value)
unfolding flip_bytes
flip_bytes-twice value variant b =
    let n = if ltb (variant % 3 + 1) (length value) then variant % 3 + 1 else length value in
    (
      length-flip_rounds variant n value,
      rw (length-flip_rounds variant n value) (flip_rounds-twice variant n value b),
    )

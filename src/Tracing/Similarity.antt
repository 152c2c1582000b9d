-- ===== src/Tracing/Similarity.antt =====
-- tracing/utils/types.go, CalculateSimilarity: a quotient of two counts that is computed in float64.
-- It is given here as the pair of the counts.
use autopatch.Common.{
  ℕ, ◌+◌, ◌≤◌, ◌<◌, ◌≡◌, refl, subst, ap, ◌∙◌, ◌↔◌, Bool, true, false, inl, inr, List, [], ◌∷◌,
  length, arith, ltb, if◌then◌else◌, Bool-cases,
}
use autopatch.Storage.Label.{text_beq, text_beq_iff}

abbrev pub TextPath : Type 0
TextPath = List (List ℕ)

-- The loop up to the smaller length.
unfoldable pub matches : TextPath → TextPath → ℕ
matches [] qs = 0
matches (p ∷ ps) [] = 0
matches (p ∷ ps) (q ∷ qs) = (if text_beq p q then 1 else 0) + matches ps qs

abbrev pub max_len : TextPath → TextPath → ℕ
max_len ps qs = if ltb (length ps) (length qs) then length qs else length ps

-- Numerator and denominator.
unfoldable pub calculate_similarity : TextPath → TextPath → ℕ × ℕ
unfolding matches
calculate_similarity [] [] = (1, 1)
calculate_similarity [] (q ∷ qs) = (0, 1)
calculate_similarity (p ∷ ps) [] = (0, 1)
calculate_similarity (p ∷ ps) (q ∷ qs) = (matches (p ∷ ps) (q ∷ qs), max_len (p ∷ ps) (q ∷ qs))

hit-le : (b : Bool) → (if b then 1 else 0) ≤ 1
hit-le true = omega arith
hit-le false = omega arith

matches-le_left : (ps qs : TextPath) → matches ps qs ≤ length ps
unfolding matches
matches-le_left [] qs = omega arith
matches-le_left (p ∷ ps) [] = omega arith
matches-le_left (p ∷ ps) (q ∷ qs) = omega (arith, hit-le (text_beq p q), matches-le_left ps qs)

matches-le_right : (ps qs : TextPath) → matches ps qs ≤ length qs
unfolding matches
matches-le_right [] qs = omega arith
matches-le_right (p ∷ ps) [] = omega arith
matches-le_right (p ∷ ps) (q ∷ qs) = omega (arith, hit-le (text_beq p q), matches-le_right ps qs)

matches_all : (ps qs : TextPath) → matches ps qs ≡ length ps → length ps ≡ length qs → ps ≡ qs
unfolding matches
matches_all [] [] h l = refl
matches_all [] (q ∷ qs) h l = absurd (omega arith)
matches_all (p ∷ ps) [] h l = absurd (omega arith)
matches_all (p ∷ ps) (q ∷ qs) h l =
    let count : (b : Bool)
        → text_beq p q ≡ b
        → matches (p ∷ ps) (q ∷ qs) ≡ (if b then 1 else 0) + matches ps qs =
      λ b e. ap (λ (b : Bool). (if b then 1 else 0) + matches ps qs) e in
    elim (Bool-cases (text_beq p q)) [
      | inl e ↦
          let rest : matches ps qs ≡ length ps = omega (arith, h, count true e) in
          ap (λ (x : List ℕ). x ∷ ps) ((text_beq_iff p q).0 e)
          ∙ ap (◌∷◌ q) (matches_all ps qs rest (omega (arith, l)))
      | inr e ↦ absurd (omega (arith, h, count false e, matches-le_left ps qs))
    ]

matches_self : (ps : TextPath) → matches ps ps ≡ length ps
unfolding matches
matches_self [] = refl
matches_self (p ∷ ps) =
    let same : text_beq p p ≡ true = (text_beq_iff p p).1 refl in
    rw (same, matches_self ps) (omega arith)

beq_comm : (p q : List ℕ) → text_beq p q ≡ text_beq q p
beq_comm [] [] = refl
beq_comm [] (b ∷ t) = refl
beq_comm (a ∷ s) [] = refl
beq_comm (a ∷ s) (b ∷ t) = ground (arith, beq_comm s t)

matches_comm : (ps qs : TextPath) → matches ps qs ≡ matches qs ps
unfolding matches
matches_comm [] [] = refl
matches_comm [] (q ∷ qs) = refl
matches_comm (p ∷ ps) [] = refl
matches_comm (p ∷ ps) (q ∷ qs) = rw (beq_comm p q, matches_comm ps qs) refl

max_len_comm : (ps qs : TextPath) → max_len ps qs ≡ max_len qs ps
max_len_comm ps qs = ground arith

-- The similarity of two paths lies between 0 and 1, its denominator is not zero, and it does not depend
-- on the order of the paths.
pub similarity_bounds :
    (ps qs : TextPath)
    → ((calculate_similarity ps qs).0 ≤ (calculate_similarity ps qs).1)
      × (0 < (calculate_similarity ps qs).1)
      × (calculate_similarity ps qs ≡ calculate_similarity qs ps)
unfolding calculate_similarity
similarity_bounds [] [] = (omega arith, omega arith, refl)
similarity_bounds [] (q ∷ qs) = (omega arith, omega arith, refl)
similarity_bounds (p ∷ ps) [] = (omega arith, omega arith, refl)
similarity_bounds (p ∷ ps) (q ∷ qs) = (
  ground (arith, matches-le_left (p ∷ ps) (q ∷ qs), matches-le_right (p ∷ ps) (q ∷ qs)),
  ground arith,
  rw (matches_comm (p ∷ ps) (q ∷ qs), max_len_comm (p ∷ ps) (q ∷ qs)) refl,
)

one-equal :
    (ps qs : TextPath) → (calculate_similarity ps qs).0 ≡ (calculate_similarity ps qs).1 → ps ≡ qs
unfolding calculate_similarity
one-equal [] [] h = refl
one-equal [] (q ∷ qs) h = absurd (omega arith)
one-equal (p ∷ ps) [] h = absurd (omega arith)
one-equal (p ∷ ps) (q ∷ qs) h =
    let low = matches-le_left (p ∷ ps) (q ∷ qs) in
    let right = matches-le_right (p ∷ ps) (q ∷ qs) in
    let same : length (p ∷ ps) ≡ length (q ∷ qs) = ground (arith, h, low, right) in
    matches_all (p ∷ ps) (q ∷ qs) (ground (arith, h, low, right)) same

self-one : (ps : TextPath) → (calculate_similarity ps ps).0 ≡ (calculate_similarity ps ps).1
unfolding calculate_similarity
self-one [] = refl
self-one (p ∷ ps) = matches_self (p ∷ ps) ∙ ground arith

equal-one :
    (ps qs : TextPath) → ps ≡ qs → (calculate_similarity ps qs).0 ≡ (calculate_similarity ps qs).1
equal-one ps qs e =
    subst (λ (r : TextPath). (calculate_similarity ps r).0 ≡ (calculate_similarity ps r).1) e
      (self-one ps)

-- The similarity is 1 exactly for equal paths.
pub similarity_one_iff :
    (ps qs : TextPath)
    → ((calculate_similarity ps qs).0 ≡ (calculate_similarity ps qs).1) ↔ (ps ≡ qs)
similarity_one_iff ps qs = (one-equal ps qs, equal-one ps qs)

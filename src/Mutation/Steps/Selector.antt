-- ===== src/Mutation/Steps/Selector.antt =====
-- tracing/mutation/mutation_manager.go, GenerateStepBasedInputData: what every mutation of call data
-- keeps.
use autopatch.Common.{
  ℕ, zero, suc, ◌+◌, ◌-◌, ◌≤◌, ◌≡◌, refl, List, [], ◌∷◌, ◌++◌, length, take, drop, replicate,
  length-append, length-set, length-take, length-drop, length-replicate, leb→le, arith, leb, ltb,
  ◌∙◌, ap, Bool-cases, inl, inr,
}
use autopatch.Common.Int.{ℤ, pos, ◌+ℤ◌}
use autopatch.Mutation.Pick.{pick}
use autopatch.Storage.Bytes.{AreBytes, from_bytes, to_bytes}
use autopatch.Storage.Bytes.Closed.{append-AreBytes, take-AreBytes, drop-AreBytes}
use autopatch.Mutation.Steps.Bytes.{apply-AreBytes}
use autopatch.Mutation.Steps.{
  MutationConfig, eight_bytes, word_delta, step_word, step_round, step_rounds,
  apply_step_mutation_to_bytes, generate_step_based_input_data, magnitude,
}

length-pad : (bs : List ℕ) → length bs ≤ 8 → length (replicate (8 - length bs) 0 ++ bs) ≡ 8
length-pad bs h = omega (
  arith,
  length-append (replicate (8 - length bs) 0) bs,
  length-replicate {A = ℕ} (8 - length bs) 0,
)

length-eight_bytes : (z : ℤ) → length (eight_bytes z) ≡ 8
unfolding eight_bytes
length-eight_bytes z =
    let bs = to_bytes 9 (magnitude z) in
    length-pad (drop (length bs - 8) bs) (omega (arith, length-drop (length bs - 8) bs))

length-splice :
    (offset : ℕ) (bs word : List ℕ)
    → offset + 8 ≤ length bs
    → length word ≡ 8
    → length (take offset bs ++ (word ++ drop (offset + 8) bs)) ≡ length bs
length-splice offset bs word h w = omega (
  arith,
  length-append (take offset bs) (word ++ drop (offset + 8) bs),
  length-append word (drop (offset + 8) bs),
  length-take offset bs,
  length-drop (offset + 8) bs,
)

length-step_word :
    (step : ℤ) (variant i offset : ℕ) (bs : List ℕ)
    → length (step_word step variant i offset bs) ≡ length bs
unfolding step_word
length-step_word step variant i offset bs = elim (Bool-cases (leb (offset + 8) (length bs))) [
  | inl fits ↦
      let z = pos (from_bytes 0 (take 8 (drop offset bs))) +ℤ word_delta step variant i in
      rw fits (length-splice offset bs (eight_bytes z) (leb→le _ _ fits) (length-eight_bytes z))
  | inr out ↦ rw out refl
]

length-step_rounds :
    (byte_step step : ℤ) (variant n : ℕ) (bs : List ℕ)
    → length (step_rounds byte_step step variant n bs) ≡ length bs
unfolding step_rounds step_round
length-step_rounds byte_step step variant zero bs = refl
length-step_rounds byte_step step variant (suc n) bs =
    length-step_word step variant n _ _
    ∙ length-set _ _ _
    ∙ length-step_rounds byte_step step variant n bs

length-apply :
    (m : MutationConfig) (bs : List ℕ) (step : ℤ) (variant : ℕ)
    → length (apply_step_mutation_to_bytes m bs step variant) ≡ length bs
unfolding apply_step_mutation_to_bytes
length-apply m bs step variant = length-step_rounds _ step variant _ bs

take-append : (n : ℕ) (xs ys : List ℕ) → length xs ≡ n → take n (xs ++ ys) ≡ xs
take-append zero [] ys e = refl
take-append zero (x ∷ xs) ys e = absurd (omega arith)
take-append (suc n) [] ys e = absurd (omega arith)
take-append (suc n) (x ∷ xs) ys e = ap (◌∷◌ x) (take-append n xs ys (omega arith))

-- Mutated call data is a list of bytes as long as before that begins with the same four bytes, the
-- selector of the function that is called, whatever the steps and the variant are.
pub input_data-selector :
    (m : MutationConfig) (input : List ℕ) (variant : ℕ)
    → AreBytes input
    → (length (generate_step_based_input_data m input variant) ≡ length input)
      × (take 4 (generate_step_based_input_data m input variant) ≡ take 4 input)
      × AreBytes (generate_step_based_input_data m input variant)
unfolding generate_step_based_input_data
input_data-selector m input variant h = elim (Bool-cases (ltb (length input) 4)) [
  | inl short ↦ rw short (refl, refl, h)
  | inr long ↦
      let enough : 4 ≤ length input = ground arith in
      let args = drop 4 input in
      let step = pick m.input_step m.input_steps variant in
      let out = apply_step_mutation_to_bytes m args step variant in
      rw long (
        omega (
          arith,
          length-append (take 4 input) out,
          length-apply m args step variant,
          length-take 4 input,
          length-drop 4 input,
          enough,
        ),
        take-append 4 (take 4 input) out (omega (arith, length-take 4 input, enough)),
        append-AreBytes (take 4 input) out (take-AreBytes 4 input h)
            (apply-AreBytes m args step variant (drop-AreBytes 4 input h)),
      )
]

-- ===== src/Planner/Learning/Counts.antt =====
-- tracing/mutation/smart_mutation_strategy.go: the statistics after a series of results.
use autopatch.Common.{
  ℕ, zero, suc, ◌+◌, ◌-◌, ◌≤◌, ◌≡◌, refl, sym, ap, subst, ◌∙◌, inl, inr, List, [], ◌∷◌, ◌++◌, map,
  length, drop, ltb, arith, Bool-cases, length-append, length-drop,
}
use native.Mathlib.Nat.{suc-add}
use mathlib.Core.List.{append_assoc, append-nil}
use autopatch.Common.Int.{ℤ}
use autopatch.Planner.Learning.{
  FloatOps, MutationResult, SmartMutationStrategy, Call, record_call, new_smart_mutation_strategy,
  push_result, adapt_batch_size, count_high, record_mutation_result, run_call, run_calls,
  update_strategies,
}

drop_one-drop : {A : Type 0} → (k : ℕ) (xs : List A) → drop 1 (drop k xs) ≡ drop (k + 1) xs
drop_one-drop zero xs = refl
drop_one-drop (suc k) [] = rw suc-add refl
drop_one-drop (suc k) (x ∷ xs) = rw suc-add (drop_one-drop k xs)

drop-append :
    {A : Type 0} → (k : ℕ) (xs ys : List A) → k ≤ length xs → drop k (xs ++ ys) ≡ drop k xs ++ ys
drop-append zero xs ys h = refl
drop-append (suc k) [] ys h = absurd (omega arith)
drop-append (suc k) (x ∷ xs) ys h = drop-append k xs ys (omega arith)

-- The last n entries.
abbrev pub latest : {A : Type 0} → ℕ → List A → List A
latest n xs = drop (length xs - n) xs

module _ {F : Type 0} where
  -- How many results reach the threshold.
  abbrev pub highs : FloatOps F → F → List (MutationResult F) → ℕ
  highs floats threshold [] = 0
  highs floats threshold (r ∷ rs) = count_high floats threshold r + highs floats threshold rs

  highs-snoc :
      (floats : FloatOps F) (threshold : F) (rs : List (MutationResult F)) (r : MutationResult F)
      → highs floats threshold (rs ++ r ∷ [])
        ≡ highs floats threshold rs + count_high floats threshold r
  highs-snoc floats threshold [] r = omega arith
  highs-snoc floats threshold (x ∷ rs) r = omega (arith, highs-snoc floats threshold rs r)

  -- A bounded list of the latest entries goes on to hold them.
  push_result-latest :
      (n : ℕ) (r : MutationResult F) (rs : List (MutationResult F))
      → push_result n r (latest n rs) ≡ latest n (rs ++ r ∷ [])
  unfolding push_result
  push_result-latest n r rs =
      let k = length rs - n in
      let joined = drop-append k rs (r ∷ []) (omega arith) in
      let size = length-append (latest n rs) (r ∷ []) in
      let total = length-append rs (r ∷ []) in
      let kept = length-drop k rs in
      elim (Bool-cases (ltb n (length (latest n rs ++ r ∷ [])))) [
        | inl full ↦
            let next : k + 1 ≡ length (rs ++ r ∷ []) - n =
              ground (arith, full, size, total, kept) in
            rw full (
              ap (drop 1) (sym joined)
              ∙ drop_one-drop k (rs ++ r ∷ [])
              ∙ ap (λ (i : ℕ). drop i (rs ++ r ∷ [])) next)
        | inr room ↦
            let next : k ≡ length (rs ++ r ∷ []) - n = ground (arith, room, size, total, kept) in
            rw room (sym joined ∙ ap (λ (i : ℕ). drop i (rs ++ r ∷ [])) next)
      ]

  adapted-results :
      (s : SmartMutationStrategy F)
      → ((adapt_batch_size s).recent_results ≡ s.recent_results)
        × ((adapt_batch_size s).total_mutations ≡ s.total_mutations)
        × ((adapt_batch_size s).high_similarity_count ≡ s.high_similarity_count)
        × ((adapt_batch_size s).similarity_threshold ≡ s.similarity_threshold)
        × ((adapt_batch_size s).max_recent_results ≡ s.max_recent_results)
  unfolding adapt_batch_size
  adapted-results s = elim (Bool-cases (ltb s.total_mutations 10)) [
    | inl e ↦ rw e (refl, refl, refl, refl, refl)
    | inr e ↦ rw e (refl, refl, refl, refl, refl)
  ]

  -- What a state says of the results that came so far.
  record Describes (floats : FloatOps F) (threshold : F) (prior : List (MutationResult F))
      (s : SmartMutationStrategy F) : Type 0 where
    total : s.total_mutations ≡ length prior
    similar : s.high_similarity_count ≡ highs floats threshold prior
    recent : s.recent_results ≡ latest 1000 prior
    settings : (s.max_recent_results ≡ 1000) × (s.similarity_threshold ≡ threshold)

  module _ (floats : FloatOps F) (threshold : F) where
    record-Describes :
        (prior : List (MutationResult F)) (r : MutationResult F) (now : ℤ)
        (s : SmartMutationStrategy F)
        → Describes floats threshold prior s
        → Describes floats threshold (prior ++ r ∷ []) (record_mutation_result floats r now s)
    unfolding record_mutation_result
    record-Describes prior r now s h =
        let counted = record s {
          recent_results = push_result s.max_recent_results r s.recent_results;
          strategies = update_strategies floats r now s.strategies;
          total_mutations = s.total_mutations + 1;
          high_similarity_count =
              s.high_similarity_count + count_high floats s.similarity_threshold r;
        } in
        let same = adapted-results counted in
        let bit = ap (λ (t : F). count_high floats t r) h.settings.1 in
        record {
          total = omega (arith, same.1, h.total, length-append prior (r ∷ []));
          similar = omega (arith, same.2, bit, h.similar, highs-snoc floats threshold prior r);
          recent =
              same.0
              ∙ ap (λ (k : ℕ). push_result k r s.recent_results) h.settings.0
              ∙ ap (push_result 1000 r) h.recent
              ∙ push_result-latest 1000 r prior;
          settings = (same.4 ∙ h.settings.0, same.3 ∙ h.settings.1);
        }

    abbrev pub records : List (MutationResult F × ℤ) → List (Call F)
    records = map (λ (p : MutationResult F × ℤ). record_call p.0 p.1)

    abbrev pub results : List (MutationResult F × ℤ) → List (MutationResult F)
    results = map (λ (p : MutationResult F × ℤ). p.0)

    calls-Describes :
        (entries : List (MutationResult F × ℤ)) (prior : List (MutationResult F))
        (s : SmartMutationStrategy F)
        → Describes floats threshold prior s
        → Describes floats threshold
            (prior ++ results entries)
            (run_calls floats (records entries) s)
    unfolding run_calls run_call
    calls-Describes [] prior s h = rw append-nil h
    calls-Describes ((r, now) ∷ entries) prior s h =
        subst
          (λ (rs : List (MutationResult F)).
            Describes floats threshold rs
              (run_calls floats (records entries) (record_mutation_result floats r now s)))
          (append_assoc prior (r ∷ []) (results entries))
          (calls-Describes entries (prior ++ r ∷ []) (record_mutation_result floats r now s)
            (record-Describes prior r now s h))

    new-Describes :
        (now : ℤ) → Describes floats threshold [] (new_smart_mutation_strategy floats threshold now)
    unfolding new_smart_mutation_strategy
    new-Describes now = record {
      total = refl;
      similar = refl;
      recent = refl;
      settings = (refl, refl);
    }

    -- After a series of results on a new manager, the total is their number, the count of similar ones
    -- is the number of those that reach the threshold, and the results that are kept are the last 1000,
    -- in order.
    pub records-latest :
        (now : ℤ) (entries : List (MutationResult F × ℤ))
        → ((run_calls floats
              (records entries)
              (new_smart_mutation_strategy floats threshold now)).total_mutations
            ≡ length (results entries))
          × ((run_calls floats
                (records entries)
                (new_smart_mutation_strategy floats threshold now)).high_similarity_count
              ≡ highs floats threshold (results entries))
          × ((run_calls floats
                (records entries)
                (new_smart_mutation_strategy floats threshold now)).recent_results
              ≡ latest 1000 (results entries))
    records-latest now entries =
        let d =
          calls-Describes entries [] (new_smart_mutation_strategy floats threshold now)
            (new-Describes now) in
        (d.total, d.similar, d.recent)

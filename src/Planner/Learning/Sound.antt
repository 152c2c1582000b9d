-- ===== src/Planner/Learning/Sound.antt =====
-- tracing/mutation/smart_mutation_strategy.go: the invariant of the learning state.
use autopatch.Common.{
  ℕ, ◌+◌, ◌≤◌, ◌≡◌, refl, Bool, true, false, inl, inr, Option, none, some, List, [], ◌∷◌, ◌++◌, map,
  length, ltb, if◌then◌else◌, arith, Bool-cases, length-append, length-drop,
}
use autopatch.Common.Int.{ℤ}
use autopatch.Common.GoMap.{lookup, insert}
use autopatch.Storage.Label.{text_eq}
use autopatch.Storage.Bytes.{All}
use autopatch.Planner.Learning.{
  FloatOps, MutationResult, MutationStrategy, SmartMutationStrategy, Call, record_call,
  threshold_call, reset_call, clamp_size, adapted, fresh_strategy, initialize_base_strategies,
  new_smart_mutation_strategy, update_strategy, update_found, update_strategies, push_result,
  adapt_batch_size, count_high, record_mutation_result, update_similarity_threshold, reset_strategy,
  reset_strategies, run_call, run_calls, base_strategies,
}

-- No strategy has more successes than attempts.
abbrev pub IsCounted : {F : Type 0} → List ℕ × MutationStrategy F → Type 0
IsCounted p = p.1.successful_attempts ≤ p.1.total_attempts

pub record IsSound {F : Type 0} (s : SmartMutationStrategy F) : Type 0 where
  pub bounds_kept :
      (s.min_batch_size ≡ 10) × (s.max_batch_size ≡ 200) × (s.max_recent_results ≡ 1000)
  pub low_enough : s.adaptive_batch_size ≤ 200
  pub high_enough : 10 ≤ s.adaptive_batch_size
  pub few_results : length s.recent_results ≤ 1000
  pub high_is_part : s.high_similarity_count ≤ s.total_mutations
  pub counted : All IsCounted s.strategies

clamped :
    (low high n : ℕ)
    → low ≡ 10
    → high ≡ 200
    → (10 ≤ clamp_size low high n) × (clamp_size low high n ≤ 200)
clamped low high n l h = (ground (arith, l, h), ground (arith, l, h))

bit-le : (b : Bool) → (if b then 1 else 0) ≤ 1
bit-le true = omega arith
bit-le false = omega arith

module _ {F : Type 0} where
  insert-All :
      (k : List ℕ) (s : MutationStrategy F) (m : List (List ℕ × MutationStrategy F))
      → s.successful_attempts ≤ s.total_attempts
      → All IsCounted m
      → All IsCounted (insert k s m)
  insert-All k s [] h a = (h, tt)
  insert-All k s ((j, t) ∷ m) h a = elim (Bool-cases (text_eq.beq j k)) [
    | inl e ↦ rw e (h, a.1)
    | inr e ↦ rw e (a.0, insert-All k s m h a.1)
  ]

  FoundCounted : Option (MutationStrategy F) → Type 0
  FoundCounted none = Unit
  FoundCounted (some s) = s.successful_attempts ≤ s.total_attempts

  lookup-FoundCounted :
      (k : List ℕ) (m : List (List ℕ × MutationStrategy F))
      → All IsCounted m
      → FoundCounted (lookup k m)
  unfolding FoundCounted
  lookup-FoundCounted k [] a = tt
  lookup-FoundCounted k ((j, t) ∷ m) a = elim (Bool-cases (text_eq.beq j k)) [
    | inl e ↦ rw e a.0
    | inr e ↦ rw e (lookup-FoundCounted k m a.1)
  ]

  length-push :
      (r : MutationResult F) (rs : List (MutationResult F))
      → length rs ≤ 1000
      → length (push_result 1000 r rs) ≤ 1000
  unfolding push_result
  length-push r rs h = elim (Bool-cases (ltb 1000 (length (rs ++ r ∷ [])))) [
    | inl e ↦ rw e (omega (arith, length-append rs (r ∷ []), length-drop 1 (rs ++ r ∷ [])))
    | inr e ↦ rw e (ground (arith, e))
  ]

  module _ (floats : FloatOps F) where
    updated-counted :
        (r : MutationResult F) (now : ℤ) (s : MutationStrategy F)
        → s.successful_attempts ≤ s.total_attempts
        → (update_strategy floats r now s).successful_attempts
          ≤ (update_strategy floats r now s).total_attempts
    unfolding update_strategy
    updated-counted r now s h = elim (Bool-cases r.success) [
      | inl e ↦ rw e (omega (arith, h))
      | inr e ↦ rw e (omega (arith, h))
    ]

    update_found-All :
        (r : MutationResult F) (now : ℤ) (o : Option (MutationStrategy F))
        (m : List (List ℕ × MutationStrategy F))
        → FoundCounted o
        → All IsCounted m
        → All IsCounted (update_found floats r now o m)
    unfolding update_found FoundCounted
    update_found-All r now none m h a = a
    update_found-All r now (some s) m h a =
        insert-All r.mutation_type (update_strategy floats r now s) m (updated-counted r now s h) a

    reset-All :
        (m : List (List ℕ × MutationStrategy F))
        → All IsCounted
            (map (λ (p : List ℕ × MutationStrategy F). (p.0, reset_strategy floats p.1)) m)
    unfolding reset_strategy
    reset-All [] = tt
    reset-All ((k, s) ∷ m) = (omega arith, reset-All m)

    fresh-All :
        (now : ℤ) (names : List (List ℕ × ℕ))
        → All IsCounted (map (λ (p : List ℕ × ℕ). (p.0, fresh_strategy floats now p.1)) names)
    unfolding fresh_strategy
    fresh-All now [] = tt
    fresh-All now ((k, n) ∷ names) = (omega arith, fresh-All now names)

    new-IsSound :
        (threshold : F) (now : ℤ) → IsSound (new_smart_mutation_strategy floats threshold now)
    unfolding new_smart_mutation_strategy initialize_base_strategies
    new-IsSound threshold now = record {
      bounds_kept = (refl, refl, refl);
      low_enough = omega arith;
      high_enough = omega arith;
      few_results = omega arith;
      high_is_part = omega arith;
      counted = fresh-All now base_strategies;
    }

    adapt-IsSound : (s : SmartMutationStrategy F) → IsSound s → IsSound (adapt_batch_size s)
    unfolding adapt_batch_size
    adapt-IsSound s h = elim (Bool-cases (ltb s.total_mutations 10)) [
      | inl e ↦ rw e h
      | inr e ↦
          let new_size = adapted s.high_similarity_count s.total_mutations s.adaptive_batch_size in
          let inside =
            clamped s.min_batch_size s.max_batch_size new_size h.bounds_kept.0 h.bounds_kept.1 in
          rw e (record {
            bounds_kept = h.bounds_kept;
            low_enough = inside.1;
            high_enough = inside.0;
            few_results = h.few_results;
            high_is_part = h.high_is_part;
            counted = h.counted;
          })
    ]

    record-IsSound :
        (r : MutationResult F) (now : ℤ) (s : SmartMutationStrategy F)
        → IsSound s
        → IsSound (record_mutation_result floats r now s)
    unfolding record_mutation_result update_strategies
    record-IsSound r now s h =
        let found = lookup r.mutation_type s.strategies in
        let counted = record s {
          recent_results = push_result s.max_recent_results r s.recent_results;
          strategies = update_strategies floats r now s.strategies;
          total_mutations = s.total_mutations + 1;
          high_similarity_count =
              s.high_similarity_count + count_high floats s.similarity_threshold r;
        } in
        let a = adapt-IsSound counted (record {
          bounds_kept = h.bounds_kept;
          low_enough = h.low_enough;
          high_enough = h.high_enough;
          few_results = rw h.bounds_kept.2 (length-push r s.recent_results h.few_results);
          high_is_part = omega (
            arith,
            h.high_is_part,
            bit-le (floats.reaches r.similarity_score s.similarity_threshold),
          );
          counted =
              update_found-All r now found s.strategies
                (lookup-FoundCounted r.mutation_type s.strategies h.counted) h.counted;
        }) in
        record {
          bounds_kept = a.bounds_kept;
          low_enough = a.low_enough;
          high_enough = a.high_enough;
          few_results = a.few_results;
          high_is_part = a.high_is_part;
          counted = a.counted;
        }

    call-IsSound :
        (c : Call F) (s : SmartMutationStrategy F) → IsSound s → IsSound (run_call floats c s)
    unfolding run_call update_similarity_threshold reset_strategies
    call-IsSound (record_call r now) s h = record-IsSound r now s h
    call-IsSound (threshold_call t) s h = record {
      bounds_kept = h.bounds_kept;
      low_enough = h.low_enough;
      high_enough = h.high_enough;
      few_results = h.few_results;
      high_is_part = h.high_is_part;
      counted = h.counted;
    }
    call-IsSound reset_call s h = record {
      bounds_kept = h.bounds_kept;
      low_enough = omega arith;
      high_enough = omega arith;
      few_results = omega arith;
      high_is_part = omega arith;
      counted = reset-All s.strategies;
    }

    calls-IsSound :
        (cs : List (Call F)) (s : SmartMutationStrategy F)
        → IsSound s
        → IsSound (run_calls floats cs s)
    unfolding run_calls
    calls-IsSound [] s h = h
    calls-IsSound (c ∷ cs) s h = calls-IsSound cs (run_call floats c s) (call-IsSound c s h)

    -- After any calls on a new manager the batch size lies between 10 and 200, at most 1000 results are
    -- kept, no more results are counted as similar than there were, and no strategy has more successes
    -- than attempts.
    pub run_calls-IsSound :
        (threshold : F) (now : ℤ) (cs : List (Call F))
        → IsSound (run_calls floats cs (new_smart_mutation_strategy floats threshold now))
    run_calls-IsSound threshold now cs =
        calls-IsSound cs (new_smart_mutation_strategy floats threshold now)
          (new-IsSound threshold now)

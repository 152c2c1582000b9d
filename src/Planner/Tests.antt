-- ===== src/Planner/Tests.antt =====
-- tracing/mutation/smart_mutation_strategy.go on concrete results and slots. The scores are thousandths.
use autopatch.Common.{
  ℕ, ◌+◌, ◌*◌, ◌/◌, ◌≤◌, ◌≡◌, refl, Bool, some, List, [], ◌∷◌, length, take, ltb, leb, arith, true,
}
use autopatch.Common.Int.{ℤ, pos}
use autopatch.Common.Text.{codes}
use autopatch.Storage.Bytes.{All}
use autopatch.Planner.Learning.{
  FloatOps, MutationResult, Call, record_call, threshold_call, run_calls,
  new_smart_mutation_strategy,
}
use autopatch.Planner.Learning.Sound.{IsSound, run_calls-IsSound}
use autopatch.Planner.Learning.Counts.{highs, latest, records, results, records-latest}
use autopatch.Planner.Plan.{
  StorageSlotInfo, Ranked, MutationPlan, InputMutationPlan, allocate, get_optimal_mutation_plan,
}
use autopatch.Planner.Plan.Bounds.{planned, names, plan_bounds}
use autopatch.Planner.Plan.Targets.{OfSlot, InData, allocate-Aimed}

abbrev thousandths : FloatOps ℕ
thousandths = record {
  half = 500;
  three_tenths = 300;
  quotient = λ a b. a * 1000 / b;
  blend = λ old new. (old * 9 + new) / 10;
  reaches = λ a b. leb b a;
}

abbrev flip_result : MutationResult ℕ
flip_result = record {
  variant = 3;
  similarity_score = 850;
  success = true;
  mutation_type = codes "bool_flip";
}

abbrev some_calls : List (Call ℕ)
some_calls =
    record_call flip_result (pos 5) ∷ threshold_call 900 ∷ record_call flip_result (pos 6) ∷ []

run_calls-IsSound_example :
    IsSound (run_calls thousandths some_calls (new_smart_mutation_strategy thousandths 800 (pos 1)))
run_calls-IsSound_example = run_calls-IsSound thousandths 800 (pos 1) some_calls

abbrev entries : List (MutationResult ℕ × ℤ)
entries = (flip_result, pos 5) ∷ (record flip_result { similarity_score = 100 }, pos 6) ∷ []

records-latest_example :
    ((run_calls thousandths
        (records thousandths 800 entries)
        (new_smart_mutation_strategy thousandths 800 (pos 1))).total_mutations
      ≡ length (results thousandths 800 entries))
    × ((run_calls thousandths
          (records thousandths 800 entries)
          (new_smart_mutation_strategy thousandths 800 (pos 1))).high_similarity_count
        ≡ highs thousandths 800 (results thousandths 800 entries))
    × ((run_calls thousandths
          (records thousandths 800 entries)
          (new_smart_mutation_strategy thousandths 800 (pos 1))).recent_results
        ≡ latest 1000 (results thousandths 800 entries))
records-latest_example = records-latest thousandths 800 (pos 1) entries

abbrev slots : List (StorageSlotInfo ℕ)
slots =
    record { slot = 7; slot_type = codes "bool"; value = 1; importance_score = 400 }
    ∷ record { slot = 9; slot_type = codes "uint256"; value = 42; importance_score = 900 }
    ∷ []

abbrev ranked : List Ranked
ranked =
    record { name = codes "storage_bool_flip"; priority = pos 6 }
    ∷ record { name = codes "bool_flip"; priority = pos 5 }
    ∷ record { name = codes "multi_slot_coordinated"; priority = pos 4 }
    ∷ []

abbrev above : ℕ → ℕ → Bool
above a b = ltb b a

plan_bounds_example :
    (p : MutationPlan) × (get_optimal_mutation_plan above 10 ranked slots 100 ≡ some p)
    × (planned p ≤ 10)
    × (p.priority_order ≡ take 10 (names ranked))
plan_bounds_example = plan_bounds above slots 100 10 ranked (omega arith)

allocate-Aimed_example :
    All (OfSlot slots) (allocate above slots 100 10 3 0 ranked).storage_mutations
    × All
        (λ (i : InputMutationPlan). InData 100 i.target_arg_index)
        (allocate above slots 100 10 3 0 ranked).input_mutations
allocate-Aimed_example = allocate-Aimed above slots 100 10 3 0 ranked

-- The plan has three mutations of slots and three of call data.
allocate_counts : planned (allocate above slots 100 10 3 0 ranked) ≡ 6
unfolding allocate
allocate_counts = refl

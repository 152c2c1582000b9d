-- ===== src/Planner/Plan.antt =====
-- tracing/mutation/smart_mutation_strategy.go, GetOptimalMutationPlan. The ranking by the float64 scores
-- is an argument: a list of the strategies' names with the priorities made from their scores. The
-- scores of the slots are compared only, by a parameter.
pub mod Bounds
pub mod Targets
use autopatch.Common.{
  ℕ, zero, suc, ◌+◌, ◌-◌, ◌*◌, ◌/◌, ◌^◌, Bool, true, false, ◌&&◌, ◌||◌, Option, none, some, List,
  [], ◌∷◌, ◌++◌, length, ltb, leb, ◌==◌, if◌then◌else◌,
}
use autopatch.Common.Int.{ℤ}
use autopatch.Common.Text.{codes}
use autopatch.Storage.Label.{text_beq}

pub record StorageSlotInfo (Score : Type 0) : Type 0 where
  pub slot : ℕ
  pub slot_type : List ℕ
  pub value : ℕ
  pub importance_score : Score

pub record Ranked : Type 0 where
  pub name : List ℕ
  pub priority : ℤ

pub record StorageMutationPlan : Type 0 where
  pub strategy : List ℕ
  pub target_slot : ℕ
  pub slot_type : List ℕ
  pub variant : ℕ
  pub priority : ℤ

pub record InputMutationPlan : Type 0 where
  pub strategy : List ℕ
  pub target_arg_index : ℕ
  pub variant : ℕ
  pub priority : ℤ

pub record MutationPlan : Type 0 where
  pub total_variants : ℕ
  pub storage_mutations : List StorageMutationPlan
  pub input_mutations : List InputMutationPlan
  pub priority_order : List (List ℕ)

abbrev pub storage_strategies : List (List ℕ)
storage_strategies =
    codes "storage_address_mutation"
    ∷ codes "storage_balance_scaling"
    ∷ codes "storage_bool_flip"
    ∷ codes "storage_counter_increment"
    ∷ codes "storage_mapping_key_mutation"
    ∷ codes "storage_array_length_mutation"
    ∷ codes "multi_slot_coordinated"
    ∷ codes "dependency_aware_mutation"
    ∷ []

abbrev pub has_name : List ℕ → List (List ℕ) → Bool
has_name name [] = false
has_name name (n ∷ ns) = text_beq name n || has_name name ns

unfoldable pub is_storage_strategy : List ℕ → Bool
is_storage_strategy name = has_name name storage_strategies

-- The positions 0 to n - 1.
abbrev pub positions_from : ℕ → ℕ → List ℕ
positions_from i zero = []
positions_from i (suc n) = i ∷ positions_from (i + 1) n

-- Every case of the switch over the strategy takes all whole words.
unfoldable pub select_target_positions : ℕ → List ℕ
select_target_positions input_data_length =
    if leb input_data_length 4
    then []
    else let param_count = (input_data_length - 4) / 32 in
      if param_count == 0 then [] else positions_from 0 param_count

-- The loop `i < variants && i < len(targets)` from i on.
unfoldable pub input_plans : Ranked → ℕ → ℕ → List ℕ → List InputMutationPlan
input_plans s i zero targets = []
input_plans s i (suc n) [] = []
input_plans s i (suc n) (t ∷ ts) =
    record { strategy = s.name; target_arg_index = t; variant = i; priority = s.priority }
    ∷ input_plans s (i + 1) n ts

unfoldable pub generate_input_mutation_plans : Ranked → ℕ → ℕ → List InputMutationPlan
unfolding input_plans select_target_positions
generate_input_mutation_plans s input_data_length variants =
    input_plans s 0 variants (select_target_positions input_data_length)

abbrev pub empty_plan : ℕ → MutationPlan
empty_plan batch = record {
  total_variants = batch;
  storage_mutations = [];
  input_mutations = [];
  priority_order = [];
}

abbrev pub variants_for : ℕ → ℕ → ℕ → ℕ
variants_for batch per count = if ltb batch (count + per) then batch - count else per

abbrev pub at_least_one : ℕ → ℕ
at_least_one n = if ltb n 1 then 1 else n

module _ {Score : Type 0} where
  unfoldable pub storage_plans :
      Ranked → ℕ → ℕ → List (StorageSlotInfo Score) → List StorageMutationPlan
  storage_plans s i zero targets = []
  storage_plans s i (suc n) [] = []
  storage_plans s i (suc n) (t ∷ ts) =
      record {
        strategy = s.name;
        target_slot = t.slot;
        slot_type = t.slot_type;
        variant = i;
        priority = s.priority;
      }
      ∷ storage_plans s (i + 1) n ts

  unfoldable pub filter_slots :
      (StorageSlotInfo Score → Bool) → List (StorageSlotInfo Score) → List (StorageSlotInfo Score)
  filter_slots test [] = []
  filter_slots test (s ∷ slots) =
      let rest = filter_slots test slots in if test s then s ∷ rest else rest

  abbrev pub has_type : List ℕ → StorageSlotInfo Score → Bool
  has_type slot_type s = text_beq s.slot_type slot_type

  abbrev pub looks_like_balance : StorageSlotInfo Score → Bool
  looks_like_balance s =
      has_type (codes "uint256") s && (leb (10 ^ 15) s.value && leb s.value (10 ^ 27))

  abbrev pub looks_like_counter : StorageSlotInfo Score → Bool
  looks_like_counter s = has_type (codes "uint256") s && leb s.value 1000000

  unfoldable pub insert_slot :
      (Score → Score → Bool)
      → StorageSlotInfo Score
      → List (StorageSlotInfo Score)
      → List (StorageSlotInfo Score)
  insert_slot above s [] = s ∷ []
  insert_slot above s (t ∷ ts) =
      let rest = insert_slot above s ts in
      if above t.importance_score s.importance_score then t ∷ rest else s ∷ t ∷ ts

  -- sort.Slice by descending scores; the order among equal scores is not fixed there.
  unfoldable pub sort_slots :
      (Score → Score → Bool) → List (StorageSlotInfo Score) → List (StorageSlotInfo Score)
  unfolding insert_slot
  sort_slots above [] = []
  sort_slots above (s ∷ slots) = insert_slot above s (sort_slots above slots)

  unfoldable pub select_target_slots :
      (Score → Score → Bool) → List ℕ → List (StorageSlotInfo Score) → List (StorageSlotInfo Score)
  unfolding filter_slots sort_slots
  select_target_slots above name slots =
      if text_beq name (codes "storage_address_mutation")
      then filter_slots (has_type (codes "address")) slots
      else if text_beq name (codes "storage_balance_scaling")
      then filter_slots looks_like_balance slots
      else if text_beq name (codes "storage_bool_flip")
      then filter_slots (has_type (codes "bool")) slots
      else if text_beq name (codes "storage_counter_increment")
      then filter_slots looks_like_counter slots
      else if text_beq name (codes "storage_mapping_key_mutation")
      then filter_slots (has_type (codes "mapping")) slots
      else if text_beq name (codes "storage_array_length_mutation")
      then filter_slots (has_type (codes "array")) slots
      else sort_slots above slots

  unfoldable pub generate_storage_mutation_plans :
      (Score → Score → Bool) → Ranked → List (StorageSlotInfo Score) → ℕ → List StorageMutationPlan
  unfolding storage_plans select_target_slots
  generate_storage_mutation_plans above s slots variants =
      storage_plans s 0 variants (select_target_slots above s.name slots)

  -- One strategy's part of the plan, before the rest.
  unfoldable pub add_strategy :
      (Score → Score → Bool)
      → List (StorageSlotInfo Score)
      → ℕ
      → Ranked
      → ℕ
      → MutationPlan
      → MutationPlan
  unfolding is_storage_strategy generate_storage_mutation_plans generate_input_mutation_plans
  add_strategy above slots input_data_length s variants rest =
      if is_storage_strategy s.name
      then record rest {
        storage_mutations =
            generate_storage_mutation_plans above s slots variants ++ rest.storage_mutations;
        priority_order = s.name ∷ rest.priority_order;
      }
      else record rest {
        input_mutations =
            generate_input_mutation_plans s input_data_length variants ++ rest.input_mutations;
        priority_order = s.name ∷ rest.priority_order;
      }

  -- The loop over the ranked strategies, with the variants that are given out so far.
  unfoldable pub allocate :
      (Score → Score → Bool)
      → List (StorageSlotInfo Score)
      → ℕ
      → ℕ
      → ℕ
      → ℕ
      → List Ranked
      → MutationPlan
  unfolding add_strategy
  allocate above slots input_data_length batch per count [] = empty_plan batch
  allocate above slots input_data_length batch per count (s ∷ rest) =
      let n = variants_for batch per count in
      let more = allocate above slots input_data_length batch per (count + n) rest in
      if leb batch count
      then empty_plan batch
      else add_strategy above slots input_data_length s n more

  -- `none` is the panic of a division by zero when there is no strategy.
  unfoldable pub get_optimal_mutation_plan :
      (Score → Score → Bool)
      → ℕ
      → List Ranked
      → List (StorageSlotInfo Score)
      → ℕ
      → Option MutationPlan
  unfolding allocate
  get_optimal_mutation_plan above batch ranked slots input_data_length =
      if length ranked == 0
      then none
      else some (
          allocate above slots input_data_length batch (at_least_one (batch / length ranked)) 0
            ranked)

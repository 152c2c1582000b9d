-- ===== src/Planner/Learning.antt =====
-- tracing/mutation/smart_mutation_strategy.go: the state of SmartMutationStrategy and the operations
-- that change it. The averages are float64 values whose operations are a parameter. The batch size is
-- written out: for a size up to 200, and a count of results far below 2^50, the products by 1.1 and 0.9
-- and the comparisons with 0.3 and 0.1 have the integer results given here. A time is a number.
pub mod Sound
pub mod Counts
use autopatch.Common.{
  ℕ, ◌+◌, ◌*◌, ◌/◌, ◌≡◌, ◌↔◌, Bool, true, false, ◌&&◌, Option, none, some, List, [], ◌∷◌, ◌++◌, map,
  length, drop, ltb, ◌==◌, if◌then◌else◌, arith, ==_iff,
}
use autopatch.Common.Int.{ℤ, pos}
use autopatch.Common.GoMap.{Eq, lookup, insert}
use autopatch.Common.Text.{codes}
use autopatch.Concurrency.Cache.{SafeCache, new_safe_cache, set_value}
use autopatch.Storage.Label.{text_beq, text_beq_iff, text_eq}

pub record FloatOps (F : Type 0) : Type 0 where
  pub half : F
  pub three_tenths : F
  pub quotient : ℕ → ℕ → F
  pub blend : F → F → F  -- old * (1 - learningRate) + new * learningRate
  pub reaches : F → F → Bool  -- >=

-- The fields of a result that are read.
pub record MutationResult (F : Type 0) : Type 0 where
  pub variant : ℕ
  pub similarity_score : F
  pub success : Bool
  pub mutation_type : List ℕ

pub record MutationStrategy (F : Type 0) : Type 0 where
  pub priority : ℕ
  pub success_rate : F
  pub average_similarity : F
  pub total_attempts : ℕ
  pub successful_attempts : ℕ
  pub last_used : ℤ

-- The keys result_<type>_<variant> of the cache, which differ for different pairs.
abbrev pub ResultKey : Type 0
ResultKey = List ℕ × ℕ

abbrev pub key_beq : ResultKey → ResultKey → Bool
key_beq (s, m) (t, n) = text_beq s t && m == n

pub key_beq_iff : (a b : ResultKey) → (key_beq a b ≡ true) ↔ (a ≡ b)
key_beq_iff (s, m) (t, n) = ground (arith, text_beq_iff s t, ==_iff m n)

instance abbrev pub key_eq : Eq ResultKey
key_eq = record { beq = key_beq; beq_iff = key_beq_iff }

pub record SmartMutationStrategy (F : Type 0) : Type 0 where
  pub strategies : List (List ℕ × MutationStrategy F)
  pub recent_results : List (MutationResult F)
  pub max_recent_results : ℕ
  pub similarity_threshold : F
  pub adaptive_batch_size : ℕ
  pub min_batch_size : ℕ
  pub max_batch_size : ℕ
  pub total_mutations : ℕ
  pub high_similarity_count : ℕ
  pub result_cache : SafeCache ResultKey (MutationResult F)

-- The base strategies in the order of the source, with their priorities.
abbrev pub base_strategies : List (List ℕ × ℕ)
base_strategies =
    (codes "address_known_substitution", 8)
    ∷ (codes "address_nearby_mutation", 6)
    ∷ (codes "uint256_boundary_values", 7)
    ∷ (codes "uint256_step_increment", 5)
    ∷ (codes "uint256_multiplier", 4)
    ∷ (codes "bool_flip", 9)
    ∷ (codes "bytes_pattern_fill", 3)
    ∷ (codes "string_length_mutation", 6)
    ∷ (codes "storage_address_mutation", 8)
    ∷ (codes "storage_balance_scaling", 9)
    ∷ (codes "storage_bool_flip", 9)
    ∷ (codes "storage_counter_increment", 6)
    ∷ (codes "storage_mapping_key_mutation", 7)
    ∷ (codes "storage_array_length_mutation", 5)
    ∷ (codes "multi_slot_coordinated", 4)
    ∷ (codes "dependency_aware_mutation", 6)
    ∷ (codes "execution_path_guided", 7)
    ∷ []

abbrev pub clamp_size : ℕ → ℕ → ℕ → ℕ
clamp_size low high n = let m = if ltb n low then low else n in if ltb high m then high else m

-- The size by the share of results of a high similarity.
abbrev pub adapted : ℕ → ℕ → ℕ → ℕ
adapted high total size =
    if ltb (total * 3) (high * 10)
    then size * 11 / 10
    else if ltb (high * 10) total
    then size * 9 / 10
    else size

-- The calls that change the state, each with its time.
pub data Call (F : Type 0) : Type 0 where
  record_call : MutationResult F → ℤ → Call F
  threshold_call : F → Call F
  reset_call : Call F

module _ {F : Type 0} where
  unfoldable pub push_result :
      ℕ → MutationResult F → List (MutationResult F) → List (MutationResult F)
  push_result bound r results =
      let longer = results ++ r ∷ [] in if ltb bound (length longer) then drop 1 longer else longer

  unfoldable pub adapt_batch_size : SmartMutationStrategy F → SmartMutationStrategy F
  adapt_batch_size s = if ltb s.total_mutations 10 then s else record s {
    adaptive_batch_size =
        clamp_size s.min_batch_size s.max_batch_size
          (adapted s.high_similarity_count s.total_mutations s.adaptive_batch_size);
  }

  unfoldable pub update_similarity_threshold : F → SmartMutationStrategy F → SmartMutationStrategy F
  update_similarity_threshold threshold s = record s { similarity_threshold = threshold }

module _ {F : Type 0} (floats : FloatOps F) where
  unfoldable pub fresh_strategy : ℤ → ℕ → MutationStrategy F
  fresh_strategy now priority = record {
    priority = priority;
    success_rate = floats.half;
    average_similarity = floats.three_tenths;
    total_attempts = 0;
    successful_attempts = 0;
    last_used = now;
  }

  unfoldable pub initialize_base_strategies : ℤ → List (List ℕ × MutationStrategy F)
  unfolding fresh_strategy
  initialize_base_strategies now =
      map (λ (p : List ℕ × ℕ). (p.0, fresh_strategy now p.1)) base_strategies

  unfoldable pub new_smart_mutation_strategy : F → ℤ → SmartMutationStrategy F
  unfolding initialize_base_strategies new_safe_cache
  new_smart_mutation_strategy threshold now = record {
    strategies = initialize_base_strategies now;
    recent_results = [];
    max_recent_results = 1000;
    similarity_threshold = threshold;
    adaptive_batch_size = 50;
    min_batch_size = 10;
    max_batch_size = 200;
    total_mutations = 0;
    high_similarity_count = 0;
    result_cache = new_safe_cache (pos 300000000000);
  }

  unfoldable pub update_strategy : MutationResult F → ℤ → MutationStrategy F → MutationStrategy F
  update_strategy r now s =
      let attempts = s.total_attempts + 1 in
      let successes = s.successful_attempts + 1 in
      if r.success
      then record s {
        total_attempts = attempts;
        last_used = now;
        successful_attempts = successes;
        success_rate = floats.blend s.success_rate (floats.quotient successes attempts);
        average_similarity = floats.blend s.average_similarity r.similarity_score;
      }
      else record s { total_attempts = attempts; last_used = now }

  unfoldable pub update_found :
      MutationResult F
      → ℤ
      → Option (MutationStrategy F)
      → List (List ℕ × MutationStrategy F)
      → List (List ℕ × MutationStrategy F)
  unfolding update_strategy
  update_found r now none strategies = strategies
  update_found r now (some s) strategies =
      insert r.mutation_type (update_strategy r now s) strategies

  unfoldable pub update_strategies :
      MutationResult F → ℤ → List (List ℕ × MutationStrategy F) → List (List ℕ × MutationStrategy F)
  unfolding update_found
  update_strategies r now strategies =
      update_found r now (lookup r.mutation_type strategies) strategies

  abbrev pub count_high : F → MutationResult F → ℕ
  count_high threshold r = if floats.reaches r.similarity_score threshold then 1 else 0

  unfoldable pub record_mutation_result :
      MutationResult F → ℤ → SmartMutationStrategy F → SmartMutationStrategy F
  unfolding push_result update_strategies adapt_batch_size set_value
  record_mutation_result r now s =
      let counted = record s {
        recent_results = push_result s.max_recent_results r s.recent_results;
        strategies = update_strategies r now s.strategies;
        total_mutations = s.total_mutations + 1;
        high_similarity_count = s.high_similarity_count + count_high s.similarity_threshold r;
      } in
      let adjusted = adapt_batch_size counted in
      record adjusted {
        result_cache = set_value adjusted.result_cache (r.mutation_type, r.variant) r now;
      }

  unfoldable pub reset_strategy : MutationStrategy F → MutationStrategy F
  reset_strategy s = record s {
    total_attempts = 0;
    successful_attempts = 0;
    success_rate = floats.half;
    average_similarity = floats.three_tenths;
  }

  unfoldable pub reset_strategies : SmartMutationStrategy F → SmartMutationStrategy F
  unfolding reset_strategy
  reset_strategies s = record s {
    strategies = map (λ (p : List ℕ × MutationStrategy F). (p.0, reset_strategy p.1)) s.strategies;
    recent_results = [];
    total_mutations = 0;
    high_similarity_count = 0;
    adaptive_batch_size = 50;
  }

  unfoldable pub run_call : Call F → SmartMutationStrategy F → SmartMutationStrategy F
  unfolding record_mutation_result update_similarity_threshold reset_strategies
  run_call (record_call r now) s = record_mutation_result r now s
  run_call (threshold_call threshold) s = update_similarity_threshold threshold s
  run_call reset_call s = reset_strategies s

  unfoldable pub run_calls : List (Call F) → SmartMutationStrategy F → SmartMutationStrategy F
  unfolding run_call
  run_calls [] s = s
  run_calls (c ∷ cs) s = run_calls cs (run_call c s)

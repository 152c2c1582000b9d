-- ===== src/Modifier/Tests.antt =====
-- tracing/mutation/modifier.go on concrete call data.
use autopatch.Common.{
  some, All, ℕ, ◌/◌, ◌≡◌, ◌^◌, ◌≢◌, refl, ◌&&◌, List, [], ◌∷◌, ◌++◌, length, replicate, ltb, leb,
  arith, ◌≤◌,
}
use autopatch.Common.Int.{◌+ℤ◌}
use autopatch.Common.Text.{codes}
use autopatch.Mutation.Pick.{pick}
use autopatch.Storage.Bytes.{AreBytes, from_bytes}
use autopatch.Modifier.Outcome.{returned}
use autopatch.Modifier.Input.Keeps.{Keeps}
use autopatch.Modifier.Input.Selector.{modify_input_data-Keeps}
use autopatch.Modifier.Input.Panics.{is_panic, chooses_param, basic_panics_iff}
use autopatch.Modifier.Input.Steps.{param_start}
use autopatch.Tracing.Rules.{StorageSlotChange}
use autopatch.Modifier.Slots.{
  default_step_mutation_config, slot_change, generate_step_based_storage_modification,
}
use autopatch.Modifier.Slots.Genuine.{IsGenuine, storage_modification-IsGenuine}
use autopatch.Modifier.Input.{
  strategy_of, uint256_step_increment, modify_input_data_basic_strategy, run_strategy,
  mutate_bool_flip, with_param, flip_bool, word_at, stepped,
}

abbrev selector : List ℕ
selector = 171 ∷ 205 ∷ 239 ∷ 18 ∷ []

abbrev one_word : List ℕ
one_word = selector ++ (replicate 31 0 ++ 7 ∷ [])

abbrev full_word : List ℕ
full_word = selector ++ replicate 32 255

abbrev flipped : List ℕ
flipped = selector ++ (replicate 31 0 ++ 0 ∷ [])

flip_run : modify_input_data_basic_strategy one_word (codes "bool_flip") 0 ≡ returned flipped
unfolding modify_input_data_basic_strategy strategy_of run_strategy mutate_bool_flip with_param
    flip_bool
flip_run = refl

one_word-AreBytes : AreBytes one_word
one_word-AreBytes = ground arith

full_word-AreBytes : AreBytes full_word
full_word-AreBytes = ground arith

not_step : strategy_of (codes "bool_flip") ≢ uint256_step_increment
unfolding strategy_of
not_step = ground arith

modify_input_data-Keeps_example : Keeps 4 one_word flipped
modify_input_data-Keeps_example =
    modify_input_data-Keeps one_word (codes "bool_flip") 0 flipped one_word-AreBytes not_step
      flip_run

basic_panics_iff_example :
    is_panic (modify_input_data_basic_strategy selector (codes "bool_flip") 2)
    ≡ (leb 4 4 && ltb 4 36 && chooses_param (strategy_of (codes "bool_flip")))
basic_panics_iff_example = basic_panics_iff selector (codes "bool_flip") 2

large_sum : 256 ^ 32 ≤ stepped (word_at full_word (param_start full_word (0 / 8))) 0
unfolding from_bytes pick ◌+ℤ◌
large_sum = omega arith

abbrev stored : List (ℕ × ℕ)
stored = (1, 5) ∷ (2, 0) ∷ []

-- The ratio is the new value here.
abbrev ratio : ℕ → ℕ → ℕ
ratio original modified = modified

abbrev stored_changes : List (StorageSlotChange ℕ)
stored_changes = slot_change ratio 1 5 6 ∷ slot_change ratio 2 0 1 ∷ []

stored_run :
    generate_step_based_storage_modification ratio default_step_mutation_config stored
      (codes "step_based")
      0
    ≡ some stored_changes
unfolding generate_step_based_storage_modification pick
stored_run = refl

storage_modification-IsGenuine_example :
    (length stored_changes ≤ 3) × All (IsGenuine stored) stored_changes
storage_modification-IsGenuine_example =
    storage_modification-IsGenuine ratio default_step_mutation_config stored (codes "step_based") 0
      stored_changes (omega arith, (omega arith, tt)) stored_run

-- ===== src/Modifier/Slots.antt =====
-- tracing/mutation/modifier.go, generateStepBasedStorageModification: changes of stored values by steps.
-- The storage is a list of entries in the order in which the map is walked, and the list of steps is
-- given by its first entry and the rest. The ratio of a change is a float64 that a parameter computes.
pub mod Genuine
use autopatch.Common.{
  ℕ, zero, suc, ◌+◌, ◌-◌, ◌/◌, ◌%◌, ◌^◌, Bool, true, false, ◌&&◌, Option, none, some, List, [], ◌∷◌,
  get_or, ltb, leb, ◌==◌, if◌then◌else◌,
}
use autopatch.Common.Int.{ℤ, pos, negsuc, ◌+ℤ◌, ◌-ℤ◌, pos_part}
use autopatch.Common.Text.{codes}
use autopatch.Storage.Bytes.{to_hash}
use autopatch.Storage.Label.{text_beq}
use autopatch.Mutation.Pick.{pick}
use autopatch.Tracing.Rules.{StorageSlotChange, extract_slot_type, determine_change_type}

-- The fields that are read here.
pub record StepMutationConfig : Type 0 where
  pub storage_step : ℤ
  pub storage_steps : List ℤ
  pub enable_nearby : Bool
  pub enable_boundary : Bool
  pub max_changes : ℕ

abbrev pub default_step_mutation_config : StepMutationConfig
default_step_mutation_config = record {
  storage_step = pos 1;
  storage_steps =
      pos 10
      ∷ pos 100
      ∷ pos 1000
      ∷ negsuc 0
      ∷ negsuc 9
      ∷ negsuc 99
      ∷ negsuc 999
      ∷ pos 5
      ∷ negsuc 4
      ∷ pos 50
      ∷ negsuc 49
      ∷ [];
  enable_nearby = true;
  enable_boundary = false;
  max_changes = 3;
}

-- A sum is stored modulo 2^256, a difference is at least 0. The least int64 is its own negation, so that
-- its difference is a sum.
unfoldable pub apply_step_to_storage_value : ℕ → ℤ → ℕ
apply_step_to_storage_value original (pos zero) = original
apply_step_to_storage_value original (pos (suc n)) = to_hash (pos (original + suc n))
apply_step_to_storage_value original (negsuc n) =
    if n == 2 ^ 63 - 1 then to_hash (pos (original + 2 ^ 63)) else to_hash (pos (original - suc n))

-- step / 10, which rounds towards zero, or 1.
abbrev pub small_step : ℤ → ℤ
small_step (pos n) = if n / 10 == 0 then pos 1 else pos (n / 10)
small_step (negsuc n) = if suc n / 10 == 0 then pos 1 else negsuc (suc n / 10 - 1)

unfoldable pub nearby_value : ℕ → ℤ → ℕ → ℕ
nearby_value original step variant =
    if variant % 2 == 0
    then to_hash (pos original +ℤ small_step step)
    else to_hash (pos (pos_part (pos original -ℤ small_step step)))

abbrev pub boundary_values : List ℕ
boundary_values = 0 ∷ 1 ∷ 4294967295 ∷ (2 ^ 256 - 1) ∷ []

unfoldable pub modify_storage_by_step_strategy : StepMutationConfig → ℕ → List ℕ → ℤ → ℕ → ℕ
unfolding apply_step_to_storage_value nearby_value
modify_storage_by_step_strategy m original strategy step variant =
    if text_beq strategy (codes "nearby_values") && m.enable_nearby
    then nearby_value original step variant
    else if text_beq strategy (codes "boundary_values") && (m.enable_boundary && ltb variant 4)
    then get_or boundary_values variant 0
    else apply_step_to_storage_value original step

abbrev pub some_changes :
    {Ratio : Type 0} → List (StorageSlotChange Ratio) → Option (List (StorageSlotChange Ratio))
some_changes [] = none
some_changes (c ∷ cs) = some (c ∷ cs)

module _ {Ratio : Type 0} (ratio : ℕ → ℕ → Ratio) where
  unfoldable pub slot_change : ℕ → ℕ → ℕ → StorageSlotChange Ratio
  slot_change slot original modified = record {
    slot = slot;
    original = original;
    modified = modified;
    delta = pos modified -ℤ pos original;
    change_type = determine_change_type (pos original) (pos modified);
    change_ratio = ratio original modified;
    slot_type = extract_slot_type slot;
  }

  -- The loop over the storage, with the count of the changes so far.
  unfoldable pub collect_changes :
      StepMutationConfig → List ℕ → ℤ → ℕ → ℕ → List (ℕ × ℕ) → List (StorageSlotChange Ratio)
  unfolding modify_storage_by_step_strategy slot_change
  collect_changes m strategy step variant count [] = []
  collect_changes m strategy step variant count ((slot, original) ∷ rest) =
      let modified = modify_storage_by_step_strategy m original strategy step variant in
      let changed =
        slot_change slot original modified
        ∷ collect_changes m strategy step variant (count + 1) rest in
      let unchanged = collect_changes m strategy step variant count rest in
      if leb m.max_changes count then [] else if modified == original then unchanged else changed

  -- The changes of the modification, or none; its hash is computed from them.
  unfoldable pub generate_step_based_storage_modification :
      StepMutationConfig → List (ℕ × ℕ) → List ℕ → ℕ → Option (List (StorageSlotChange Ratio))
  unfolding collect_changes
  generate_step_based_storage_modification m storage strategy variant =
      some_changes
        (collect_changes m strategy (pick m.storage_step m.storage_steps variant) variant 0 storage)

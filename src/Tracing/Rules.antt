-- ===== src/Tracing/Rules.antt =====
-- tracing/utils/types.go: the protection rules that are made from the modification of a transaction.
-- A change's ratio is a float64 that is only compared with 0.1: its type and the comparison are
-- parameters. A value behind interface{} is a constructor for each dynamic type that is told apart.
-- The change of a parameter has only the fields that are read.
pub mod Ranges
pub mod Storage
use autopatch.Common.{
  ℕ, ◌+◌, ◌-◌, ◌/◌, ◌%◌, ◌^◌, Bool, true, false, ◌&&◌, ◌||◌, Option, none, some, List, [], ◌∷◌, map,
  ltb, ◌==◌, if◌then◌else◌,
}
use autopatch.Common.Int.{ℤ, pos, negsuc, ◌+ℤ◌, ◌-ℤ◌, ltb_ℤ}
use autopatch.Common.Text.{codes}
use autopatch.Storage.Bytes.{hash_bytes}
use autopatch.Storage.Label.{text_beq}

pub data Value : Type 0 where
  big : ℤ → Value
  byte : ℕ → Value  -- uint8
  number : ℤ → Value  -- int64, uint64, int and int8
  raw : List ℕ → Value
  other : Value

pub data CheckType : Type 0 where
  exact range pattern : CheckType

pub record ParameterChange (Ratio : Type 0) : Type 0 where
  pub index : ℕ
  pub name : List ℕ
  pub type_name : List ℕ
  pub original : Value
  pub modified : Value
  pub change_ratio : Ratio

pub record ParameterProtection : Type 0 where
  pub index : ℕ
  pub name : List ℕ
  pub type_name : List ℕ
  pub original_value : Value
  pub modified_value : Value
  pub check_type : CheckType
  pub bounds : Option (ℤ × ℤ)  -- MinValue and MaxValue

pub record InputModification (Ratio : Type 0) : Type 0 where
  pub function_selector : List ℕ
  pub function_name : List ℕ
  pub original_input : List ℕ
  pub modified_input : List ℕ
  pub parameter_changes : List (ParameterChange Ratio)
  pub modification_hash : ℕ

pub record InputProtectionRule : Type 0 where
  pub function_selector : List ℕ
  pub function_name : List ℕ
  pub original_input : List ℕ
  pub modified_input : List ℕ
  pub parameter_rules : List ParameterProtection
  pub input_hash : ℕ

pub record StorageSlotChange (Ratio : Type 0) : Type 0 where
  pub slot : ℕ
  pub original : ℕ
  pub modified : ℕ
  pub delta : ℤ
  pub change_type : List ℕ
  pub change_ratio : Ratio
  pub slot_type : List ℕ

pub record StorageProtectionRule : Type 0 where
  pub contract_address : ℕ
  pub storage_slot : ℕ
  pub original_value : ℕ
  pub modified_value : ℕ
  pub check_type : CheckType
  pub bounds : Option (ℤ × ℤ)
  pub slot_type : List ℕ

-- big.Int.Div by 5: Euclidean, so that it rounds down.
unfoldable pub div5 : ℤ → ℤ
div5 (pos n) = pos (n / 5)
div5 (negsuc n) = negsuc (n / 5)

abbrev pub floor_zero : ℤ → ℤ
floor_zero z = if ltb_ℤ z (pos 0) then pos 0 else z

unfoldable pub around : ℤ → ℤ × ℤ
unfolding div5
around v = (floor_zero (v -ℤ div5 v), v +ℤ div5 v)

unfoldable pub convert_to_big_int : Value → Option ℤ
convert_to_big_int (big v) = some v
convert_to_big_int (byte v) = some (pos v)
convert_to_big_int (number v) = some v
convert_to_big_int (raw v) = none
convert_to_big_int other = none

abbrev pub same_bounds : Option ℤ → ℤ × ℤ
same_bounds none = (pos 0, pos 0)
same_bounds (some v) = (v, v)

unfoldable pub calculate_value_range : Value → ℤ × ℤ
unfolding around convert_to_big_int
calculate_value_range (big v) = around v
calculate_value_range (byte v) =
    (floor_zero (pos v -ℤ pos 20), if ltb 255 (v + 20) then pos 255 else pos (v + 20))
calculate_value_range v = same_bounds (convert_to_big_int v)

unfoldable pub calculate_storage_value_range : ℕ → ℤ × ℤ
unfolding around
calculate_storage_value_range modified = around (pos modified)

unfoldable pub determine_change_type : ℤ → ℤ → List ℕ
determine_change_type original modified =
    if ltb_ℤ modified original
    then codes "decrement"
    else if ltb_ℤ original modified
    then codes "increment"
    else codes "unchanged"

abbrev pub count_zero : List ℕ → ℕ
count_zero [] = 0
count_zero (b ∷ bs) = (if b == 0 then 1 else 0) + count_zero bs

unfoldable pub extract_slot_type : ℕ → List ℕ
unfolding hash_bytes
extract_slot_type slot =
    if ltb slot 100
    then codes "simple"
    else if ltb 20 (count_zero (hash_bytes slot))
    then codes "mapping"
    else codes "array"

abbrev pub is_small_number : List ℕ → Bool
is_small_number t =
    text_beq t (codes "uint256")
    || text_beq t (codes "int256")
    || text_beq t (codes "uint8")
    || text_beq t (codes "int8")

abbrev pub bounds_for : CheckType → ℤ × ℤ → Option (ℤ × ℤ)
bounds_for range b = some b
bounds_for exact b = none
bounds_for pattern b = none

abbrev pub or_default {ℓ} : {A : Type ℓ} → A → List A → List A
or_default d [] = d ∷ []
or_default d (x ∷ xs) = x ∷ xs

-- The rule for no modification and for one without changes.
unfoldable pub default_storage_rule : ℕ → StorageProtectionRule
default_storage_rule addr = record {
  contract_address = addr;
  storage_slot = 0;
  original_value = 0;
  modified_value = 1;
  check_type = exact;
  bounds = none;
  slot_type = codes "simple";
}

-- The rule of a modification without changes.
unfoldable pub default_parameter_rule :
    {Ratio : Type 0} → InputModification Ratio → ParameterProtection
default_parameter_rule m = record {
  index = 0;
  name = codes "default_param";
  type_name = codes "bytes";
  original_value = raw m.original_input;
  modified_value = raw m.modified_input;
  check_type = exact;
  bounds = none;
}

module _ {Ratio : Type 0} (above_tenth : Ratio → Bool) where
  unfoldable pub determine_check_type : ParameterChange Ratio → CheckType
  determine_check_type change =
      if is_small_number change.type_name
      then (if above_tenth change.change_ratio then range else exact)
      else if text_beq change.type_name (codes "string")
      then pattern
      else exact

  unfoldable pub determine_storage_check_type : StorageSlotChange Ratio → CheckType
  determine_storage_check_type change = if above_tenth change.change_ratio then range else exact

  unfoldable pub parameter_rule : ParameterChange Ratio → ParameterProtection
  unfolding determine_check_type calculate_value_range
  parameter_rule change = record {
    index = change.index;
    name = change.name;
    type_name = change.type_name;
    original_value = change.original;
    modified_value = change.modified;
    check_type = determine_check_type change;
    bounds = bounds_for (determine_check_type change) (calculate_value_range change.modified);
  }

  unfoldable pub create_input_protection_rule :
      Option (InputModification Ratio) → InputProtectionRule
  unfolding parameter_rule default_parameter_rule
  create_input_protection_rule none = record {
    function_selector = 0 ∷ 0 ∷ 0 ∷ 0 ∷ [];
    function_name = codes "unknown";
    original_input = [];
    modified_input = [];
    parameter_rules = [];
    input_hash = 0;
  }
  create_input_protection_rule (some m) = record {
    function_selector = m.function_selector;
    function_name = m.function_name;
    original_input = m.original_input;
    modified_input = m.modified_input;
    parameter_rules =
        or_default (default_parameter_rule m) (map parameter_rule m.parameter_changes);
    input_hash = m.modification_hash;
  }

  unfoldable pub storage_rule : ℕ → StorageSlotChange Ratio → StorageProtectionRule
  unfolding determine_storage_check_type calculate_storage_value_range
  storage_rule addr change = record {
    contract_address = addr;
    storage_slot = if change.slot == 0 then 0 else change.slot;
    original_value = change.original;
    modified_value = change.modified;
    check_type = determine_storage_check_type change;
    bounds =
        bounds_for (determine_storage_check_type change)
          (calculate_storage_value_range change.modified);
    slot_type = change.slot_type;
  }

  unfoldable pub create_storage_protection_rules :
      Option (List (StorageSlotChange Ratio)) → ℕ → List StorageProtectionRule
  unfolding storage_rule default_storage_rule
  create_storage_protection_rules none addr = default_storage_rule addr ∷ []
  create_storage_protection_rules (some changes) addr =
      or_default (default_storage_rule addr) (map (storage_rule addr) changes)

-- ===== src/Analysis/Slots.antt =====
-- tracing/analysis/storage_analyzer.go, StorageAnalyzer. A slot and its value are numbers below 2^256,
-- and the storage is a list of entries in the order in which the map is walked. The float64 scores are
-- hundredths here: they are compared with 0.5 and 0.8 only. Descriptions and ABI types of slots, which
-- nothing reads, are left out.
pub mod Balances
use autopatch.Common.{
  ℕ, zero, suc, ◌+◌, ◌^◌, Bool, true, false, not, ◌&&◌, List, [], ◌∷◌, ◌++◌, map, drop, ltb, leb,
  ◌==◌, if◌then◌else◌,
}
use autopatch.Common.Text.{codes}
use autopatch.Storage.Bytes.{hash_bytes}
use autopatch.Modifier.Input.{zero_prefix}

pub data SlotType : Type 0 where
  uint256 address bool bytes32 string bytes mapping array struct unknown empty : SlotType

pub record SlotInfo : Type 0 where
  pub slot : ℕ
  pub value : ℕ
  pub slot_type : SlotType
  pub importance_score : ℕ
  pub mutation_strategies : List (List ℕ)

abbrev pub count_nonzero : List ℕ → ℕ
count_nonzero [] = 0
count_nonzero (b ∷ bs) = (if b == 0 then 0 else 1) + count_nonzero bs

unfoldable pub looks_like_address : ℕ → Bool
unfolding hash_bytes
looks_like_address value =
    let nonzero = count_nonzero (drop 12 (hash_bytes value)) in
    zero_prefix 12 (hash_bytes value)
    && not (nonzero == 0)
    && not (ltb nonzero 4 && ltb value 4294967296)

unfoldable pub looks_like_length : ℕ → Bool
looks_like_length value = leb value 10000

unfoldable pub infer_slot_type_from_value : ℕ → SlotType
unfolding looks_like_address looks_like_length
infer_slot_type_from_value value =
    if value == 0
    then empty
    else if value == 1
    then bool
    else if looks_like_address value
    then address
    else if ltb value 1000000
    then uint256
    else if looks_like_length value
    then uint256
    else bytes32

unfoldable pub looks_like_balance : ℕ → Bool
looks_like_balance value = leb (10 ^ 15) value && leb value (10 ^ 27)

abbrev pub base_importance : SlotType → ℕ → ℕ
base_importance address value = 90
base_importance uint256 value = if looks_like_balance value then 95 else 70
base_importance bool value = 60
base_importance mapping value = 85
base_importance array value = 75
base_importance empty value = 10
base_importance _ value = 50

unfoldable pub calculate_slot_importance : SlotInfo → ℕ
unfolding looks_like_balance
calculate_slot_importance s =
    let base = base_importance s.slot_type s.value in
    let importance = if ltb s.slot 10 then base + 10 else base in
    if ltb 100 importance then 100 else importance

abbrev pub strategies_of_type : SlotType → ℕ → List (List ℕ)
strategies_of_type address value =
    codes "known_addresses" ∷ codes "zero_address" ∷ codes "flip_bytes" ∷ []
strategies_of_type uint256 value =
    codes "boundary_values"
    ∷ codes "multiplication"
    ∷ codes "bit_patterns"
    ∷ (if looks_like_balance value then codes "balance_scaling" ∷ codes "zero_balance" ∷ [] else [])
strategies_of_type bool value = codes "boolean_flip" ∷ []
strategies_of_type bytes32 value =
    codes "byte_flip" ∷ codes "pattern_fill" ∷ codes "hash_collision" ∷ []
strategies_of_type mapping value = codes "key_mutation" ∷ codes "value_mutation" ∷ []
strategies_of_type array value = codes "length_mutation" ∷ codes "element_mutation" ∷ []
strategies_of_type _ value = []

unfoldable pub get_mutation_strategies_for_slot : SlotInfo → List (List ℕ)
unfolding looks_like_balance
get_mutation_strategies_for_slot s =
    codes "step_increment"
    ∷ codes "step_decrement"
    ∷ (strategies_of_type s.slot_type s.value
        ++ (if ltb 80 s.importance_score then codes "conservative_mutation" ∷ [] else []))

-- What both analyses make of an entry first.
unfoldable pub infer_slot : ℕ × ℕ → SlotInfo
unfolding infer_slot_type_from_value
infer_slot (slot, value) = record {
  slot = slot;
  value = value;
  slot_type = infer_slot_type_from_value value;
  importance_score = 0;
  mutation_strategies = [];
}

unfoldable pub score_slot : SlotInfo → SlotInfo
unfolding calculate_slot_importance get_mutation_strategies_for_slot
score_slot s =
    let scored = record s { importance_score = calculate_slot_importance s } in
    record scored { mutation_strategies = get_mutation_strategies_for_slot scored }

-- Whether the contract's ABI is found decides whether the slots get scores; its contents are not read.
unfoldable pub analyze_contract_storage : Bool → List (ℕ × ℕ) → List SlotInfo
unfolding infer_slot score_slot
analyze_contract_storage has_abi storage =
    if has_abi then map score_slot (map infer_slot storage) else map infer_slot storage

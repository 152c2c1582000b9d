-- ===== src/Analysis/Mutator.antt =====
-- tracing/analysis/storage_analyzer.go, StorageTypeMutator. The type-aware mutator, which may be missing,
-- is given by its chain, which is not
-- nil, and its random bytes.
pub mod Selected
pub mod Changed
use autopatch.Common.{
  ℕ, zero, suc, ◌+◌, ◌%◌, Bool, true, false, ◌&&◌, ◌||◌, Option, none, some, List, [], ◌∷◌, map,
  length, drop, get_or, set, ltb, leb, ◌==◌, if◌then◌else◌,
}
use autopatch.Common.Int.{ℤ, pos, negsuc, ◌+ℤ◌, pos_part}
use autopatch.Storage.Bytes.{from_bytes, hash_bytes, to_hash, flip}
use autopatch.Mutation.Pick.{pick}
use autopatch.Mutation.Dispatch.{
  Outcome, mutated, unsupported, crash, ArgValue, address, big, address_ty, uint_ty, mutate_by_type,
}
use autopatch.Analysis.Slots.{
  SlotType, uint256, address as address_slot, bool, bytes32, SlotInfo, analyze_contract_storage,
}

-- The slots of more than 0.5.
unfoldable pub important_slots : List SlotInfo → List SlotInfo
important_slots [] = []
important_slots (s ∷ slots) =
    let rest = important_slots slots in if ltb 50 s.importance_score then s ∷ rest else rest

-- The loop over the important slots, with the count of those that are selected.
unfoldable pub select_important : ℕ → ℕ → ℕ → List SlotInfo → List ℕ
select_important max_slots variant count [] = []
select_important max_slots variant count (s ∷ slots) =
    let with_it = s.slot ∷ select_important max_slots variant (count + 1) slots in
    let without = select_important max_slots variant count slots in
    if leb max_slots count then [] else if (variant + count) % 2 == 0 then with_it else without

abbrev pub nth_slot : List SlotInfo → ℕ → List ℕ
nth_slot [] i = []
nth_slot (s ∷ slots) i = (get_or (s ∷ slots) (i % suc (length slots)) s).slot ∷ []

-- When nothing is selected, one slot by the variant.
abbrev pub or_nth : List ℕ → List SlotInfo → ℕ → List ℕ
or_nth [] slots variant = nth_slot slots variant
or_nth (s ∷ ss) slots variant = s ∷ ss

unfoldable pub select_slots_for_mutation : List SlotInfo → ℕ → List ℕ
unfolding important_slots select_important
select_slots_for_mutation slots variant =
    let max_slots = if ltb (length slots) 3 then length slots else 3 in
    or_nth (select_important max_slots variant 0 (important_slots slots)) slots variant

abbrev pub should_mutate_slot : ℕ → List ℕ → Bool
should_mutate_slot slot [] = false
should_mutate_slot slot (s ∷ selected) = slot == s || should_mutate_slot slot selected

abbrev pub generic_steps : List ℤ
generic_steps = negsuc 0 ∷ pos 10 ∷ negsuc 9 ∷ pos 100 ∷ negsuc 99 ∷ pos 1000 ∷ negsuc 999 ∷ []

unfoldable pub mutate_generic_slot : ℕ → ℕ → ℕ
mutate_generic_slot value variant =
    to_hash (pos (pos_part (pos value +ℤ pick (pos 1) generic_steps variant)))

-- An address or a number of the mutator's answer, if it is one.
abbrev pub address_hash : Outcome → ℕ → ℕ
address_hash (mutated (address a)) fallback = from_bytes 0 a
address_hash _ fallback = fallback

abbrev pub number_hash : Outcome → ℕ → ℕ
number_hash (mutated (big z)) fallback = to_hash z
number_hash _ fallback = fallback

unfoldable pub mutate_address_slot : Option (ℕ × List ℕ) → ℕ → ℕ → ℕ
unfolding mutate_generic_slot
mutate_address_slot none value variant = mutate_generic_slot value variant
mutate_address_slot (some (chain_id, random)) value variant =
    address_hash
      (mutate_by_type (some chain_id) random address_ty (address (drop 12 (hash_bytes value)))
        variant)
      (mutate_generic_slot value variant)

unfoldable pub mutate_uint_slot : Option (ℕ × List ℕ) → ℕ → ℕ → ℕ
unfolding mutate_generic_slot
mutate_uint_slot none value variant = mutate_generic_slot value variant
mutate_uint_slot (some (chain_id, random)) value variant =
    number_hash (mutate_by_type (some chain_id) random (uint_ty 256) (big (pos value)) variant)
      (mutate_generic_slot value variant)

unfoldable pub mutate_bool_slot : ℕ → ℕ
mutate_bool_slot value = if value == 0 then 1 else 0

unfoldable pub flip_slot_rounds : ℕ → ℕ → List ℕ → List ℕ
flip_slot_rounds variant zero bs = bs
flip_slot_rounds variant (suc i) bs =
    let before = flip_slot_rounds variant i bs in
    let index = (variant + i) % length before in set before index (flip (get_or before index 0))

unfoldable pub mutate_bytes_slot : ℕ → ℕ → ℕ
unfolding flip_slot_rounds
mutate_bytes_slot value variant =
    from_bytes 0 (flip_slot_rounds variant (variant % 3 + 1) (hash_bytes value))

unfoldable pub mutate_slot_value : Option (ℕ × List ℕ) → SlotType → ℕ → ℕ → ℕ
unfolding mutate_address_slot mutate_uint_slot mutate_bool_slot mutate_bytes_slot
    mutate_generic_slot
mutate_slot_value mutator address_slot value variant = mutate_address_slot mutator value variant
mutate_slot_value mutator uint256 value variant = mutate_uint_slot mutator value variant
mutate_slot_value mutator bool value variant = mutate_bool_slot value
mutate_slot_value mutator bytes32 value variant = mutate_bytes_slot value variant
mutate_slot_value mutator _ value variant = mutate_generic_slot value variant

unfoldable pub mutate_entry : Option (ℕ × List ℕ) → List ℕ → ℕ → SlotInfo → ℕ × ℕ
unfolding mutate_slot_value
mutate_entry mutator selected variant s = (
  s.slot,
  if should_mutate_slot s.slot selected
      then mutate_slot_value mutator s.slot_type s.value variant
      else s.value,
)

unfoldable pub mutate_storage : Option (ℕ × List ℕ) → Bool → List (ℕ × ℕ) → ℕ → List (ℕ × ℕ)
unfolding mutate_entry select_slots_for_mutation
mutate_storage mutator has_abi storage variant =
    let slots = analyze_contract_storage has_abi storage in
    map (mutate_entry mutator (select_slots_for_mutation slots variant) variant) slots

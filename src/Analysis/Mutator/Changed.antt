-- ===== src/Analysis/Mutator/Changed.antt =====
-- tracing/analysis/storage_analyzer.go, MutateStorage: what the mutated storage is.
use mathlib.Core.List.{Mem, mem-map_of_mem}
use autopatch.Common.{
  ℕ, ◌<◌, ◌≡◌, refl, ap, ◌∙◌, subst, Bool, true, false, ◌||◌, Option, List, [], ◌∷◌, map, length,
  length-map, ◌==◌, if◌then◌else◌, arith,
}
use autopatch.Analysis.Slots.{
  SlotInfo, infer_slot, infer_slot_type_from_value, score_slot, analyze_contract_storage,
}
use autopatch.Analysis.Mutator.Selected.{select_slots-OneOf}
use autopatch.Analysis.Mutator.{mutate_slot_value, mutate_entry, mutate_storage}

abbrev pub keys_of : List (ℕ × ℕ) → List ℕ
keys_of entries = map (λ (p : ℕ × ℕ). p.0) entries

-- The entries with the value at one slot mutated by the type that is inferred from it.
abbrev pub change_at : Option (ℕ × List ℕ) → ℕ → ℕ → List (ℕ × ℕ) → List (ℕ × ℕ)
change_at mutator variant k [] = []
change_at mutator variant k ((slot, value) ∷ entries) =
    (
      slot,
      if slot == k
          then mutate_slot_value mutator (infer_slot_type_from_value value) value variant
          else value,
    )
    ∷ change_at mutator variant k entries

or_false : (b : Bool) → (b || false) ≡ b
or_false true = refl
or_false false = refl

module _ (mutator : Option (ℕ × List ℕ)) (variant k : ℕ) where
  plain-change :
      (entries : List (ℕ × ℕ))
      → map (mutate_entry mutator (k ∷ []) variant) (map infer_slot entries)
        ≡ change_at mutator variant k entries
  unfolding mutate_entry infer_slot
  plain-change [] = refl
  plain-change ((slot, value) ∷ entries) = rw (or_false (slot == k), plain-change entries) refl

  scored-change :
      (entries : List (ℕ × ℕ))
      → map (mutate_entry mutator (k ∷ []) variant) (map score_slot (map infer_slot entries))
        ≡ change_at mutator variant k entries
  unfolding mutate_entry infer_slot score_slot
  scored-change [] = refl
  scored-change ((slot, value) ∷ entries) = rw (or_false (slot == k), scored-change entries) refl

  analyzed-change :
      (has_abi : Bool) (entries : List (ℕ × ℕ))
      → map (mutate_entry mutator (k ∷ []) variant) (analyze_contract_storage has_abi entries)
        ≡ change_at mutator variant k entries
  unfolding analyze_contract_storage
  analyzed-change true entries = scored-change entries
  analyzed-change false entries = plain-change entries

slots_of-infer :
    (entries : List (ℕ × ℕ))
    → map (λ (s : SlotInfo). s.slot) (map infer_slot entries) ≡ keys_of entries
unfolding infer_slot
slots_of-infer [] = refl
slots_of-infer ((slot, value) ∷ entries) = ap (◌∷◌ slot) (slots_of-infer entries)

slots_of-score :
    (slots : List SlotInfo)
    → map (λ (s : SlotInfo). s.slot) (map score_slot slots) ≡ map (λ (s : SlotInfo). s.slot) slots
unfolding score_slot
slots_of-score [] = refl
slots_of-score (s ∷ slots) = ap (◌∷◌ s.slot) (slots_of-score slots)

slots_of-analyze :
    (has_abi : Bool) (entries : List (ℕ × ℕ))
    → map (λ (s : SlotInfo). s.slot) (analyze_contract_storage has_abi entries) ≡ keys_of entries
unfolding analyze_contract_storage
slots_of-analyze true entries = slots_of-score (map infer_slot entries) ∙ slots_of-infer entries
slots_of-analyze false entries = slots_of-infer entries

length-analyze :
    (has_abi : Bool) (entries : List (ℕ × ℕ))
    → length (analyze_contract_storage has_abi entries) ≡ length entries
unfolding analyze_contract_storage
length-analyze true entries =
    length-map (map infer_slot entries) score_slot ∙ length-map entries infer_slot
length-analyze false entries = length-map entries infer_slot

-- The mutated storage is the storage with exactly one of its slots mutated, by the type that its value
-- was taken for. There is at least one entry.
pub mutate_storage-change :
    (mutator : Option (ℕ × List ℕ)) (has_abi : Bool) (storage : List (ℕ × ℕ)) (variant : ℕ)
    → 0 < length storage
    → (k : ℕ) × Mem k (keys_of storage)
      × (mutate_storage mutator has_abi storage variant ≡ change_at mutator variant k storage)
unfolding mutate_storage
mutate_storage-change mutator has_abi storage variant h =
    let slots = analyze_contract_storage has_abi storage in
    let (s, member, one) =
      select_slots-OneOf slots variant (omega (arith, h, length-analyze has_abi storage)) in
    (
      s.slot,
      subst (λ (ks : List ℕ). Mem s.slot ks) (slots_of-analyze has_abi storage)
          (mem-map_of_mem (λ (s : SlotInfo). s.slot) member),
      ap (λ (selected : List ℕ). map (mutate_entry mutator selected variant) slots) one
          ∙ analyzed-change mutator variant s.slot has_abi storage,
    )

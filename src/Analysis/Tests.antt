-- ===== src/Analysis/Tests.antt =====
-- tracing/analysis/storage_analyzer.go on concrete storage.
use mathlib.Core.List.{Mem}
use autopatch.Common.{ℕ, ◌*◌, ◌^◌, ◌≡◌, refl, true, none, List, [], ◌∷◌, arith}
use autopatch.Analysis.Slots.{SlotInfo, address, looks_like_balance, infer_slot_type_from_value}
use autopatch.Analysis.Slots.Balances.{balance-address}
use autopatch.Analysis.Mutator.{mutate_storage}
use autopatch.Analysis.Mutator.Changed.{keys_of, change_at, mutate_storage-change}

abbrev storage : List (ℕ × ℕ)
storage = (0, 1) ∷ (1, 5000) ∷ (2, 3 * 10 ^ 18) ∷ []

ether_looks : looks_like_balance (3 * 10 ^ 18) ≡ true
unfolding looks_like_balance
ether_looks = refl

-- Three ether.
balance-address_example : infer_slot_type_from_value (3 * 10 ^ 18) ≡ address
balance-address_example = balance-address (3 * 10 ^ 18) ether_looks

abbrev slot_at : ℕ → SlotInfo
slot_at n = record {
  slot = n;
  value = 5;
  slot_type = address;
  importance_score = 90;
  mutation_strategies = [];
}

mutate_storage-change_example :
    (k : ℕ) × Mem k (keys_of storage)
    × (mutate_storage none true storage 4 ≡ change_at none 4 k storage)
mutate_storage-change_example = mutate_storage-change none true storage 4 (omega arith)

-- ===== src/Planner/Plan/Targets.antt =====
-- tracing/mutation/smart_mutation_strategy.go, GetOptimalMutationPlan: what the plan's mutations are
-- aimed at.
use mathlib.Core.List.{Mem}
use autopatch.Common.{
  ℕ, zero, suc, ◌+◌, ◌-◌, ◌*◌, ◌/◌, ◌≤◌, ◌≡◌, refl, Bool, true, false, inl, inr, List, [], ◌∷◌, leb,
  ◌==◌, if◌then◌else◌, arith, Bool-cases,
}
use autopatch.Common.Text.{codes}
use autopatch.Common.Members.{All-append, All-Mem_self}
use autopatch.Storage.Bytes.{All}
use autopatch.Storage.Label.{text_beq}
use autopatch.Planner.Plan.{
  StorageSlotInfo, Ranked, StorageMutationPlan, InputMutationPlan, MutationPlan,
  is_storage_strategy, select_target_positions, positions_from, input_plans, storage_plans,
  generate_input_mutation_plans, generate_storage_mutation_plans, filter_slots, insert_slot,
  sort_slots, select_target_slots, has_type, looks_like_balance, looks_like_counter, add_strategy,
  variants_for, allocate,
}

-- The whole word lies in the call data.
abbrev pub InData : ℕ → ℕ → Type 0
InData len i = 4 + i * 32 + 32 ≤ len

positions-InData : (len i n : ℕ) → 4 + (i + n) * 32 ≤ len → All (InData len) (positions_from i n)
positions-InData len i zero h = tt
positions-InData len i (suc n) h =
    (omega (arith, h), positions-InData len (i + 1) n (omega (arith, h)))

selected-InData : (len : ℕ) → All (InData len) (select_target_positions len)
unfolding select_target_positions
selected-InData len = elim (Bool-cases (leb len 4)) [
  | inl short ↦ rw short tt
  | inr long ↦ elim (Bool-cases ((len - 4) / 32 == 0)) [
    | inl e ↦ rw (long, e) tt
    | inr e ↦ rw (long, e) (positions-InData len 0 ((len - 4) / 32) (ground (arith, long)))
  ]
]

input_plans-InData :
    (len : ℕ) (s : Ranked) (i n : ℕ) (ts : List ℕ)
    → All (InData len) ts
    → All (λ p. InData len p.target_arg_index) (input_plans s i n ts)
unfolding input_plans
input_plans-InData len s i zero ts h = tt
input_plans-InData len s i (suc n) [] h = tt
input_plans-InData len s i (suc n) (t ∷ ts) h = (h.0, input_plans-InData len s (i + 1) n ts h.1)

module _ {Score : Type 0} where
  -- A property of all slots is one of those that a strategy selects.
  module _ (P : StorageSlotInfo Score → Type 0) where
    filter-All :
        (test : StorageSlotInfo Score → Bool) (slots : List (StorageSlotInfo Score))
        → All P slots
        → All P (filter_slots test slots)
    unfolding filter_slots
    filter-All test [] h = tt
    filter-All test (s ∷ slots) h = elim (Bool-cases (test s)) [
      | inl e ↦ rw e (h.0, filter-All test slots h.1)
      | inr e ↦ rw e (filter-All test slots h.1)
    ]

    insert-All :
        (above : Score → Score → Bool) (s : StorageSlotInfo Score)
        (slots : List (StorageSlotInfo Score))
        → P s
        → All P slots
        → All P (insert_slot above s slots)
    unfolding insert_slot
    insert-All above s [] p h = (p, tt)
    insert-All above s (t ∷ ts) p h =
        elim (Bool-cases (above t.importance_score s.importance_score)) [
          | inl e ↦ rw e (h.0, insert-All above s ts p h.1)
          | inr e ↦ rw e (p, h)
        ]

    sort-All :
        (above : Score → Score → Bool) (slots : List (StorageSlotInfo Score))
        → All P slots
        → All P (sort_slots above slots)
    unfolding sort_slots
    sort-All above [] h = tt
    sort-All above (s ∷ slots) h =
        insert-All above s (sort_slots above slots) h.0 (sort-All above slots h.1)

    either-All :
        (b : Bool) (xs ys : List (StorageSlotInfo Score))
        → All P xs
        → All P ys
        → All P (if b then xs else ys)
    either-All true xs ys h g = h
    either-All false xs ys h g = g

    selected-All :
        (above : Score → Score → Bool) (name : List ℕ) (slots : List (StorageSlotInfo Score))
        → All P slots
        → All P (select_target_slots above name slots)
    unfolding select_target_slots
    selected-All above name slots h =
        either-All (text_beq name (codes "storage_address_mutation")) _ _
          (filter-All (has_type (codes "address")) slots h)
          (either-All (text_beq name (codes "storage_balance_scaling")) _ _
            (filter-All looks_like_balance slots h)
            (either-All (text_beq name (codes "storage_bool_flip")) _ _
              (filter-All (has_type (codes "bool")) slots h)
              (either-All (text_beq name (codes "storage_counter_increment")) _ _
                (filter-All looks_like_counter slots h)
                (either-All (text_beq name (codes "storage_mapping_key_mutation")) _ _
                  (filter-All (has_type (codes "mapping")) slots h)
                  (either-All (text_beq name (codes "storage_array_length_mutation")) _ _
                    (filter-All (has_type (codes "array")) slots h) (sort-All above slots h))))))

  -- The mutation is of one of the slots, of its type.
  abbrev pub OfSlot : List (StorageSlotInfo Score) → StorageMutationPlan → Type 0
  OfSlot slots p =
      (s : StorageSlotInfo Score) × Mem s slots
      × (p.target_slot ≡ s.slot)
      × (p.slot_type ≡ s.slot_type)

  storage_plans-OfSlot :
      (slots : List (StorageSlotInfo Score)) (s : Ranked) (i n : ℕ)
      (ts : List (StorageSlotInfo Score))
      → All (λ t. Mem t slots) ts
      → All (OfSlot slots) (storage_plans s i n ts)
  unfolding storage_plans
  storage_plans-OfSlot slots s i zero ts h = tt
  storage_plans-OfSlot slots s i (suc n) [] h = tt
  storage_plans-OfSlot slots s i (suc n) (t ∷ ts) h =
      ((t, h.0, refl, refl), storage_plans-OfSlot slots s (i + 1) n ts h.1)

  module _ (above : Score → Score → Bool) (slots : List (StorageSlotInfo Score)) (len : ℕ) where
    abbrev Aimed : MutationPlan → Type 0
    Aimed p =
        All (OfSlot slots) p.storage_mutations
        × All (λ (i : InputMutationPlan). InData len i.target_arg_index) p.input_mutations

    add_strategy-Aimed :
        (s : Ranked) (n : ℕ) (rest : MutationPlan)
        → Aimed rest
        → Aimed (add_strategy above slots len s n rest)
    unfolding add_strategy generate_storage_mutation_plans generate_input_mutation_plans
    add_strategy-Aimed s n rest h = elim (Bool-cases (is_storage_strategy s.name)) [
      | inl e ↦
          let targets = select_target_slots above s.name slots in
          let selected = selected-All (λ t. Mem t slots) above s.name slots (All-Mem_self slots) in
          rw e (
            All-append (OfSlot slots) (storage_plans s 0 n targets) rest.storage_mutations
                (storage_plans-OfSlot slots s 0 n targets selected) h.0,
            h.1,
          )
      | inr e ↦
          let targets = select_target_positions len in
          rw e (
            h.0,
            All-append (λ (i : InputMutationPlan). InData len i.target_arg_index)
                (input_plans s 0 n targets) rest.input_mutations
                (input_plans-InData len s 0 n targets (selected-InData len)) h.1,
          )
    ]

    -- Whatever the ranking, every storage mutation of a plan is aimed at one of the slots, with that
    -- slot's type, and every mutation of call data at a parameter that lies in the call data whole.
    pub allocate-Aimed :
        (batch per count : ℕ) (ranked : List Ranked)
        → All (OfSlot slots) (allocate above slots len batch per count ranked).storage_mutations
          × All
              (λ (i : InputMutationPlan). InData len i.target_arg_index)
              (allocate above slots len batch per count ranked).input_mutations
    unfolding allocate
    allocate-Aimed batch per count [] = (tt, tt)
    allocate-Aimed batch per count (s ∷ ranked) =
        let n = variants_for batch per count in
        let more = allocate above slots len batch per (count + n) ranked in
        elim (Bool-cases (leb batch count)) [
          | inl e ↦ rw e (tt, tt)
          | inr e ↦ rw e (add_strategy-Aimed s n more (allocate-Aimed batch per (count + n) ranked))
        ]

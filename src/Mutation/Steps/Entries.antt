-- ===== src/Mutation/Steps/Entries.antt =====
-- tracing/mutation/mutation_manager.go, GenerateStepBasedStorageChanges: which entries are changed.
use autopatch.Common.{
  ℕ, zero, suc, ◌+◌, ◌%◌, ◌≤◌, ◌≡◌, refl, List, [], ◌∷◌, map, drop, arith, leb, ap, true,
}
use autopatch.Common.Int.{ℤ}
use autopatch.Mutation.Pick.{pick}
use autopatch.Mutation.Steps.{MutationConfig, change_entries, generate_step_based_storage_changes}

abbrev pub slots : List (ℕ × ℕ) → List ℕ
slots entries = map (λ (p : ℕ × ℕ). p.0) entries

change_entries-slots :
    (step : ℤ) (variant bound i : ℕ) (entries : List (ℕ × ℕ))
    → slots (change_entries step variant bound i entries) ≡ slots entries
unfolding change_entries
change_entries-slots step variant bound i [] = refl
change_entries-slots step variant bound i ((k, v) ∷ rest) =
    ap (◌∷◌ k) (change_entries-slots step variant bound (i + 1) rest)

-- Past the bound nothing changes.
change_entries-past :
    (step : ℤ) (variant bound i : ℕ) (entries : List (ℕ × ℕ))
    → bound ≤ i
    → change_entries step variant bound i entries ≡ entries
unfolding change_entries
change_entries-past step variant bound i [] h = refl
change_entries-past step variant bound i ((k, v) ∷ rest) h =
    let past : leb bound i ≡ true = ground arith in
    rw (past, change_entries-past step variant bound (i + 1) rest (omega (arith, h))) refl

change_entries-rest :
    (step : ℤ) (variant bound i n : ℕ) (entries : List (ℕ × ℕ))
    → bound ≤ i + n
    → drop n (change_entries step variant bound i entries) ≡ drop n entries
unfolding change_entries
change_entries-rest step variant bound i zero entries h =
    change_entries-past step variant bound i entries (omega (arith, h))
change_entries-rest step variant bound i (suc n) [] h = refl
change_entries-rest step variant bound i (suc n) ((k, v) ∷ rest) h =
    change_entries-rest step variant bound (i + 1) n rest (omega (arith, h))

-- The changed storage has the slots of the original, and only the first variant % max + 1 entries, in
-- the order in which the map is walked, can have another value.
pub storage_changes-slots :
    (m : MutationConfig) (entries : List (ℕ × ℕ)) (variant : ℕ)
    → (slots (generate_step_based_storage_changes m entries variant) ≡ slots entries)
      × (drop
            (variant % m.max_mutations + 1)
            (generate_step_based_storage_changes m entries variant)
          ≡ drop (variant % m.max_mutations + 1) entries)
unfolding generate_step_based_storage_changes
storage_changes-slots m entries variant =
    let step = pick m.storage_step m.storage_steps variant in
    let bound = variant % m.max_mutations + 1 in
    (
      change_entries-slots step variant bound 0 entries,
      change_entries-rest step variant bound 0 bound entries (omega arith),
    )

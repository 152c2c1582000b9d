-- ===== src/Modifier/Slots/Genuine.antt =====
-- tracing/mutation/modifier.go, generateStepBasedStorageModification: what the changes are.
use mathlib.Core.List.{Mem, mem-cons_self, mem-cons_of_mem}
use autopatch.Common.{
  ℕ, zero, suc, ◌+◌, ◌-◌, ◌%◌, ◌^◌, ◌≤◌, ◌<◌, ◌≡◌, ◌≢◌, refl, subst, Bool, true, false, ◌&&◌, inl,
  inr, Option, none, some, List, [], ◌∷◌, length, get_or, ltb, leb, ◌==◌, if◌then◌else◌, arith,
  Bool-cases, All, ==_iff,
}
use autopatch.Common.Int.{ℤ, pos, negsuc, ◌+ℤ◌, ◌-ℤ◌, pos_part}
use autopatch.Common.Text.{codes}
use autopatch.Storage.Bytes.{to_hash}
use autopatch.Storage.Label.{text_beq}
use autopatch.Mutation.Pick.{pick}
use autopatch.Tracing.Rules.{StorageSlotChange}
use autopatch.Modifier.Slots.{
  StepMutationConfig, apply_step_to_storage_value, small_step, nearby_value, boundary_values,
  modify_storage_by_step_strategy, slot_change, collect_changes, some_changes,
  generate_step_based_storage_modification,
}

to_hash-lt : (z : ℤ) → to_hash z < 2 ^ 256
to_hash-lt (pos n) = omega arith
to_hash-lt (negsuc n) = omega arith

if-lt : (b : Bool) (x y : ℕ) → x < 2 ^ 256 → y < 2 ^ 256 → (if b then x else y) < 2 ^ 256
if-lt true x y h g = h
if-lt false x y h g = g

apply-lt :
    (original : ℕ) (step : ℤ)
    → original < 2 ^ 256
    → apply_step_to_storage_value original step < 2 ^ 256
unfolding apply_step_to_storage_value
apply-lt original (pos zero) h = h
apply-lt original (pos (suc n)) h = to_hash-lt (pos (original + suc n))
apply-lt original (negsuc n) h =
    if-lt (n == 2 ^ 63 - 1) _ _ (to_hash-lt (pos (original + 2 ^ 63)))
      (to_hash-lt (pos (original - suc n)))

boundary-lt : (variant : ℕ) → get_or boundary_values variant 0 < 2 ^ 256
boundary-lt zero = omega arith
boundary-lt (suc zero) = omega arith
boundary-lt (suc (suc zero)) = omega arith
boundary-lt (suc (suc (suc zero))) = omega arith
boundary-lt (suc (suc (suc (suc n)))) = omega arith

modified-lt :
    (m : StepMutationConfig) (original : ℕ) (strategy : List ℕ) (step : ℤ) (variant : ℕ)
    → original < 2 ^ 256
    → modify_storage_by_step_strategy m original strategy step variant < 2 ^ 256
unfolding modify_storage_by_step_strategy nearby_value
modified-lt m original strategy step variant h =
    if-lt (text_beq strategy (codes "nearby_values") && m.enable_nearby)
      (nearby_value original step variant) _
      (if-lt (variant % 2 == 0) (to_hash (pos original +ℤ small_step step)) _
        (to_hash-lt (pos original +ℤ small_step step))
        (to_hash-lt (pos (pos_part (pos original -ℤ small_step step)))))
      (if-lt (text_beq strategy (codes "boundary_values") && (m.enable_boundary && ltb variant 4))
        (get_or boundary_values variant 0) (apply_step_to_storage_value original step)
        (boundary-lt variant) (apply-lt original step h))

-- A change of an entry of the storage to another word, with its difference.
pub record IsGenuine {Ratio : Type 0} (storage : List (ℕ × ℕ)) (c : StorageSlotChange Ratio)
    : Type 0 where
  pub of_entry : Mem (c.slot, c.original) storage
  pub is_change : c.modified ≢ c.original
  pub fits_word : c.modified < 2 ^ 256
  pub exact_delta : c.delta ≡ pos c.modified -ℤ pos c.original

module _ {Ratio : Type 0} (ratio : ℕ → ℕ → Ratio) where
  new_change :
      (storage : List (ℕ × ℕ)) (slot original modified : ℕ)
      → Mem (slot, original) storage
      → (modified == original) ≡ false
      → modified < 2 ^ 256
      → IsGenuine storage (slot_change ratio slot original modified)
  unfolding slot_change
  new_change storage slot original modified m ne lt = record {
    of_entry = m;
    is_change = λ e. true-false ((==_iff modified original).1 e) ne;
    fits_word = lt;
    exact_delta = refl;
  }
    where
      true-false : {c : Bool} → c ≡ true → c ≡ false → ⊥
      true-false e f = ground (arith, e, f)

  module _ (m : StepMutationConfig) (strategy : List ℕ) (step : ℤ) (variant : ℕ) where
    changes-IsGenuine :
        (count : ℕ) (rest storage : List (ℕ × ℕ))
        → ((p : ℕ × ℕ) → Mem p rest → Mem p storage)
        → All (λ (p : ℕ × ℕ). p.1 < 2 ^ 256) rest
        → All (IsGenuine storage) (collect_changes ratio m strategy step variant count rest)
    unfolding collect_changes
    changes-IsGenuine count [] storage inside words = tt
    changes-IsGenuine count ((slot, original) ∷ rest) storage inside words =
        let modified = modify_storage_by_step_strategy m original strategy step variant in
        let later : (p : ℕ × ℕ) → Mem p rest → Mem p storage =
          λ p member. inside p (mem-cons_of_mem (slot, original) member) in
        elim (Bool-cases (leb m.max_changes count)) [
          | inl e ↦ rw e tt
          | inr e ↦ elim (Bool-cases (modified == original)) [
            | inl same ↦ rw (e, same) (changes-IsGenuine count rest storage later words.1)
            | inr other ↦
                rw (e, other)
                  (
                    new_change storage slot original modified
                        (inside (slot, original) mem-cons_self) other
                        (modified-lt m original strategy step variant words.0),
                    changes-IsGenuine (count + 1) rest storage later words.1,
                  )
          ]
        ]

    length-changes :
        (count : ℕ) (rest : List (ℕ × ℕ))
        → length (collect_changes ratio m strategy step variant count rest) ≤ m.max_changes - count
    unfolding collect_changes
    length-changes count [] = omega arith
    length-changes count ((slot, original) ∷ rest) =
        let modified = modify_storage_by_step_strategy m original strategy step variant in
        elim (Bool-cases (leb m.max_changes count)) [
          | inl e ↦ rw e (omega arith)
          | inr e ↦
              let room : count < m.max_changes = ground (arith, e) in
              elim (Bool-cases (modified == original)) [
                | inl same ↦ rw (e, same) (length-changes count rest)
                | inr other ↦ rw (e, other) (omega (arith, room, length-changes (count + 1) rest))
              ]
        ]

  Kept : ℕ → List (ℕ × ℕ) → Option (List (StorageSlotChange Ratio)) → Type 0
  Kept max storage none = Unit
  Kept max storage (some cs) = (length cs ≤ max) × All (IsGenuine storage) cs

  found-Kept :
      (max : ℕ) (storage : List (ℕ × ℕ)) (cs : List (StorageSlotChange Ratio))
      → length cs ≤ max
      → All (IsGenuine storage) cs
      → Kept max storage (some_changes cs)
  unfolding Kept
  found-Kept max storage [] l h = tt
  found-Kept max storage (c ∷ cs) l h = (l, h)

  -- The modification of a storage of 256-bit words has at most max_changes changes, and each is of an
  -- entry of the storage, to another 256-bit word, with the difference of the two as its delta.
  pub storage_modification-IsGenuine :
      (m : StepMutationConfig) (storage : List (ℕ × ℕ)) (strategy : List ℕ) (variant : ℕ)
      (changes : List (StorageSlotChange Ratio))
      → All (λ (p : ℕ × ℕ). p.1 < 2 ^ 256) storage
      → generate_step_based_storage_modification ratio m storage strategy variant ≡ some changes
      → (length changes ≤ m.max_changes) × All (IsGenuine storage) changes
  unfolding generate_step_based_storage_modification Kept
  storage_modification-IsGenuine m storage strategy variant changes words e =
      let step = pick m.storage_step m.storage_steps variant in
      subst (Kept m.max_changes storage) e (
        found-Kept m.max_changes storage (collect_changes ratio m strategy step variant 0 storage)
          (omega (arith, length-changes m strategy step variant 0 storage))
          (changes-IsGenuine m strategy step variant 0 storage storage (λ p member. member) words))

-- ===== src/Tracing/Rules/Storage.antt =====
-- tracing/utils/types.go, CreateStorageProtectionRules and CreateInputProtectionRule: what the rules
-- cover.
use autopatch.Common.{
  ℕ, ◌≡◌, refl, Bool, true, false, Option, none, some, List, [], ◌∷◌, map, ◌==◌, if◌then◌else◌,
  Bool-cases, inl, inr, ==_iff, sym,
}
use autopatch.Common.Int.{ℤ, pos}
use autopatch.Storage.Bytes.{All}
use autopatch.Tracing.Rules.Ranges.{Within, around-Within}
use autopatch.Tracing.Rules.{
  CheckType, exact, range, pattern, StorageSlotChange, StorageProtectionRule, bounds_for,
  or_default, determine_storage_check_type, default_storage_rule, storage_rule,
  create_storage_protection_rules, calculate_storage_value_range,
}

-- The bounds that a rule has, if it has to have some, contain the number.
abbrev pub Bounded : CheckType → Option (ℤ × ℤ) → ℕ → Type 0
Bounded range (some b) n = Within b (pos n)
Bounded range none n = ⊥
Bounded exact b n = b ≡ none
Bounded pattern b n = ⊥

-- A rule for the contract that its own modified value meets.
abbrev pub Covers : ℕ → StorageProtectionRule → Type 0
Covers addr r = (r.contract_address ≡ addr) × Bounded r.check_type r.bounds r.modified_value

slot_kept : (n : ℕ) → (if n == 0 then 0 else n) ≡ n
slot_kept n = elim (Bool-cases (n == 0)) [
  | inl e ↦ rw e (sym ((==_iff n 0).0 e))
  | inr e ↦ rw e refl
]

module _ {Ratio : Type 0} (above_tenth : Ratio → Bool) where
  bounded :
      (b : Bool) (n : ℕ)
      → Bounded
          (if b then range else exact)
          (bounds_for (if b then range else exact) (calculate_storage_value_range n))
          n
  unfolding calculate_storage_value_range
  bounded true n = around-Within n
  bounded false n = refl

  rule-Covers :
      (addr : ℕ) (c : StorageSlotChange Ratio) → Covers addr (storage_rule above_tenth addr c)
  unfolding storage_rule determine_storage_check_type
  rule-Covers addr c = (refl, bounded (above_tenth c.change_ratio) c.modified)

  rules-Covers :
      (addr : ℕ) (cs : List (StorageSlotChange Ratio))
      → All (Covers addr) (map (storage_rule above_tenth addr) cs)
  rules-Covers addr [] = tt
  rules-Covers addr (c ∷ cs) = (rule-Covers addr c, rules-Covers addr cs)

  default-Covers : (addr : ℕ) → Covers addr (default_storage_rule addr)
  unfolding default_storage_rule
  default-Covers addr = (refl, refl)

  slots_kept :
      (cs : List (StorageSlotChange Ratio)) (addr : ℕ)
      → map (λ (r : StorageProtectionRule). r.storage_slot) (map (storage_rule above_tenth addr) cs)
        ≡ map (λ (c : StorageSlotChange Ratio). c.slot) cs
  unfolding storage_rule
  slots_kept [] addr = refl
  slots_kept (c ∷ cs) addr = rw (slot_kept c.slot, slots_kept cs addr) refl

  -- The slots that the rules are for.
  abbrev pub slots_of : Option (List (StorageSlotChange Ratio)) → List ℕ
  slots_of none = 0 ∷ []
  slots_of (some cs) = or_default 0 (map (λ (c : StorageSlotChange Ratio). c.slot) cs)

  -- There is a rule for the slot of every change, in order, or one for slot 0 if there is no change.
  -- Every rule is for the contract, and the modified value that it was made from lies within the bounds
  -- of a rule that is checked by range, while one that is checked exactly has no bounds.
  pub storage_rules-Covers :
      (changes : Option (List (StorageSlotChange Ratio))) (addr : ℕ)
      → (map
            (λ (r : StorageProtectionRule). r.storage_slot)
            (create_storage_protection_rules above_tenth changes addr)
          ≡ slots_of changes)
        × All (Covers addr) (create_storage_protection_rules above_tenth changes addr)
  unfolding create_storage_protection_rules default_storage_rule
  storage_rules-Covers none addr = (refl, (default-Covers addr, tt))
  storage_rules-Covers (some []) addr = (refl, (default-Covers addr, tt))
  storage_rules-Covers (some (c ∷ cs)) addr =
      (slots_kept (c ∷ cs) addr, (rule-Covers addr c, rules-Covers addr cs))

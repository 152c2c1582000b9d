-- ===== src/Analysis/Mutator/Selected.antt =====
-- tracing/analysis/storage_analyzer.go, MutateStorage: which slots are mutated.
use mathlib.Core.List.{Mem}
use native.Mathlib.Nat.{mod-lt}
use autopatch.Common.{
  ℕ, suc, ◌+◌, ◌%◌, ◌<◌, ◌≡◌, refl, ap, false, inl, inr, List, [], ◌∷◌, length, get_or, ltb, leb,
  ◌==◌, if◌then◌else◌, arith, Bool-cases,
}
use autopatch.Common.Members.{All-Mem_self, get_or-Mem}
use autopatch.Storage.Bytes.{All}
use autopatch.Analysis.Slots.{SlotInfo}
use autopatch.Analysis.Mutator.{
  important_slots, select_important, nth_slot, or_nth, select_slots_for_mutation,
}

-- Once the sum of the variant and the count is odd it stays odd.
select-odd :
    (m variant count : ℕ) (slots : List SlotInfo)
    → ((variant + count) % 2 == 0) ≡ false
    → select_important m variant count slots ≡ []
unfolding select_important
select-odd m variant count [] h = refl
select-odd m variant count (s ∷ slots) h = elim (Bool-cases (leb m count)) [
  | inl e ↦ rw e refl
  | inr e ↦ rw (e, h) (select-odd m variant count slots h)
]

-- One of the slots.
abbrev pub OneOf : List SlotInfo → List ℕ → Type 0
OneOf slots selected = (s : SlotInfo) × Mem s slots × (selected ≡ s.slot ∷ [])

important-All :
    (P : SlotInfo → Type 0) (slots : List SlotInfo) → All P slots → All P (important_slots slots)
unfolding important_slots
important-All P [] h = tt
important-All P (s ∷ slots) h = elim (Bool-cases (ltb 50 s.importance_score)) [
  | inl e ↦ rw e (h.0, important-All P slots h.1)
  | inr e ↦ rw e (important-All P slots h.1)
]

nth-OneOf :
    (slots : List SlotInfo) (variant : ℕ) → 0 < length slots → OneOf slots (nth_slot slots variant)
nth-OneOf [] variant h = absurd (omega arith)
nth-OneOf (s ∷ slots) variant h =
    let i = variant % suc (length slots) in
    (
      get_or (s ∷ slots) i s,
      get_or-Mem (s ∷ slots) i s (mod-lt variant {m = suc (length slots)} (omega arith)),
      refl,
    )

select-OneOf :
    (m variant : ℕ) (important slots : List SlotInfo)
    → 0 < m
    → 0 < length slots
    → All (λ s. Mem s slots) important
    → OneOf slots (or_nth (select_important m variant 0 important) slots variant)
unfolding select_important
select-OneOf m variant [] slots p h a = nth-OneOf slots variant h
select-OneOf m variant (s ∷ important) slots p h a =
    let room : leb m 0 ≡ false = ground (arith, p) in
    elim (Bool-cases ((variant + 0) % 2 == 0)) [
      | inl even ↦
          let odd : ((variant + 1) % 2 == 0) ≡ false = ground (arith, even) in
          rw (room, even) (s, a.0, ap (◌∷◌ s.slot) (select-odd m variant 1 important odd))
      | inr odd ↦ rw (room, odd, select-odd m variant 0 important odd) (nth-OneOf slots variant h)
    ]

-- Exactly one slot is selected, whatever the importance of the slots and the variant, although the
-- code allows three. There is at least one slot.
pub select_slots-OneOf :
    (slots : List SlotInfo) (variant : ℕ)
    → 0 < length slots
    → OneOf slots (select_slots_for_mutation slots variant)
unfolding select_slots_for_mutation
select_slots-OneOf slots variant h =
    let max_slots = if ltb (length slots) 3 then length slots else 3 in
    select-OneOf max_slots variant (important_slots slots) slots (ground (arith, h)) h
      (important-All (λ s. Mem s slots) slots (All-Mem_self slots))

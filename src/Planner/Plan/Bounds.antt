-- ===== src/Planner/Plan/Bounds.antt =====
-- tracing/mutation/smart_mutation_strategy.go, GetOptimalMutationPlan: how many mutations a plan has.
use native.Mathlib.Nat.{mul-suc, div-eq_of_lt, le-div_iff_mul-le, div-mul-le_self}
use autopatch.Common.{
  ℕ, zero, suc, ◌+◌, ◌-◌, ◌*◌, ◌/◌, ◌≤◌, ◌<◌, ◌≡◌, refl, sym, ap, ◌∙◌, Bool, true, false, inl, inr,
  some, List, [], ◌∷◌, map, take, length, ltb, leb, ◌==◌, arith, Bool-cases, length-append,
  length-map, ltb→lt,
}
use autopatch.Planner.Plan.{
  StorageSlotInfo, Ranked, MutationPlan, is_storage_strategy, select_target_positions, input_plans,
  storage_plans, generate_input_mutation_plans, generate_storage_mutation_plans,
  select_target_slots, add_strategy, variants_for, allocate, at_least_one,
  get_optimal_mutation_plan,
}

abbrev pub planned : MutationPlan → ℕ
planned p = length p.storage_mutations + length p.input_mutations

length-input_plans : (s : Ranked) (i n : ℕ) (ts : List ℕ) → length (input_plans s i n ts) ≤ n
unfolding input_plans
length-input_plans s i zero ts = omega arith
length-input_plans s i (suc n) [] = omega arith
length-input_plans s i (suc n) (t ∷ ts) = omega (arith, length-input_plans s (i + 1) n ts)

abbrev pub names : List Ranked → List (List ℕ)
names = map (λ (s : Ranked). s.name)

take-short : (n : ℕ) (xs : List (List ℕ)) → length xs ≤ n → take n xs ≡ xs
take-short zero [] h = refl
take-short zero (x ∷ xs) h = absurd (omega arith)
take-short (suc n) [] h = refl
take-short (suc n) (x ∷ xs) h = ap (◌∷◌ x) (take-short n xs (omega arith))

share-fits :
    (batch per count l : ℕ)
    → 0 < per
    → count + per * suc l ≤ batch
    → (variants_for batch per count ≡ per)
      × (leb batch count ≡ false)
      × (count + per + per * l ≤ batch)
share-fits batch per count l p h =
    let split : per * suc l ≡ per * l + per = mul-suc per l in
    (ground (arith, h, split), ground (arith, h, split, p), omega (arith, h, split))

module _ {Score : Type 0} where
  length-storage_plans :
      (s : Ranked) (i n : ℕ) (ts : List (StorageSlotInfo Score))
      → length (storage_plans s i n ts) ≤ n
  unfolding storage_plans
  length-storage_plans s i zero ts = omega arith
  length-storage_plans s i (suc n) [] = omega arith
  length-storage_plans s i (suc n) (t ∷ ts) = omega (arith, length-storage_plans s (i + 1) n ts)

  module _ (above : Score → Score → Bool) (slots : List (StorageSlotInfo Score)) (len : ℕ) where
    planned-add_strategy :
        (s : Ranked) (n : ℕ) (rest : MutationPlan)
        → planned (add_strategy above slots len s n rest) ≤ n + planned rest
    unfolding add_strategy generate_storage_mutation_plans generate_input_mutation_plans
    planned-add_strategy s n rest = elim (Bool-cases (is_storage_strategy s.name)) [
      | inl e ↦
          let plans = storage_plans s 0 n (select_target_slots above s.name slots) in
          rw e (
            omega (
              arith,
              length-append plans rest.storage_mutations,
              length-storage_plans s 0 n (select_target_slots above s.name slots),
            ))
      | inr e ↦
          let plans = input_plans s 0 n (select_target_positions len) in
          rw e (
            omega (
              arith,
              length-append plans rest.input_mutations,
              length-input_plans s 0 n (select_target_positions len),
            ))
    ]

    order-add_strategy :
        (s : Ranked) (n : ℕ) (rest : MutationPlan)
        → (add_strategy above slots len s n rest).priority_order ≡ s.name ∷ rest.priority_order
    unfolding add_strategy
    order-add_strategy s n rest = elim (Bool-cases (is_storage_strategy s.name)) [
      | inl e ↦ rw e refl
      | inr e ↦ rw e refl
    ]

    planned-allocate :
        (batch per count : ℕ) (ranked : List Ranked)
        → count ≤ batch
        → planned (allocate above slots len batch per count ranked) ≤ batch - count
    unfolding allocate
    planned-allocate batch per count [] h = omega arith
    planned-allocate batch per count (s ∷ ranked) h =
        let n = variants_for batch per count in
        let small : count + n ≤ batch = ground (arith, h) in
        let more = allocate above slots len batch per (count + n) ranked in
        elim (Bool-cases (leb batch count)) [
          | inl e ↦ rw e (omega arith)
          | inr e ↦ rw e (
              omega (
                arith,
                planned-add_strategy s n more,
                planned-allocate batch per (count + n) ranked small,
                small,
              ))
        ]

    -- As long as the shares fit, every strategy gets one.
    order-allocate :
        (batch per count : ℕ) (ranked : List Ranked)
        → 0 < per
        → count + per * length ranked ≤ batch
        → (allocate above slots len batch per count ranked).priority_order ≡ names ranked
    unfolding allocate
    order-allocate batch per count [] p h = refl
    order-allocate batch per count (s ∷ ranked) p h =
        let fits = share-fits batch per count (length ranked) p h in
        let n = variants_for batch per count in
        let more = allocate above slots len batch per (count + n) ranked in
        let moved : count + n + per * length ranked ≤ batch = omega (arith, fits.0, fits.2) in
        rw fits.1 (
          order-add_strategy s n more
          ∙ ap (◌∷◌ s.name) (order-allocate batch per (count + n) ranked p moved))

    -- With shares of one, as many strategies get one as there is room for.
    order-single :
        (batch count room : ℕ) (ranked : List Ranked)
        → count + room ≡ batch
        → (allocate above slots len batch 1 count ranked).priority_order ≡ take room (names ranked)
    unfolding allocate
    order-single batch count zero [] h = refl
    order-single batch count (suc room) [] h = refl
    order-single batch count zero (s ∷ ranked) h =
        let full : leb batch count ≡ true = ground (arith, h) in rw full refl
    order-single batch count (suc room) (s ∷ ranked) h =
        let free : leb batch count ≡ false = ground (arith, h) in
        let one : variants_for batch 1 count ≡ 1 = ground (arith, h) in
        let more = allocate above slots len batch 1 (count + variants_for batch 1 count) ranked in
        rw free (
          order-add_strategy s (variants_for batch 1 count) more
          ∙ ap (◌∷◌ s.name) (
              ap (λ (n : ℕ). (allocate above slots len batch 1 (count + n) ranked).priority_order)
                one
              ∙ order-single batch (count + 1) room ranked (omega (arith, h))))

    order :
        (batch : ℕ) (ranked : List Ranked)
        → 0 < length ranked
        → (allocate above slots len batch
            (at_least_one (batch / length ranked))
            0
            ranked).priority_order
          ≡ take batch (names ranked)
    order batch ranked h = elim (Bool-cases (ltb batch (length ranked))) [
      | inl many ↦
          let none_each : batch / length ranked ≡ 0 =
            div-eq_of_lt (ltb→lt batch (length ranked) many) in
          rw none_each (order-single batch 0 batch ranked (omega arith))
      | inr few ↦
          let share : 0 < batch / length ranked = (le-div_iff_mul-le h).1 (ground (arith, few)) in
          let same : at_least_one (batch / length ranked) ≡ batch / length ranked =
            ground (arith, share) in
          rw same (
            order-allocate batch (batch / length ranked) 0 ranked share
              (omega (arith, div-mul-le_self batch (length ranked)))
            ∙ sym (
                take-short batch (names ranked)
                  (ground (arith, few, length-map ranked (λ (s : Ranked). s.name)))))
    ]

    -- With at least one strategy a plan is made. It never has more mutations than the batch size, and it
    -- takes the strategies in the order of their rank, as many as the batch size allows.
    pub plan_bounds :
        (batch : ℕ) (ranked : List Ranked)
        → 0 < length ranked
        → (p : MutationPlan) × (get_optimal_mutation_plan above batch ranked slots len ≡ some p)
          × (planned p ≤ batch)
          × (p.priority_order ≡ take batch (names ranked))
    unfolding get_optimal_mutation_plan
    plan_bounds batch ranked h =
        let per = at_least_one (batch / length ranked) in
        let some_ranked : (length ranked == 0) ≡ false = ground (arith, h) in
        (
          allocate above slots len batch per 0 ranked,
          rw some_ranked refl,
          omega (arith, planned-allocate batch per 0 ranked (omega arith)),
          order batch ranked h,
        )

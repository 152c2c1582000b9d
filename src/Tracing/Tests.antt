-- ===== src/Tracing/Tests.antt =====
-- tracing/utils/types.go on concrete traces, paths and changes.
use autopatch.Common.{ℕ, ◌≡◌, refl, ◌↔◌, Bool, Option, some, List, [], ◌∷◌, ◌++◌, map, ltb, arith}
use autopatch.Common.Int.{pos}
use autopatch.Common.GoMap.{nat_eq}
use autopatch.Common.Text.{codes}
use autopatch.Storage.Bytes.{All}
use autopatch.Tracing.Jumps.{
  Hook, enter, exit, opcode, jump, jumpi, Instruction, new_jump_tracer, run_hooks, start_trace,
  stop_trace, set_target_contract, intercept,
}
use autopatch.Tracing.Jumps.Recorded.{jumps_of, call_of, idle, trace_records_first_call}
use autopatch.Tracing.Jumps.Intercepted.{intercepted_call_recorded}
use autopatch.Tracing.Similarity.{TextPath, calculate_similarity, similarity_one_iff}
use autopatch.Tracing.Rules.{
  StorageSlotChange, StorageProtectionRule, create_storage_protection_rules,
}
use autopatch.Tracing.Rules.Storage.{Covers, slots_of, storage_rules-Covers}

abbrev taken : Instruction
taken = record { pc = 10; op = jump; address = 77; stack = 42 ∷ [] }

abbrev not_taken : Instruction
not_taken = record { pc = 11; op = jumpi; address = 77; stack = 50 ∷ 0 ∷ [] }

abbrev before : List Hook
before = enter 0 5 ∷ opcode 1 taken ∷ []

abbrev body : List Hook
body = opcode 2 taken ∷ enter 2 8 ∷ opcode 3 not_taken ∷ exit 2 ∷ []

abbrev after : List Hook
after = enter 1 77 ∷ opcode 2 taken ∷ exit 1 ∷ exit 0 ∷ []

-- The second call of 77 comes after the first.
trace_records_first_call_example :
    (stop_trace (
      run_hooks
        (before ++ (call_of 77 1 body ++ after))
        (start_trace (set_target_contract 77 new_jump_tracer)))).0
    ≡ jumps_of body
trace_records_first_call_example =
    trace_records_first_call new_jump_tracer 77 1 before body after (ground arith)
      (ground arith, (tt, tt)) (omega arith, (omega arith, (omega arith, (omega arith, tt))))

abbrev targets : List (ℕ × Option (List ℕ))
targets = (77, some (1 ∷ 2 ∷ 3 ∷ 4 ∷ [])) ∷ []

abbrev deep_body : List Hook
deep_body = opcode 1 taken ∷ []

intercepted_call_recorded_example :
    ((intercept targets 77 [] (idle [] 77 (some 0) 0)).0 ≡ 1 ∷ 2 ∷ 3 ∷ 4 ∷ [])
    × (run_hooks (call_of 77 0 deep_body) (intercept targets 77 [] (idle [] 77 (some 0) 0)).1
        ≡ idle ([] ++ jumps_of deep_body) 77 (some 0) 0)
intercepted_call_recorded_example =
    intercepted_call_recorded targets [] (1 ∷ 2 ∷ 3 ∷ 4 ∷ []) [] 77 0 (some 0) deep_body
      (ground arith) refl (omega arith, tt)

abbrev path_a : TextPath
path_a = codes "a" ∷ codes "b" ∷ []

abbrev path_b : TextPath
path_b = codes "a" ∷ codes "c" ∷ codes "d" ∷ []

similarity_one_iff_example :
    ((calculate_similarity path_a path_b).0 ≡ (calculate_similarity path_a path_b).1)
    ↔ (path_a ≡ path_b)
similarity_one_iff_example = similarity_one_iff path_a path_b

-- A ratio in thousandths.
abbrev above_tenth : ℕ → Bool
above_tenth r = ltb 100 r

abbrev changes : List (StorageSlotChange ℕ)
changes =
    record {
      slot = 3;
      original = 10;
      modified = 20;
      delta = pos 10;
      change_type = codes "increment";
      change_ratio = 1000;
      slot_type = codes "simple";
    }
    ∷ record {
      slot = 0;
      original = 100;
      modified = 101;
      delta = pos 1;
      change_type = codes "increment";
      change_ratio = 10;
      slot_type = codes "simple";
    }
    ∷ []

storage_rules-Covers_example :
    (map
        (λ (r : StorageProtectionRule). r.storage_slot)
        (create_storage_protection_rules above_tenth (some changes) 5)
      ≡ slots_of above_tenth (some changes))
    × All (Covers 5) (create_storage_protection_rules above_tenth (some changes) 5)
storage_rules-Covers_example = storage_rules-Covers above_tenth (some changes) 5

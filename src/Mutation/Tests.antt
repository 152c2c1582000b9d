-- ===== src/Mutation/Tests.antt =====
-- tracing/mutation/type_aware_mutator.go on concrete arguments.
use autopatch.Common.{
  ◌-◌, ℕ, ◌^◌, ◌≤◌, ◌<◌, ◌≡◌, refl, none, some, List, [], ◌∷◌, ◌++◌, replicate, arith,
}
use autopatch.Common.Int.{pos, negsuc, ◌+ℤ◌, ◌-ℤ◌}
use autopatch.Storage.Bytes.{from_bytes}
use autopatch.Mutation.Addresses.{nearby_number, mod_addr}
use autopatch.Mutation.Steps.{storage_delta, magnitude}
use autopatch.Mutation.Steps.Wraps.{wrapped}
use autopatch.Mutation.Dispatch.{
  address_ty, uint_ty, address, big, mutated, crash, mutate_by_type, mutate_uint, mutate_address_on,
}
use autopatch.Mutation.Numbers.{mutate_big_uint, add_step_to_big_int, at_least_zero}
use autopatch.Mutation.Pick.{pick}

abbrev high_address : List ℕ
high_address = 200 ∷ replicate 19 7

abbrev low_rest : List ℕ
low_rest = replicate 18 0 ++ 5 ∷ []

-- The largest uint256 is mutated into a number that is none.
leaves_range :
    mutate_by_type (some 1) [] (uint_ty 256) (big (pos (2 ^ 256 - 1))) 0
    ≡ mutated (big (pos (2 ^ 256)))
unfolding mutate_by_type mutate_uint mutate_big_uint add_step_to_big_int at_least_zero pick ◌+ℤ◌
leaves_range = refl

nil_chain : mutate_by_type none (replicate 20 9) address_ty (address high_address) 1 ≡ crash
unfolding mutate_by_type mutate_address_on
nil_chain = refl

high_nearby : 2 ^ 152 ≤ nearby_number high_address 9
unfolding nearby_number mod_addr from_bytes ◌-ℤ◌
high_nearby = omega arith

low_nearby : (0 < nearby_number (0 ∷ low_rest) 6) × (nearby_number (0 ∷ low_rest) 6 < 256)
unfolding nearby_number mod_addr from_bytes ◌+ℤ◌
low_nearby = (omega arith, omega arith)

small_sum : magnitude (pos 3 +ℤ storage_delta (negsuc 9) 1) < 2 ^ 256
unfolding storage_delta ◌+ℤ◌
small_sum = omega arith

below_zero : wrapped (pos 3 +ℤ storage_delta (negsuc 9) 1) ≡ 2 ^ 256 - 8
unfolding storage_delta ◌+ℤ◌
below_zero = refl

abbrev call_data : List ℕ
call_data = 0xa9 ∷ 0x05 ∷ 0x9c ∷ 0xbb ∷ replicate 32 1

abbrev entries : List (ℕ × ℕ)
entries = (0, 7) ∷ (1, 8) ∷ (2, 9) ∷ []

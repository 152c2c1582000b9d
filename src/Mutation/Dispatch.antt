-- ===== src/Mutation/Dispatch.antt =====
-- tracing/mutation/type_aware_mutator.go, MutateByType: the choice of the mutator by the ABI type.
-- go-ethereum's abi.Type is the tag and the size that are read; a value behind interface{} is a
-- constructor for each dynamic type, and no value is nil. `crash` is the panic of a failed type assertion or
-- of a chain that is nil. A variant is a counter of the callers, which never count below zero.
pub mod Types
use autopatch.Common.{
  ℕ, ◌*◌, ◌%◌, ◌^◌, Bool, Option, none, some, List, [], ◌∷◌, ◌==◌, if◌then◌else◌,
}
use autopatch.Common.Int.{ℤ}
use autopatch.Mutation.Numbers.{
  mutate_big_uint, mutate_uint_bits, mutate_big_int, mutate_int_bits, mutate_bool,
}
use autopatch.Mutation.Texts.{mutate_string, mutate_bytes, mutate_fixed_bytes}
use autopatch.Mutation.Addresses.{mutate_address}

pub data ArgType : Type 0 where
  address_ty bool_ty string_ty bytes_ty array_ty slice_ty other_ty : ArgType
  uint_ty int_ty fixed_bytes_ty : ℕ → ArgType

pub data ArgValue : Type 0 where
  address : List ℕ → ArgValue
  big : ℤ → ArgValue
  unsigned : ℕ → ℕ → ArgValue  -- uint8, uint16, uint32, uint64 by their bits
  signed : ℕ → ℕ → ArgValue  -- int8 to int64: half the modulus, and the bit pattern
  boolean : Bool → ArgValue
  text : List ℕ → ArgValue
  bytes : List ℕ → ArgValue
  fixed : List ℕ → ArgValue
  other : ArgValue

pub data Outcome : Type 0 where
  mutated : ArgValue → Outcome
  unsupported : ArgValue → Outcome  -- the value, with an error
  crash : Outcome

unfoldable pub mutate_uint : ArgValue → ℕ → Outcome
mutate_uint (big v) variant = mutated (big (mutate_big_uint v variant))
mutate_uint (unsigned w v) variant = mutated (unsigned w (mutate_uint_bits w v variant))
mutate_uint v variant = unsupported v

unfoldable pub mutate_int : ArgValue → ℕ → Outcome
mutate_int (big v) variant = mutated (big (mutate_big_int v variant))
mutate_int (signed top v) variant = mutated (signed top (mutate_int_bits top v variant))
mutate_int v variant = unsupported v

unfoldable pub fixed_bytes : ArgValue → ℕ → ℕ → ArgValue
fixed_bytes (fixed v) size variant = fixed (mutate_fixed_bytes v size variant)
fixed_bytes v size variant = v

-- mutateAddress with the chain's number; only its second strategy, useKnownAddress, reads the chain.
unfoldable pub mutate_address_on : Option ℕ → List ℕ → List ℕ → ℕ → Outcome
mutate_address_on (some chain_id) random a variant =
    mutated (address (mutate_address chain_id random a variant))
mutate_address_on none random a variant =
    if variant % 5 == 1 then crash else mutated (address (mutate_address 0 random a variant))

unfoldable pub mutate_by_type : Option ℕ → List ℕ → ArgType → ArgValue → ℕ → Outcome
unfolding mutate_uint mutate_int fixed_bytes mutate_address_on
mutate_by_type chain random address_ty (address a) variant =
    mutate_address_on chain random a variant
mutate_by_type chain random (uint_ty size) v variant = mutate_uint v variant
mutate_by_type chain random (int_ty size) v variant = mutate_int v variant
mutate_by_type chain random bool_ty (boolean b) variant = mutated (boolean (mutate_bool b))
mutate_by_type chain random string_ty (text s) variant = mutated (text (mutate_string s variant))
mutate_by_type chain random bytes_ty (bytes s) variant = mutated (bytes (mutate_bytes s variant))
mutate_by_type chain random (fixed_bytes_ty size) v variant = mutated (fixed_bytes v size variant)
mutate_by_type chain random array_ty v variant = mutated v
mutate_by_type chain random slice_ty v variant = mutated v
mutate_by_type chain random other_ty v variant = mutated v
mutate_by_type chain random _ v variant = crash

unfoldable pub get_mutation_strategies : ArgType → ℕ
get_mutation_strategies address_ty = 5
get_mutation_strategies (uint_ty size) = 5
get_mutation_strategies (int_ty size) = 5
get_mutation_strategies bool_ty = 1
get_mutation_strategies string_ty = 7
get_mutation_strategies bytes_ty = 5
get_mutation_strategies (fixed_bytes_ty size) = 3
get_mutation_strategies _ = 1

-- ===== src/Mutation/Dispatch/Types.antt =====
-- tracing/mutation/type_aware_mutator.go: a mutated argument has the Go type of the argument.
use autopatch.Common.{ℕ, suc, ◌*◌, ◌^◌, ◌<◌, ◌≡◌, Bool, true, false, ◌||◌, List, length, ◌==◌}
use autopatch.Common.Int.{ℤ}
use autopatch.Mutation.Numbers.Ranges.{IsNonneg}
use autopatch.Mutation.Dispatch.{
  ArgType, address_ty, uint_ty, int_ty, bool_ty, string_ty, bytes_ty, fixed_bytes_ty, array_ty,
  slice_ty, other_ty, ArgValue, address, big, unsigned, signed, boolean, text, bytes, fixed,
}

-- The sizes for which Go has a number type of its own.
abbrev pub is_native : ℕ → Bool
is_native size = size == 8 || size == 16 || size == 32 || size == 64

-- The values of the Go type that stands for an ABI type: a number of 8, 16, 32 or 64 bits has the Go type
-- of that width, and one of another size is a *big.Int, which no size bounds; those of an unsigned type
-- are not negative.
pub data HasGoType : ArgType → ArgValue → Type 0 where
  is_address : (a : List ℕ) → length a ≡ 20 → HasGoType address_ty (address a)
  is_big_uint :
      (size : ℕ) (v : ℤ) → is_native size ≡ false → IsNonneg v → HasGoType (uint_ty size) (big v)
  is_uint : (w v : ℕ) → is_native w ≡ true → v < 2 ^ w → HasGoType (uint_ty w) (unsigned w v)
  is_big_int : (size : ℕ) (v : ℤ) → is_native size ≡ false → HasGoType (int_ty size) (big v)
  is_int :
      (k v : ℕ)
      → is_native (suc k) ≡ true
      → v < 2 * 2 ^ k
      → HasGoType (int_ty (suc k)) (signed (2 ^ k) v)
  is_bool : (b : Bool) → HasGoType bool_ty (boolean b)
  is_string : (s : List ℕ) → HasGoType string_ty (text s)
  is_bytes : (s : List ℕ) → HasGoType bytes_ty (bytes s)
  is_fixed : (size : ℕ) (v : List ℕ) → length v ≡ size → HasGoType (fixed_bytes_ty size) (fixed v)
  is_array : (v : ArgValue) → HasGoType array_ty v
  is_slice : (v : ArgValue) → HasGoType slice_ty v
  is_other : (v : ArgValue) → HasGoType other_ty v

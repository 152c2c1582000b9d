-- ===== src/Storage/Value.antt =====
-- storage/utils/scan.go, slice_value.go, mapping_value.go, struct_value.go: reading values. `f` reads
-- the bytes of a slot (GetValueStorageAtFunc, empty on an error) and `keccak` is Keccak256Hash of
-- go-ethereum over its arguments in a row; both are parameters.
pub mod Signed
pub mod Strings
pub mod Packed
use Prim.Native.String.{String}
use autopatch.Common.{
  ℕ, zero, suc, ◌+◌, ◌-◌, ◌*◌, ◌/◌, ◌%◌, ◌^◌, Bool, true, false, Option, none, some, List, [], ◌∷◌,
  ◌++◌, map, ltb, leb, ◌==◌, if◌then◌else◌,
}
use autopatch.Common.Int.{ℤ, pos, negsuc, ◌+ℤ◌, ◌-ℤ◌, pos_part}
use autopatch.Sync.Bigint.{int64}
use autopatch.Storage.Bytes.{from_bytes, big_bytes, word, to_hash, hash_bytes, shr, low_bits, flip}
use autopatch.Storage.Variable.{
  SolidityTyp, int_ty, uint_ty, bool_ty, string_ty, slice_ty, array_ty, mapping_ty, address_ty,
  bytes_ty, struct_ty, Variable, int_var, uint_var, address_var, bool_var, string_var, bytes_var,
  slice_var, array_var, struct_var, mapping_var, Fields, typ, slot, set_slot, lookup_field,
  max_slot_count, uint,
}

-- The element type of a slice value.
pub data Elem : Type 0 where
  int_elem : ℕ → Elem
  uint_elem : ℕ → Elem
  bytes_elem : ℕ → Elem
  struct_elem : Fields → Elem
  bool_elem string_elem address_elem : Elem

-- What a Value method returns behind interface{}.
pub data Value : Type 0 where
  u64_value : ℕ → Value
  i64_value : ℤ → Value
  decimal_value : ℕ → Value  -- the decimal digits of the number
  bool_value : Bool → Value
  address_value : ℕ → Value
  text_value : List ℕ → Value
  slice_value : Elem → ℕ → ℕ → Value  -- slot, length
  struct_value : ℕ → Fields → Value
  mapping_value : ℕ → SolidityTyp → Variable → Value
  nil_value : Value

-- The field of a word: shifted right by the offset, masked to the length.
unfoldable pub bits_at : ℕ → ℕ → ℕ → ℕ
bits_at v offset length = low_bits (shr v offset) length

-- -x on an int64.
abbrev pub neg64 : ℤ → ℤ
neg64 (pos n) = pos 0 -ℤ pos n
neg64 (negsuc n) = if n == 2 ^ 63 - 1 then negsuc n else pos (n + 1)

unfoldable pub int_value : ℕ → ℕ → Value
int_value vb length =
    let sign_bit = shr vb (length - 1) in
    if sign_bit % 2 ^ 64 == 0
    then u64_value (vb % 2 ^ 64)
    else i64_value (neg64 (int64 (from_bytes 0 (map flip (big_bytes (vb - 1))) % 2 ^ 64)))

unfoldable pub uint_value : ℕ → Value
uint_value vb = if ltb (2 ^ 64 - 1) vb then decimal_value vb else u64_value (vb % 2 ^ 64)

unfoldable pub bool_value_of : ℕ → Value
bool_value_of vb = bool_value (vb % 2 ^ 64 == 1)

-- common.TrimRightZeroes.
unfoldable pub trim_right_zeroes : List ℕ → List ℕ
trim_right_zeroes [] = []
trim_right_zeroes (b ∷ bs) = elim (trim_right_zeroes bs) [
  | [] ↦ if b == 0 then [] else b ∷ []
  | c ∷ cs ↦ b ∷ c ∷ cs
]

-- beginBit and the slot and offset that it gives.
abbrev pub begin_bit : ℕ → ℕ → ℕ
begin_bit bits i = i * bits % 2 ^ 64

abbrev pub packed_slot : ℕ → ℕ → ℕ → ℕ
packed_slot slot_index bits i = to_hash (pos slot_index +ℤ int64 (begin_bit bits i / 256))

abbrev pub packed_offset : ℕ → ℕ → ℕ
packed_offset bits i = begin_bit bits i % 256

-- The product of two int64.
mul64 : ℕ → ℕ → ℤ
mul64 a b = int64 (a * b % 2 ^ 64)

unfoldable pub short_string : ℕ → List ℕ
short_string v =
    let length = low_bits v 8 / 2 * 8 in big_bytes (shr v ((256 + (2 ^ 64 - length)) % 2 ^ 64))

-- SoliditySlice.Value and SolidityArray.Value by the type of the unit. A nested slice is read at
-- the unit's own slot.
unfoldable pub elements_value : Variable → ℕ → ℕ → Value
elements_value (int_var s l o) slot_index length = slice_value (int_elem l) slot_index length
elements_value (uint_var s l o) slot_index length = slice_value (uint_elem l) slot_index length
elements_value (bytes_var s l o) slot_index length = slice_value (bytes_elem l) slot_index length
elements_value (struct_var s fs) slot_index length = slice_value (struct_elem fs) slot_index length
elements_value (bool_var s o) slot_index length = slice_value bool_elem slot_index length
elements_value (string_var s) slot_index length = slice_value string_elem slot_index length
elements_value (address_var s o) slot_index length = slice_value address_elem slot_index length
elements_value (slice_var s u) slot_index length = nil_value
elements_value (array_var s n u) slot_index length = nil_value
elements_value (mapping_var s k v) slot_index length = nil_value

module _ (f : ℕ → List ℕ) (keccak : List ℕ → ℕ) where
  -- The slots after the first, up to the last but one.
  unfoldable pub middle_slots : ℕ → ℤ → ℕ → List ℕ
  middle_slots zero i first = []
  middle_slots (suc n) i first = f (to_hash (pos first +ℤ i)) ++ middle_slots n (i +ℤ pos 1) first

  unfoldable pub last_slot : ℕ → List ℕ → List ℕ
  last_slot remain v = if remain == 0 then v else big_bytes (shr (word v) (256 - remain))

  unfoldable pub long_string : ℕ → ℕ → List ℕ
  unfolding middle_slots last_slot
  long_string slot_index v =
      let length = (v - 1) / 2 * 8 in
      let remain = length % 256 in
      let slot_num = int64 ((if remain == 0 then length / 256 else length / 256 + 1) % 2 ^ 64) in
      let first = keccak (hash_bytes slot_index) in
      f first
      ++ (middle_slots (pos_part (slot_num -ℤ pos 2)) (pos 1) first
          ++ last_slot remain (f (to_hash (pos first +ℤ (slot_num -ℤ pos 1)))))

  -- The string at a slot whose word is `v`.
  unfoldable pub string_of : ℕ → ℕ → List ℕ
  string_of slot_index v = if v % 2 == 1 then long_string slot_index v else short_string v

  unfoldable pub string_value : ℕ → Value
  string_value slot_index = text_value (string_of slot_index (word (f slot_index)))

  unfoldable pub slice_of : ℕ → Variable → Value
  unfolding elements_value
  slice_of slot_index (slice_var s u) = slice_of s u
  slice_of slot_index u =
      elements_value u (keccak (hash_bytes slot_index)) (word (f slot_index) % 2 ^ 64)

  -- The method Value of each variable.
  unfoldable pub value : Variable → Value
  unfolding int_value uint_value bool_value_of trim_right_zeroes string_value slice_of bits_at
  value (int_var s l o) = int_value (bits_at (word (f s)) o l) l
  value (uint_var s l o) = uint_value (bits_at (word (f s)) o l)
  value (address_var s o) = address_value (bits_at (word (f s)) o 160)
  value (bool_var s o) = bool_value_of (bits_at (word (f s)) o 8)
  value (string_var s) = string_value s
  value (bytes_var s l o) = text_value (trim_right_zeroes (big_bytes (bits_at (word (f s)) o l)))
  value (slice_var s u) = slice_of s u
  value (array_var s n u) = elements_value u s n
  value (struct_var s fs) = struct_value s fs
  value (mapping_var s k v) = mapping_value s k v

  -- The method Index of each slice value; of structs with the slot count that is not set.
  unfoldable pub index : Elem → ℕ → ℕ → Value
  unfolding value mul64 max_slot_count
  index (int_elem bits) s i = value (int_var (packed_slot s bits i) bits (packed_offset bits i))
  index (uint_elem bits) s i = value (uint_var (packed_slot s bits i) bits (packed_offset bits i))
  index (bytes_elem bits) s i = value (bytes_var (packed_slot s bits i) bits (packed_offset bits i))
  index (struct_elem fs) s i =
      value (struct_var (to_hash (pos s +ℤ mul64 i (uint (max_slot_count 0 fs + 1)))) fs)
  index bool_elem s i = value (bool_var (packed_slot s 8 i) (packed_offset 8 i))
  index string_elem s i = value (string_var (to_hash (pos s +ℤ int64 i)))
  index address_elem s i = value (address_var (to_hash (pos s +ℤ int64 i)) 0)

  -- StructValue.Field: the slot of the field is moved for the call and set back.
  unfoldable pub struct_field : ℕ → Fields → String → Value
  unfolding value
  struct_field base fs name = elim (lookup_field name fs) [
    | none ↦ nil_value
    | some v ↦ value (set_slot v (to_hash (pos base +ℤ pos (slot v))))
  ]

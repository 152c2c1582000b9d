-- ===== src/Storage/Variable.antt =====
-- storage/utils/scan.go, struct_value.go: the variables of a contract's layout, their types, lengths
-- in bits and slots. A variable behind the interface is a constructor for each struct type.
use Prim.Native.String.{String}
use text.Mathlib.Text.{◌==◌ as str_eq}
use autopatch.Common.{ℕ, ◌+◌, ◌*◌, ◌%◌, ◌^◌, Option, none, some, ltb, if◌then◌else◌}

pub data SolidityTyp : Type 0 where
  int_ty uint_ty bool_ty string_ty slice_ty array_ty mapping_ty address_ty bytes_ty struct_ty :
      SolidityTyp

-- A slot is a common.Hash, read as a number below 2^256; lengths and offsets are in bits.
mutual
  pub data Variable : Type 0 where
    int_var : ℕ → ℕ → ℕ → Variable  -- slot, length, offset
    uint_var : ℕ → ℕ → ℕ → Variable
    address_var : ℕ → ℕ → Variable  -- slot, offset
    bool_var : ℕ → ℕ → Variable
    string_var : ℕ → Variable
    bytes_var : ℕ → ℕ → ℕ → Variable
    slice_var : ℕ → Variable → Variable
    array_var : ℕ → ℕ → Variable → Variable  -- slot, unit length, unit type
    struct_var : ℕ → Fields → Variable
    mapping_var : ℕ → SolidityTyp → Variable → Variable

  pub data Fields : Type 0 where
    nil : Fields
    field : String → Variable → Fields → Fields

unfoldable pub typ : Variable → SolidityTyp
typ (int_var s l o) = int_ty
typ (uint_var s l o) = uint_ty
typ (address_var s o) = address_ty
typ (bool_var s o) = bool_ty
typ (string_var s) = string_ty
typ (bytes_var s l o) = bytes_ty
typ (slice_var s u) = slice_ty
typ (array_var s n u) = array_ty
typ (struct_var s fs) = struct_ty
typ (mapping_var s k v) = mapping_ty

abbrev pub uint : ℕ → ℕ
uint n = n % 2 ^ 64

unfoldable mutual
  pub len : Variable → ℕ
  len (int_var s l o) = l
  len (uint_var s l o) = l
  len (address_var s o) = 160
  len (bool_var s o) = 8
  len (string_var s) = 256
  len (bytes_var s l o) = l
  len (slice_var s u) = 256
  len (array_var s n u) = uint (n * len u)
  len (struct_var s fs) = len_fields fs
  len (mapping_var s k v) = 256

  pub len_fields : Fields → ℕ
  len_fields nil = 0
  len_fields (field name v fs) = uint (len v + len_fields fs)

unfoldable pub slot : Variable → ℕ
slot (int_var s l o) = s
slot (uint_var s l o) = s
slot (address_var s o) = s
slot (bool_var s o) = s
slot (string_var s) = s
slot (bytes_var s l o) = s
slot (slice_var s u) = s
slot (array_var s n u) = s
slot (struct_var s fs) = s
slot (mapping_var s k v) = s

-- The reflective assignment to the field SlotIndex, which every struct type has.
unfoldable pub set_slot : Variable → ℕ → Variable
set_slot (int_var s l o) t = int_var t l o
set_slot (uint_var s l o) t = uint_var t l o
set_slot (address_var s o) t = address_var t o
set_slot (bool_var s o) t = bool_var t o
set_slot (string_var s) t = string_var t
set_slot (bytes_var s l o) t = bytes_var t l o
set_slot (slice_var s u) t = slice_var t u
set_slot (array_var s n u) t = array_var t n u
set_slot (struct_var s fs) t = struct_var t fs
set_slot (mapping_var s k v) t = mapping_var t k v

-- The map of a struct's fields.
unfoldable pub lookup_field : String → Fields → Option Variable
lookup_field name nil = none
lookup_field name (field k v fs) = if str_eq k name then some v else lookup_field name fs

-- StructSliceValue.maxSlotCount. The receiver is a copy, so what it caches is lost.
max_slot : ℕ → Fields → ℕ
max_slot m nil = m
max_slot m (field k v fs) = max_slot (if ltb m (uint (slot v)) then uint (slot v) else m) fs

unfoldable pub max_slot_count : ℕ → Fields → ℕ
unfolding max_slot
max_slot_count struct_slot_count fs =
    if ltb 0 struct_slot_count then struct_slot_count else max_slot 0 fs

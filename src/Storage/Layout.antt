-- ===== src/Storage/Layout.antt =====
-- storage/utils/parse.go: from solc's storage layout to the variables of a contract. The layout is
-- what encoding/json gives; a text is the list of its bytes, without line breaks.
pub mod Depth
pub mod Labels
use Prim.Native.String.{String}
use autopatch.Common.{
  ℕ, zero, suc, ◌+◌, ◌-◌, ◌*◌, ◌%◌, ◌^◌, ◌≡◌, refl, ◌↔◌, Bool, true, false, not, ◌&&◌, Option, none,
  some, List, [], ◌∷◌, ◌++◌, ltb, leb, ◌==◌, if◌then◌else◌, arith,
}
use autopatch.Common.GoMap.{lookup}
use autopatch.Common.Text.{codes, has_prefix}
use autopatch.Storage.Label.{
  text_beq, text_eq, Kind, bytes_kind, uint_kind, int_kind, parse_uint, parse_slot, array_match,
  sized_match,
}
use autopatch.Storage.Variable.{
  Variable, int_var, uint_var, address_var, bool_var, string_var, bytes_var, slice_var, array_var,
  struct_var, mapping_var, Fields, nil, field, typ, uint, len, set_slot,
}

pub record Storage : Type 0 where
  pub label : String
  pub offset : ℕ
  pub slot : List ℕ
  pub type_id : List ℕ

pub record StorageType : Type 0 where
  pub base : List ℕ
  pub encoding : List ℕ
  pub label : List ℕ
  pub members : List Storage
  pub key : List ℕ
  pub value : List ℕ
  pub number_of_bytes : List ℕ

pub record StorageLayout : Type 0 where
  pub storage : List Storage
  pub types : List (List ℕ × StorageType)

-- What getVariableByVariableType returns; `broken` is a panic, or a variable that holds a nil type
-- and panics when it is used.
pub data Found : Type 0 where
  found : Variable → Found
  nil_found broken out_of_fuel : Found

unfoldable pub sized : Kind × List ℕ → Variable
sized (bytes_kind, ds) = bytes_var 0 (uint (parse_uint ds * 8)) 0
sized (uint_kind, ds) = uint_var 0 (parse_uint ds) 0
sized (int_kind, ds) = int_var 0 (parse_uint ds) 0

-- The reflective assignment to the field Offset; `none` is the panic where there is none.
unfoldable pub set_offset : Variable → ℕ → Option Variable
set_offset (int_var s l o) t = some (int_var s l t)
set_offset (uint_var s l o) t = some (uint_var s l t)
set_offset (address_var s o) t = some (address_var s t)
set_offset (bool_var s o) t = some (bool_var s t)
set_offset (bytes_var s l o) t = some (bytes_var s l t)
set_offset v t = none

-- Slot and offset of an entry, set on the variable of its type.
unfoldable pub place : Storage → Variable → Option Variable
place m v =
    let offset = uint (m.offset * 8) in
    let w = set_slot v (parse_slot m.slot) in
    if ltb (len v) 256 && not (offset == 0) then set_offset w offset else some w

unfoldable pub array_of : Option (List ℕ) → Found → Found
array_of (some size) (found u) = found (array_var 0 (parse_uint size) u)
array_of size out_of_fuel = out_of_fuel
array_of size u = broken

unfoldable pub slice_found : Found → Found
slice_found (found u) = found (slice_var 0 u)
slice_found out_of_fuel = out_of_fuel
slice_found u = broken

unfoldable pub mapping_of : Found → Found → Found
mapping_of out_of_fuel v = out_of_fuel
mapping_of (found k) (found v) = found (mapping_var 0 (typ k) v)
mapping_of (found k) out_of_fuel = out_of_fuel
mapping_of k v = broken

-- The loop over the members of a struct; the labels of its members are distinct.
pub data Members : Type 0 where
  fields : Fields → Members
  no_members spent : Members

unfoldable pub add_member : String → Storage → Found → Members → Members
add_member name m out_of_fuel rest = spent
add_member name m (found v) (fields fs) = elim (place m v) [
  | none ↦ no_members
  | some w ↦ fields (field name w fs)
]
add_member name m (found v) rest = rest
add_member name m v rest = no_members

unfoldable pub struct_of : Members → Found
struct_of (fields fs) = found (struct_var 0 fs)
struct_of no_members = broken
struct_of spent = out_of_fuel

-- The cases of getVariableByVariableType; `rec` is its recursive call.
module _ (rec : List ℕ → Found) where
  unfoldable pub members_of : List Storage → Members
  members_of [] = fields nil
  members_of (m ∷ ms) = add_member m.label m (rec m.type_id) (members_of ms)

  unfoldable pub named : StorageType → Found
  named t =
      if text_beq t.label (codes "address")
      then found (address_var 0 0)
      else if text_beq t.label (codes "bool")
      then found (bool_var 0 0)
      else if has_prefix t.label (codes "enum")
      then found (uint_var 0 (uint (parse_uint t.number_of_bytes * 8)) 0)
      else if has_prefix t.label (codes "contract")
      then found (address_var 0 0)
      else if has_prefix t.label (codes "struct")
      then struct_of (members_of t.members)
      else nil_found

  unfoldable pub in_place : StorageType → Found
  unfolding named
  in_place t = elim t.base [
    | [] ↦ elim (sized_match t.label) [ some x ↦ found (sized x) | none ↦ named t ]
    | b ∷ bs ↦ array_of (array_match t.label) (rec t.base)
  ]

  unfoldable pub by_encoding : StorageType → Found
  unfolding in_place
  by_encoding t =
      if text_beq t.encoding (codes "bytes")
      then found (string_var 0)
      else if text_beq t.encoding (codes "inplace")
      then in_place t
      else if text_beq t.encoding (codes "mapping")
      then mapping_of (rec t.key) (rec t.value)
      else if text_beq t.encoding (codes "dynamic_array")
      then slice_found (rec t.base)
      else nil_found

  unfoldable pub of_form : Option StorageType → Found
  of_form none = nil_found
  of_form (some t) = by_encoding t

unfoldable pub get_variable_by_variable_type : ℕ → List (List ℕ × StorageType) → List ℕ → Found
get_variable_by_variable_type zero types vt = out_of_fuel
get_variable_by_variable_type (suc fuel) types vt =
    of_form (get_variable_by_variable_type fuel types) (lookup vt types)

-- ParseByStorageLayout over an empty map of variables.
unfoldable pub parse_by_storage_layout : ℕ → StorageLayout → Members
parse_by_storage_layout fuel layout =
    members_of (get_variable_by_variable_type fuel layout.types) layout.storage

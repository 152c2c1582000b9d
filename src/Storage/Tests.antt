-- ===== src/Storage/Tests.antt =====
-- Storage decoding: the theorems at concrete inputs.
use autopatch.Common.{
  ℕ, ◌+◌, ◌-◌, ◌/◌, ◌%◌, ◌*◌, ◌^◌, ◌≡◌, refl, Option, none, some, List, [], ◌∷◌, ◌++◌, arith, ltb,
  if◌then◌else◌,
}
use autopatch.Common.Int.{ℤ, pos, negsuc}
use autopatch.Storage.Variable.{int_ty, bool_ty, uint_var, set_slot}
use autopatch.Storage.Mapping.{set_string, key_bytes, mapping_key}
use autopatch.Storage.Mapping.Keys.{int_key_slot}
use autopatch.Common.Text.{codes}
use autopatch.Storage.Bytes.{word, hash_bytes}
use autopatch.Storage.Value.{
  u64_value, i64_value, text_value, uint_elem, uint_value, bits_at, int_value, string_value, index,
  value,
}
use autopatch.Storage.Value.Signed.{int_value-twos_complement}
use autopatch.Storage.Value.Strings.{short_slot, short_string_roundtrip}
use autopatch.Storage.Value.Packed.{index-packed}

int_value-twos_complement_example :
    int_value 65533 (8 * 2)
    ≡ (if ltb 65533 (2 ^ 15) then u64_value 65533 else i64_value (negsuc (2 ^ 16 - 65533 - 1)))
int_value-twos_complement_example =
    int_value-twos_complement 2 65533 (omega arith) (omega arith) (omega arith)

minus_three : int_value 65533 16 ≡ i64_value (negsuc 2)
minus_three = int_value-twos_complement_example

-- A hash that sends every input to slot 1000.
abbrev keccak : List ℕ → ℕ
keccak bs = 1000

abbrev name_slot : ℕ → List ℕ
name_slot z = short_slot (codes "vault")

short_string_roundtrip_example : string_value name_slot keccak 3 ≡ text_value (codes "vault")
short_string_roundtrip_example =
    short_string_roundtrip name_slot keccak 3 b'v' (codes "ault") refl (omega arith) (omega arith)
      (omega arith)

-- Every slot has the word 65.
abbrev odd_slot : ℕ → List ℕ
odd_slot z = 65 ∷ []

index-packed_example :
    index odd_slot keccak (uint_elem 64) 7 6
    ≡ uint_value (bits_at (word (odd_slot (7 + 6 / 4))) (6 % 4 * 64) 64)
index-packed_example = index-packed odd_slot keccak 64 4 7 6 refl (omega arith) (omega arith)

abbrev no_hex : List ℕ → List ℕ
no_hex v = []

-- The text of every key stands for -5.
abbrev minus_five : List ℕ → Option ℤ
minus_five k = some (negsuc 4)

abbrev nothing_left : List ℕ → ℤ
nothing_left v = pos 0

int_key_slot_example :
    mapping_key no_hex minus_five nothing_left odd_slot keccak 7 int_ty
      (uint_var 0 256 0)
      (codes "-5")
    ≡ some (
        value odd_slot keccak
          (set_slot (uint_var 0 256 0) (keccak (hash_bytes (2 ^ 256 - 5) ++ hash_bytes 7))))
int_key_slot_example =
    int_key_slot no_hex minus_five nothing_left odd_slot keccak 7 (uint_var 0 256 0) (codes "-5")
      (negsuc 4) refl (omega arith)

panics_on_bool : key_bytes no_hex minus_five nothing_left bool_ty (codes "true") ≡ none
unfolding key_bytes
panics_on_bool = refl

signed_text : set_string (codes "-120") (pos 1) ≡ negsuc 119
unfolding set_string autopatch.Storage.Label.decimal
signed_text = refl

-- ===== src/Storage/Mapping.antt =====
-- storage/utils/mapping_value.go, MappingValue.Key: the slot of a key and the value there. `f` and `keccak`
-- are as in Storage.Value. common.FromHex and strconv.ParseInt with base 0 and 64 bits are parameters, and
-- so is what big.Int.SetString leaves behind for a text that is no decimal number.
pub mod Keys
use autopatch.Common.{
  ℕ, ◌+◌, ◌-◌, Option, none, some, List, [], ◌∷◌, ◌++◌, map, length, replicate, ◌==◌, if◌then◌else◌,
}
use autopatch.Common.Int.{ℤ, pos, negsuc}
use autopatch.Common.Text.{codes, contains_text}
use autopatch.Storage.Bytes.{from_bytes, big_bytes, word, to_hash, hash_bytes, flip}
use autopatch.Storage.Variable.{
  SolidityTyp, int_ty, uint_ty, string_ty, address_ty, bytes_ty, Variable, set_slot,
}
use autopatch.Storage.Value.{Value, value}
use autopatch.Storage.Label.{decimal}

-- common.RightPadBytes(bs, 32).
abbrev pub right_pad : List ℕ → List ℕ
right_pad bs = bs ++ replicate (32 - length bs) 0

abbrev pub negated : ℕ → ℤ
negated n = if n == 0 then pos 0 else negsuc (n - 1)

abbrev pub digits : List ℕ → Option ℕ
digits [] = none
digits (c ∷ cs) = decimal 0 (c ∷ cs)

abbrev pub as_int : (ℕ → ℤ) → Option ℕ → Option ℤ
as_int sign none = none
as_int sign (some n) = some (sign n)

-- big.Int.SetString(s, 10): a sign and digits, or none.
unfoldable pub read_decimal : List ℕ → Option ℤ
read_decimal [] = none
read_decimal (c ∷ cs) =
    if c == b'-'
    then as_int negated (digits cs)
    else as_int pos (if c == b'+' then digits cs else digits (c ∷ cs))

abbrev pub or_left : Option ℤ → ℤ → ℤ
or_left none z = z
or_left (some n) z = n

-- What the number is after the call.
unfoldable pub set_string : List ℕ → ℤ → ℤ
unfolding read_decimal
set_string s fallback = or_left (read_decimal s) fallback

-- encodeIntString of a parsed number: the complement of a negative number's magnitude, plus one.
unfoldable pub encode_int : ℤ → List ℕ
unfolding hash_bytes from_bytes big_bytes
encode_int (pos n) = hash_bytes (to_hash (pos n))
encode_int (negsuc n) = big_bytes (from_bytes 0 (map flip (hash_bytes (to_hash (negsuc n)))) + 1)

abbrev pub encode_parsed : Option ℤ → Option (List ℕ)
encode_parsed none = none
encode_parsed (some z) = some (encode_int z)

module _ (from_hex : List ℕ → List ℕ) (parse_int : List ℕ → Option ℤ)
    (left_behind : List ℕ → ℤ) where
  unfoldable pub encode_hex_string : List ℕ → List ℕ
  unfolding word hash_bytes
  encode_hex_string v = hash_bytes (word (from_hex v))

  unfoldable pub encode_byte_string : List ℕ → List ℕ
  encode_byte_string v =
      if contains_text v (codes "0x") then right_pad (from_hex v) else right_pad v

  unfoldable pub encode_uint_string : List ℕ → List ℕ
  unfolding encode_hex_string set_string hash_bytes
  encode_uint_string v =
      if contains_text v (codes "0x")
      then encode_hex_string v
      else hash_bytes (to_hash (set_string v (left_behind v)))

  -- The bytes of a key, or none where the code panics.
  unfoldable pub key_bytes : SolidityTyp → List ℕ → Option (List ℕ)
  unfolding encode_uint_string encode_byte_string encode_hex_string encode_int
  key_bytes uint_ty k = some (encode_uint_string k)
  key_bytes int_ty k = encode_parsed (parse_int k)
  key_bytes bytes_ty k = some (encode_byte_string k)
  key_bytes string_ty k = some k
  key_bytes address_ty k = some (encode_hex_string k)
  key_bytes _ k = none

  module _ (f : ℕ → List ℕ) (keccak : List ℕ → ℕ) where
    -- The value of a type at the slot of a key.
    unfoldable pub value_at : ℕ → Variable → Option (List ℕ) → Option Value
    unfolding value set_slot
    value_at base v none = none
    value_at base v (some key) =
        some (value f keccak (set_slot v (keccak (key ++ hash_bytes base))))

    unfoldable pub mapping_key : ℕ → SolidityTyp → Variable → List ℕ → Option Value
    unfolding value_at key_bytes
    mapping_key base key_typ v k = value_at base v (key_bytes key_typ k)

-- ===== src/Storage/Mapping/Keys.antt =====
-- storage/utils/mapping_value.go, MappingValue.Key: the slot of an integer key.
use autopatch.Common.{
  ℕ, ◌+◌, ◌-◌, ◌%◌, ◌^◌, ◌<◌, ◌≡◌, ap, ◌∙◌, Option, some, List, ◌++◌, map, arith,
}
use autopatch.Common.Int.{ℤ, pos, negsuc}
use autopatch.Storage.Bytes.{from_bytes, big_bytes, hash_bytes, flip}
use autopatch.Storage.Bytes.Sizes.{from_bytes-flip_hash, big_bytes-hash_bytes}
use autopatch.Storage.Variable.{int_ty, Variable, set_slot}
use autopatch.Storage.Value.{value}
use autopatch.Storage.Mapping.{encode_int, encode_parsed, key_bytes, value_at, mapping_key}

-- The numbers of an int64.
abbrev pub IsInt64 : ℤ → Type 0
IsInt64 (pos n) = n < 2 ^ 63
IsInt64 (negsuc n) = n < 2 ^ 63

-- An integer modulo 2^256, as Solidity encodes it.
abbrev pub twos_complement : ℤ → ℕ
twos_complement (pos n) = n
twos_complement (negsuc n) = 2 ^ 256 - 1 - n

encode_int-twos_complement : (z : ℤ) → IsInt64 z → encode_int z ≡ hash_bytes (twos_complement z)
unfolding encode_int
encode_int-twos_complement (pos n) h = ap hash_bytes (omega (arith, h))
encode_int-twos_complement (negsuc n) h =
    let small : (n + 1) % 2 ^ 256 ≡ n + 1 = omega (arith, h) in
    let flipped = from_bytes-flip_hash (n + 1) (omega (arith, h)) in
    ap (λ (k : ℕ). big_bytes (from_bytes 0 (map flip (hash_bytes k)) + 1)) small
    ∙ ap big_bytes (omega (arith, flipped, h))
    ∙ big_bytes-hash_bytes (2 ^ 256 - 1 - n) (omega (arith, h)) (omega (arith, h))

module _ (from_hex : List ℕ → List ℕ) (parse_int : List ℕ → Option ℤ) (left_behind : List ℕ → ℤ)
    (f : ℕ → List ℕ) (keccak : List ℕ → ℕ) where
  -- The value of an integer key that is an int64 is read at the slot where Solidity puts it: the hash of
  -- the key's 32 bytes in two's complement, and of the 32 bytes of the mapping's slot.
  pub int_key_slot :
      (base : ℕ) (v : Variable) (k : List ℕ) (z : ℤ)
      → parse_int k ≡ some z
      → IsInt64 z
      → mapping_key from_hex parse_int left_behind f keccak base int_ty v k
        ≡ some (
            value f keccak
              (set_slot v (keccak (hash_bytes (twos_complement z) ++ hash_bytes base))))
  unfolding mapping_key key_bytes value_at
  int_key_slot base v k z e h =
      ap
        (λ (o : Option ℤ).
          value_at from_hex parse_int left_behind f keccak base v (encode_parsed o))
        e
      ∙ ap (λ (key : List ℕ). some (value f keccak (set_slot v (keccak (key ++ hash_bytes base)))))
          (encode_int-twos_complement z h)

-- ===== src/Database/U256.antt =====
-- database/utils/serializers/u256.go, U256Serializer. A field of the type *big.Int is marked by a flag; its
-- value is none where the pointer is nil.
pub mod RoundTrip
use autopatch.Common.{
  ℕ, zero, suc, ◌+◌, ◌*◌, ◌/◌, ◌%◌, ◌^◌, Bool, true, false, not, Option, none, some, List, [], ◌∷◌,
  ◌++◌, leb, ◌==◌, if◌then◌else◌,
}
use autopatch.Common.Int.{ℤ, pos, negsuc, ◌*ℤ◌, pos_part}
use autopatch.Storage.Mapping.{read_decimal}

-- What the database holds: a text (a string or bytes), or another value, as pgtype.Numeric reads it, if it
-- does: an integer (never NaN) and an exponent of ten.
pub data DbValue : Type 0 where
  null : DbValue
  text : List ℕ → DbValue
  numeric : ℤ → ℤ → DbValue
  unreadable : DbValue

pub data Scanned : Type 0 where
  unchanged : Scanned
  stored : ℤ → Scanned
  failed : Scanned

-- The value for the database, or an error.
pub data Serialized : Type 0 where
  serialized : DbValue → Serialized
  refused : Serialized

-- u256BigIntOverflow.
abbrev pub u256_overflow : ℕ
u256_overflow = 2 ^ 256

unfoldable pub below_overflow : ℤ → Scanned
below_overflow z = if leb u256_overflow (pos_part z) then failed else stored z

abbrev pub scan_text : Option ℤ → Scanned
scan_text none = failed
scan_text (some z) = below_overflow z

-- The integer times a positive power of ten.
abbrev pub scaled : ℤ → ℤ → ℤ
scaled z (pos e) = z *ℤ pos (10 ^ e)
scaled z (negsuc e) = z

unfoldable pub scan : Bool → DbValue → Scanned
unfolding below_overflow read_decimal
scan is_big_int null = unchanged
scan is_big_int (text s) = if is_big_int then scan_text (read_decimal s) else failed
scan is_big_int (numeric z e) = if is_big_int then below_overflow (scaled z e) else failed
scan is_big_int unreadable = failed

-- big.Int.String of a number below 10^fuel.
unfoldable pub decimal_digits : ℕ → ℕ → List ℕ
decimal_digits zero n = []
decimal_digits (suc fuel) n =
    let front = decimal_digits fuel (n / 10) in
    let last = (n % 10 + 48) ∷ [] in if n / 10 == 0 then last else front ++ last

-- A number of 256 bits has at most 78 digits.
unfoldable pub value_of : Bool → Option ℤ → Serialized
unfolding decimal_digits
value_of is_big_int none = serialized null
value_of is_big_int (some (negsuc n)) = refused
value_of is_big_int (some (pos n)) =
    if not is_big_int
    then refused
    else if leb u256_overflow n
    then refused
    else serialized (text (decimal_digits 78 n))

-- ===== src/Storage/Bytes.antt =====
-- Bytes and the big integers that they stand for, as math/big and go-ethereum's common convert them.
-- The functions are those that storage/utils calls; a byte is a number below 256.
pub mod Laws
pub mod Closed
pub mod Sizes
use autopatch.Common.{
  ℕ, zero, suc, ◌+◌, ◌-◌, ◌*◌, ◌/◌, ◌%◌, ◌^◌, ◌<◌, Bool, true, false, List, [], ◌∷◌, ◌++◌, map,
  length, drop, replicate, if◌then◌else◌, ◌==◌, leb,
}
pub use autopatch.Common.{All}
use autopatch.Common.Int.{ℤ, pos, negsuc}

-- big.Int.SetBytes: big endian.
unfoldable pub from_bytes : ℕ → List ℕ → ℕ
from_bytes acc [] = acc
from_bytes acc (b ∷ bs) = from_bytes (acc * 256 + b) bs

-- big.Int.Bytes with at most `fuel` bytes: big endian, without leading zeros.
unfoldable pub to_bytes : ℕ → ℕ → List ℕ
to_bytes zero n = []
to_bytes (suc fuel) n =
    let front = to_bytes fuel (n / 256) in if n == 0 then [] else front ++ n % 256 ∷ []

-- All numbers here stand for at most 256 bits, so 32 bytes are enough.
unfoldable pub big_bytes : ℕ → List ℕ
big_bytes n = to_bytes 32 n

-- common.BytesToHash(v).Big(): the last 32 bytes, padded at the front.
unfoldable pub word : List ℕ → ℕ
unfolding from_bytes
word v = from_bytes 0 (drop (length v - 32) v)

-- common.BigToHash: the low 256 bits of the magnitude.
abbrev pub to_hash : ℤ → ℕ
to_hash (pos n) = n % 2 ^ 256
to_hash (negsuc n) = (n + 1) % 2 ^ 256

-- Hash.Bytes: 32 bytes.
unfoldable pub hash_bytes : ℕ → List ℕ
unfolding big_bytes
hash_bytes n = let bs = big_bytes n in replicate (32 - length bs) 0 ++ bs

-- Rsh of a number of at most 256 bits.
abbrev pub shr : ℕ → ℕ → ℕ
shr v k = if leb 256 k then 0 else v / 2 ^ k

-- And with the mask 2^k - 1.
abbrev pub low_bits : ℕ → ℕ → ℕ
low_bits v k = v % 2 ^ k

-- ^b of a byte.
abbrev pub flip : ℕ → ℕ
flip b = 255 - b

abbrev pub AreBytes : List ℕ → Type 0
AreBytes = All (λ b. b < 256)

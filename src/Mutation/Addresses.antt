-- ===== src/Mutation/Addresses.antt =====
-- tracing/mutation/type_aware_mutator.go: the mutations of addresses, lists of 20 bytes. The bytes
-- that crypto/rand gives are a parameter.
pub mod Nearby
use autopatch.Common.{
  ℕ, zero, suc, ◌+◌, ◌-◌, ◌*◌, ◌%◌, ◌^◌, List, [], ◌∷◌, ◌++◌, length, take, drop, replicate, get_or,
  set, if◌then◌else◌, ◌==◌,
}
use autopatch.Common.Int.{ℤ, pos, negsuc, ◌+ℤ◌, ◌-ℤ◌}
use autopatch.Storage.Bytes.{from_bytes, to_bytes}
use autopatch.Mutation.Pick.{pick}

-- common.HexToAddress of a number below 2^160.
unfoldable pub address_of : ℕ → List ℕ
address_of n = let bs = to_bytes 20 n in replicate (20 - length bs) 0 ++ bs

-- newAddr[i] = byte(int8(newAddr[i]) + step).
unfoldable pub add_at : ℕ → ℕ → List ℕ → List ℕ
add_at index step addr = set addr index ((get_or addr index 0 + step) % 256)

unfoldable pub flip_address_rounds : ℕ → ℕ → List ℕ → List ℕ
flip_address_rounds variant zero addr = addr
flip_address_rounds variant (suc i) addr =
    add_at (19 - i) ((variant + i) % 256) (flip_address_rounds variant i addr)

-- One to three of the last bytes; the table has four indices, so the loop's bound is the count.
unfoldable pub flip_address_bytes : List ℕ → ℕ → List ℕ
flip_address_bytes addr variant = flip_address_rounds variant (variant % 3 + 1) addr

-- The known addresses after the zero address, by the chain.
abbrev pub ethereum_addresses : List (List ℕ)
ethereum_addresses =
    address_of 0xc02aaa39b223fe8d0a0e5c4f27ead9083c756cc2
    ∷ address_of 0xa0b86991c6218b36c1d19d4a2e9eb0ce3606eb48
    ∷ address_of 0xdac17f958d2ee523a2206206994597c13d831ec7
    ∷ address_of 0x7a250d5630b4cf539739df2c5dacb4c659f2488d
    ∷ []

abbrev pub bsc_addresses : List (List ℕ)
bsc_addresses =
    address_of 0xbb4cdb9cbd36b01bd1cbaebf2de08d9173bc095c
    ∷ address_of 0xe9e7cea3dedca5984780bafc599bd69add087d56
    ∷ address_of 0x10ed43c718714eb63d5aa57b78b54704e256024e
    ∷ address_of 0x8894e0a0c962cb723c1976a4421c95949be2d4e3
    ∷ []

abbrev pub default_addresses : List (List ℕ)
default_addresses = address_of 0x1111111111111111111111111111111111111111 ∷ []

unfoldable pub known_addresses : ℕ → List (List ℕ)
known_addresses chain_id =
    if chain_id == 1
    then ethereum_addresses
    else if chain_id == 56
    then bsc_addresses
    else default_addresses

unfoldable pub use_known_address : ℕ → List ℕ → ℕ → List ℕ
use_known_address chain_id addr variant = pick (address_of 0) (known_addresses chain_id) variant

-- big.Int.Mod by 2^160, which is never negative.
unfoldable pub mod_addr : ℤ → ℕ
mod_addr (pos n) = n % 2 ^ 160
mod_addr (negsuc n) = 2 ^ 160 - 1 - n % 2 ^ 160

-- copy(dst, src).
unfoldable pub copy : List ℕ → List ℕ → List ℕ
copy dst src = take (length dst) src ++ drop (length src) dst

-- The number that the nearby address is to stand for.
unfoldable pub nearby_number : List ℕ → ℕ → ℕ
nearby_number addr variant =
    let step = pos (variant % 1000 + 1) in
    let n = pos (from_bytes 0 addr) in mod_addr (if variant % 2 == 0 then n +ℤ step else n -ℤ step)

-- The bytes of the number, without leading zeros, are copied to the front.
unfoldable pub generate_nearby_addr : List ℕ → ℕ → List ℕ
unfolding copy
generate_nearby_addr addr variant = copy addr (to_bytes 20 (nearby_number addr variant))

unfoldable pub use_zero_address : List ℕ → ℕ → List ℕ
use_zero_address addr variant = replicate 20 0

unfoldable pub mutate_address : ℕ → List ℕ → List ℕ → ℕ → List ℕ
unfolding use_zero_address
mutate_address chain_id random addr variant =
    pick (flip_address_bytes addr variant)
      (use_known_address chain_id addr variant
        ∷ generate_nearby_addr addr variant
        ∷ use_zero_address addr variant
        ∷ random
        ∷ [])
      variant

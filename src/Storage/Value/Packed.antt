-- ===== src/Storage/Value/Packed.antt =====
-- storage/utils/slice_value.go: which bits of which slot an element is read from.
use native.Mathlib.Nat.{mul-le-mul_right, mod-lt, mod-eq_of_lt, div-add-mod}
use autopatch.Common.{ℕ, zero, suc, ◌+◌, ◌*◌, ◌/◌, ◌%◌, ◌^◌, ◌<◌, ◌≡◌, refl, arith, List, ap}
use autopatch.Common.Int.{pos, ◌+ℤ◌}
use autopatch.Sync.Bigint.{int64}
use autopatch.Storage.Bytes.{word, to_hash}
use autopatch.Storage.Value.{
  u64_value, uint_value, uint_elem, bits_at, packed_slot, packed_offset, index, value,
}

bits_pos : (bits per : ℕ) → bits * per ≡ 256 → 0 < bits
bits_pos zero per h = absurd (omega arith)
bits_pos (suc b) per h = omega arith

per_pos : (bits per : ℕ) → bits * per ≡ 256 → 0 < per
per_pos bits zero h = absurd (omega arith)
per_pos bits (suc p) h = omega arith

shift_slots :
    (bits per q r : ℕ)
    → bits * per ≡ 256
    → r < per
    → ((per * q + r) * bits ≡ 256 * q + r * bits) × (r * bits < 256)
shift_slots bits per q r h lt = (
  omega (arith, ap (λ (t : ℕ). t * q) h),
  omega (arith, h, mul-le-mul_right bits lt, bits_pos bits per h),
)

-- With `per` elements of `bits` bits filling a slot, element i is the (i % per)-th of the slot that
-- lies i / per slots on.
packed_position :
    (bits per i : ℕ)
    → bits * per ≡ 256
    → (i * bits / 256 ≡ i / per) × (i * bits % 256 ≡ i % per * bits)
packed_position bits per i h =
    let lt = mod-lt i (per_pos bits per h) in
    let s = shift_slots bits per (i / per) (i % per) h lt in
    let e : per * (i / per) + i % per ≡ i = div-add-mod i per in
    omega (arith, ap (λ (t : ℕ). t * bits) e, s.0, s.1)

to_hash-add : (s q : ℕ) → q < 2 ^ 63 → s + q < 2 ^ 256 → to_hash (pos s +ℤ int64 q) ≡ s + q
unfolding ◌+ℤ◌
to_hash-add s q small fits = ground arith

packed_place :
    (bits per s i : ℕ)
    → bits * per ≡ 256
    → i * bits < 2 ^ 64
    → s + i / per < 2 ^ 256
    → (packed_slot s bits i ≡ s + i / per) × (packed_offset bits i ≡ i % per * bits)
packed_place bits per s i h small fits =
    let p = packed_position bits per i h in
    rw (mod-eq_of_lt small, p.0, p.1) (to_hash-add s (i / per) (omega (arith, p.0)) fits, refl)

-- The elements of a packed slice of unsigned numbers, of as many bits as divide a slot: element i is
-- read at its place in the Solidity layout, the (i % per)-th from the right of the slot i / per slots
-- behind the first. Slots stay below 2^256, and the bits counted below 2^64.
pub index-packed :
    (f : ℕ → List ℕ) (keccak : List ℕ → ℕ) (bits per s i : ℕ)
    → bits * per ≡ 256
    → i * bits < 2 ^ 64
    → s + i / per < 2 ^ 256
    → index f keccak (uint_elem bits) s i
      ≡ uint_value (bits_at (word (f (s + i / per))) (i % per * bits) bits)
unfolding index value
index-packed f keccak bits per s i h small fits =
    let p = packed_place bits per s i h small fits in rw (p.0, p.1)

offset_240 : (i : ℕ) → i % 32 ≡ 10 → i < 2 ^ 32 → packed_offset 24 i ≡ 240
offset_240 i r small = omega arith

bits_at-240 : (v : ℕ) → v < 2 ^ 256 → bits_at v 240 24 < 2 ^ 16
unfolding bits_at
bits_at-240 v h = omega arith

u64_of_small : (v : ℕ) → v < 2 ^ 16 → uint_value v ≡ u64_value v
unfolding uint_value
u64_of_small v h = ground arith

-- Elements whose bits do not divide a slot are not laid out across slots, but they are read so: of
-- every eleventh of 32 elements of 24 bits only the 16 bits that are left in the slot are read.
pub index-straddles :
    (f : ℕ → List ℕ) (keccak : List ℕ → ℕ) (s i : ℕ)
    → ((z : ℕ) → word (f z) < 2 ^ 256)
    → i % 32 ≡ 10
    → i < 2 ^ 32
    → (v : ℕ) × (index f keccak (uint_elem 24) s i ≡ u64_value v) × (v < 2 ^ 16)
unfolding index value
index-straddles f keccak s i w r small =
    let v = bits_at (word (f (packed_slot s 24 i))) 240 24 in
    let short : v < 2 ^ 16 = bits_at-240 _ (w _) in
    (v, rw (offset_240 i r small) (u64_of_small v short), short)

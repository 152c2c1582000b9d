-- ===== src/Storage/Value/Strings.antt =====
-- storage/utils/scan.go, SolidityString.Value: short strings beside their length, long strings in
-- the slots from the hash of their slot on.
use native.Mathlib.Nat.{add-mul-div_right, add_comm, mul_assoc, div-eq_of_lt, zero-add}
use autopatch.Common.{
  ℕ, suc, ◌+◌, ◌-◌, ◌*◌, ◌/◌, ◌^◌, ◌≤◌, ◌<◌, ◌≡◌, arith, List, [], ◌∷◌, ◌++◌, length, length-append,
  length-replicate, replicate, ◌∙◌, ap,
}
use autopatch.Common.Int.{pos, ◌+ℤ◌, ◌-ℤ◌}
use autopatch.Storage.Bytes.{from_bytes, big_bytes, word, to_hash, hash_bytes, shr, AreBytes}
use autopatch.Storage.Bytes.Laws.{
  from_bytes-append, from_bytes-snoc, from_bytes-zeros, to_bytes-from_bytes, pow-8, pow256-suc,
  pow256-pos,
}
use autopatch.Storage.Value.{
  text_value, string_value, string_of, short_string, long_string, middle_slots, last_slot,
}

-- The slot of a short string in the Solidity layout: the bytes, zeros, and twice the length.
abbrev pub short_slot : List ℕ → List ℕ
short_slot s = s ++ (replicate (31 - length s) 0 ++ (2 * length s) ∷ [])

word-short_slot :
    (s : List ℕ)
    → length s ≤ 31
    → word (short_slot s) ≡ from_bytes 0 s * 256 ^ (31 - length s) * 256 + 2 * length s
unfolding word
word-short_slot s h =
    let whole : length (short_slot s) - 32 ≡ 0 = omega (
      arith,
      length-append s (replicate (31 - length s) 0 ++ (2 * length s) ∷ []),
      length-append (replicate (31 - length s) 0) ((2 * length s) ∷ []),
      length-replicate {A = ℕ} (31 - length s) 0,
    ) in
    rw whole (
      from_bytes-append 0 s (replicate (31 - length s) 0 ++ (2 * length s) ∷ [])
      ∙ from_bytes-snoc (from_bytes 0 s) (replicate (31 - length s) 0) (2 * length s)
      ∙ ap (λ (t : ℕ). t * 256 + 2 * length s) (from_bytes-zeros (from_bytes 0 s) (31 - length s)))

div_exact : (m q x : ℕ) → x < q → (m * q + x) / q ≡ m
div_exact m q x h =
    rw (add_comm (m * q) x, add-mul-div_right x m (pos_of_lt x q h), div-eq_of_lt h) (zero-add m)
  where
    pos_of_lt : (x q : ℕ) → x < q → 0 < q
    pos_of_lt x q h = omega arith

-- What is left of a short string's word after the shift by 256 less 8 bits for each byte.
short_shift : (n m : ℕ) → n ≤ 30 → shr (m * 256 ^ (30 - n) * 256 + 2 * suc n) (256 - 8 * suc n) ≡ m
short_shift n m h =
    let p : 2 ^ (256 - 8 * suc n) ≡ 256 ^ (30 - n) * 256 =
      ap (λ (t : ℕ). 2 ^ t) (omega arith) ∙ pow-8 (suc (30 - n)) ∙ pow256-suc (30 - n) in
    ground (
      arith,
      p,
      pow256-pos (30 - n),
      mul_assoc m (256 ^ (30 - n)) 256,
      div_exact m (256 ^ (30 - n) * 256) (2 * suc n),
    )

-- A word that ends in twice a length below 32 is a short string of that length.
short_string_lem :
    (m k : ℕ)
    → k ≤ 31
    → short_string (m * 256 + 2 * k) ≡ big_bytes (shr (m * 256 + 2 * k) (256 - 8 * k))
unfolding short_string
short_string_lem m k h = ap (λ (t : ℕ). big_bytes (shr (m * 256 + 2 * k) t)) (omega arith)

string_of-short :
    (f : ℕ → List ℕ) (keccak : List ℕ → ℕ) (slot m k : ℕ)
    → string_of f keccak slot (m * 256 + 2 * k) ≡ short_string (m * 256 + 2 * k)
unfolding string_of
string_of-short f keccak slot m k = ground arith

-- A short string of the layout (at most 31 bytes, the first not zero) is read back as it was.
pub short_string_roundtrip :
    (f : ℕ → List ℕ) (keccak : List ℕ → ℕ) (slot c : ℕ) (s : List ℕ)
    → f slot ≡ short_slot (c ∷ s)
    → 0 < c
    → AreBytes (c ∷ s)
    → length s ≤ 30
    → string_value f keccak slot ≡ text_value (c ∷ s)
unfolding string_value big_bytes
short_string_roundtrip f keccak slot c s e h b l =
    let n = length s in
    let v = from_bytes 0 (c ∷ s) in
    let w : word (f slot) ≡ v * 256 ^ (30 - n) * 256 + 2 * suc n = rw e (
      word-short_slot (c ∷ s) (omega arith)
      ∙ ap (λ (t : ℕ). v * 256 ^ t * 256 + 2 * suc n) (omega arith)) in
    ap text_value (
      rw w (
        string_of-short f keccak slot (v * 256 ^ (30 - n)) (suc n)
        ∙ short_string_lem (v * 256 ^ (30 - n)) (suc n) (omega arith)
        ∙ ap big_bytes (short_shift n v l)
        ∙ to_bytes-from_bytes c s 32 h b (omega arith)))

to_hash-zero : (h : ℕ) → h < 2 ^ 256 → to_hash (pos h +ℤ pos 0) ≡ h
unfolding ◌+ℤ◌
to_hash-zero h small = ground arith

-- A string of exactly 32 bytes is read twice over: its only slot is both the first and the last.
pub long_string_doubled :
    (f : ℕ → List ℕ) (keccak : List ℕ → ℕ) (slot : ℕ)
    → word (f slot) ≡ 65
    → keccak (hash_bytes slot) < 2 ^ 256
    → let first = keccak (hash_bytes slot) in
      string_value f keccak slot ≡ text_value (f first ++ f first)
unfolding string_value string_of long_string middle_slots last_slot ◌-ℤ◌
long_string_doubled f keccak slot e k =
    let first = keccak (hash_bytes slot) in
    ap text_value (rw e (ap (λ (t : ℕ). f first ++ f t) (to_hash-zero first k)))

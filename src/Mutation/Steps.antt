-- ===== src/Mutation/Steps.antt =====
-- tracing/mutation/mutation_manager.go: mutations of call data and of storage by steps. The lists of
-- steps are given by their first entry and the rest, since the code divides by their lengths;
-- max_mutations is positive for the same reason.
mod Bytes
pub mod Selector
pub mod Wraps
pub mod Entries
use autopatch.Common.{
  ℕ, zero, suc, ◌+◌, ◌-◌, ◌*◌, ◌/◌, ◌%◌, ◌^◌, Bool, List, [], ◌∷◌, ◌++◌, length, take, drop,
  replicate, get_or, set, ltb, leb, ◌==◌, if◌then◌else◌,
}
use autopatch.Common.Int.{ℤ, pos, negsuc, ◌+ℤ◌, ◌-ℤ◌, ◌*ℤ◌, ltb_ℤ, pos_part, neg_part}
use autopatch.Sync.Bigint.{int64}
use autopatch.Storage.Bytes.{from_bytes, to_bytes, to_hash}
use autopatch.Mutation.Pick.{pick}

pub record MutationConfig : Type 0 where
  pub input_step : ℤ
  pub input_steps : List ℤ
  pub storage_step : ℤ
  pub storage_steps : List ℤ
  pub byte_step : ℤ
  pub byte_steps : List ℤ
  pub max_mutations : ℕ

abbrev pub default_mutation_config : MutationConfig
default_mutation_config = record {
  input_step = pos 10;
  input_steps =
      pos 100
      ∷ pos 1000
      ∷ negsuc 9
      ∷ negsuc 99
      ∷ negsuc 999
      ∷ pos 1
      ∷ negsuc 0
      ∷ pos 50
      ∷ negsuc 49
      ∷ [];
  storage_step = pos 1;
  storage_steps =
      pos 10
      ∷ pos 100
      ∷ pos 1000
      ∷ negsuc 0
      ∷ negsuc 9
      ∷ negsuc 99
      ∷ negsuc 999
      ∷ pos 5
      ∷ negsuc 4
      ∷ [];
  byte_step = pos 1;
  byte_steps = pos 2 ∷ pos 5 ∷ pos 10 ∷ negsuc 0 ∷ negsuc 1 ∷ negsuc 4 ∷ negsuc 9 ∷ [];
  max_mutations = 3;
}

-- The handling of a byte out of range, and byte() of the result. The remainder of a negative int is
-- not positive.
unfoldable pub wrap_byte : ℤ → ℕ
wrap_byte (pos n) = if ltb 255 n then n % 256 else n
wrap_byte (negsuc n) = (256 - (n + 1) % 256) % 256

-- An int64 product.
unfoldable pub wrap64 : ℤ → ℤ
wrap64 (pos n) = int64 (n % 2 ^ 64)
wrap64 (negsuc n) = int64 ((2 ^ 64 - (n + 1) % 2 ^ 64) % 2 ^ 64)

abbrev pub magnitude : ℤ → ℕ
magnitude z = pos_part z + neg_part z

-- The last eight bytes of a number's magnitude, padded at the front. The magnitude is below 2^65.
unfoldable pub eight_bytes : ℤ → List ℕ
eight_bytes z =
    let bs = to_bytes 9 (magnitude z) in
    let value_bytes = drop (length bs - 8) bs in replicate (8 - length value_bytes) 0 ++ value_bytes

unfoldable pub word_delta : ℤ → ℕ → ℕ → ℤ
unfolding wrap64
word_delta step variant i =
    let delta = wrap64 (step *ℤ pos (i + 1)) in if variant % 2 == 1 then pos 0 -ℤ delta else delta

-- The larger step on the eight bytes from the offset on.
unfoldable pub step_word : ℤ → ℕ → ℕ → ℕ → List ℕ → List ℕ
unfolding eight_bytes word_delta
step_word step variant i offset bs =
    if leb (offset + 8) (length bs)
    then (let current = from_bytes 0 (take 8 (drop offset bs)) in
        take offset bs
        ++ (eight_bytes (pos current +ℤ word_delta step variant i) ++ drop (offset + 8) bs))
    else bs

-- One round of the loop.
unfoldable pub step_round : ℤ → ℤ → ℕ → ℕ → List ℕ → List ℕ
unfolding step_word wrap_byte
step_round byte_step step variant i bs =
    let offset = (variant + i * 17) % length bs in
    step_word step variant i offset
      (set bs offset (wrap_byte (pos (get_or bs offset 0) +ℤ byte_step)))

unfoldable pub step_rounds : ℤ → ℤ → ℕ → ℕ → List ℕ → List ℕ
step_rounds byte_step step variant zero bs = bs
step_rounds byte_step step variant (suc i) bs =
    step_round byte_step step variant i (step_rounds byte_step step variant i bs)

unfoldable pub apply_step_mutation_to_bytes : MutationConfig → List ℕ → ℤ → ℕ → List ℕ
unfolding step_rounds
apply_step_mutation_to_bytes m bs step variant =
    let count = variant % m.max_mutations + 1 in
    step_rounds (pick m.byte_step m.byte_steps variant) step variant
      (if ltb count (length bs) then count else length bs) bs

unfoldable pub generate_step_based_input_data : MutationConfig → List ℕ → ℕ → List ℕ
generate_step_based_input_data m original_input variant =
    if ltb (length original_input) 4
    then original_input
    else take 4 original_input
      ++ apply_step_mutation_to_bytes m (drop 4 original_input)
          (pick m.input_step m.input_steps variant) variant

-- uint256.FromBig of 2^256 is zero with an overflow that is not looked at; SubUint64 wraps.
abbrev pub max_value : ℕ
max_value = 2 ^ 256 - 1

unfoldable pub storage_delta : ℤ → ℕ → ℤ
storage_delta step variant = if variant % 3 == 0 then step *ℤ pos (variant + 1) else step

-- big.Int.Mod, which is not negative.
unfoldable pub mod_max : ℤ → ℕ
mod_max (pos n) = n % max_value
mod_max (negsuc n) = max_value - 1 - n % max_value

-- The handling of an overflow.
unfoldable pub lift : ℤ → ℤ
lift z = if ltb_ℤ z (pos 0) then z +ℤ pos max_value else z

unfoldable pub reduce : ℤ → ℤ
unfolding mod_max
reduce z = if leb (2 ^ 256) (magnitude z) then pos (mod_max z) else z

unfoldable pub generate_step_based_storage_value : ℕ → ℤ → ℕ → ℕ
unfolding lift reduce
generate_step_based_storage_value original step variant =
    to_hash (reduce (lift (pos original +ℤ storage_delta step variant)))

-- The loop over the storage, in the order in which the map is walked, from key_index on.
unfoldable pub change_entries : ℤ → ℕ → ℕ → ℕ → List (ℕ × ℕ) → List (ℕ × ℕ)
change_entries step variant bound key_index [] = []
change_entries step variant bound key_index ((key, value) ∷ rest) =
    (
      key,
      if leb bound key_index
          then value
          else generate_step_based_storage_value value step (variant + key_index),
    )
    ∷ change_entries step variant bound (key_index + 1) rest

unfoldable pub generate_step_based_storage_changes :
    MutationConfig → List (ℕ × ℕ) → ℕ → List (ℕ × ℕ)
unfolding change_entries
generate_step_based_storage_changes m original variant =
    change_entries (pick m.storage_step m.storage_steps variant) variant
      (variant % m.max_mutations + 1) 0 original

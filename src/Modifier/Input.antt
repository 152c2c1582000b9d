-- ===== src/Modifier/Input.antt =====
-- tracing/mutation/modifier.go, modifyInputDataBasicStrategy and the strategies it chooses from. A
-- variant is the callers' counter; it is small enough for its products to be int values.
pub mod Keeps
pub mod Selector
pub mod Panics
pub mod Steps
pub mod Increment
use autopatch.Common.{
  ℕ, zero, suc, ◌+◌, ◌-◌, ◌*◌, ◌/◌, ◌%◌, ◌^◌, Bool, true, false, ◌&&◌, List, [], ◌∷◌, ◌++◌, length,
  take, drop, replicate, get_or, set, ltb, leb, ◌==◌, if◌then◌else◌,
}
use autopatch.Common.Int.{ℤ, pos, negsuc, ◌+ℤ◌, pos_part}
use autopatch.Common.Text.{codes}
use autopatch.Storage.Bytes.{from_bytes, to_bytes}
use autopatch.Storage.Label.{text_beq}
use autopatch.Mutation.Pick.{pick}
use autopatch.Modifier.Outcome.{Outcome, returned, failed, panics}

-- The cases of the switch over the strategy's name.
pub data Strategy : Type 0 where
  address_known_substitution address_nearby_mutation uint256_boundary_values : Strategy
  uint256_step_increment uint256_multiplier bool_flip bytes_pattern_fill : Strategy
  string_length_mutation default_strategy : Strategy

unfoldable pub strategy_of : List ℕ → Strategy
strategy_of name =
    if text_beq name (codes "address_known_substitution")
    then address_known_substitution
    else if text_beq name (codes "address_nearby_mutation")
    then address_nearby_mutation
    else if text_beq name (codes "uint256_boundary_values")
    then uint256_boundary_values
    else if text_beq name (codes "uint256_step_increment")
    then uint256_step_increment
    else if text_beq name (codes "uint256_multiplier")
    then uint256_multiplier
    else if text_beq name (codes "bool_flip")
    then bool_flip
    else if text_beq name (codes "bytes_pattern_fill")
    then bytes_pattern_fill
    else if text_beq name (codes "string_length_mutation")
    then string_length_mutation
    else default_strategy

-- copy(bs[i:i+len(w)], w).
unfoldable pub put : List ℕ → ℕ → List ℕ → List ℕ
put bs i w = take i bs ++ (w ++ drop (i + length w) bs)

-- The word is cleared, and the number is written so that it ends where the word ends. A number of more
-- than 32 bytes starts before the word. The numbers here have at most 34 bytes.
unfoldable pub put_number : List ℕ → ℕ → ℕ → List ℕ
unfolding put
put_number bs start n =
    let v = to_bytes 34 n in put (put bs start (replicate 32 0)) (start + 32 - length v) v

abbrev pub word_at : List ℕ → ℕ → ℕ
word_at bs start = from_bytes 0 (take 32 (drop start bs))

-- The choice of the parameter that a strategy changes: a remainder by the number of whole words.
unfoldable pub with_param : List ℕ → ℕ → (ℕ → List ℕ) → Outcome (List ℕ)
with_param bs n change =
    let words = (length bs - 4) / 32 in
    let start = 4 + n % words * 32 in
    if words == 0
    then panics
    else returned (if leb (start + 32) (length bs) then change start else bs)

abbrev pub zero_prefix : ℕ → List ℕ → Bool
zero_prefix zero bs = true
zero_prefix (suc k) [] = true
zero_prefix (suc k) (b ∷ bs) = b == 0 && zero_prefix k bs

-- A change of the byte at i by an int, modulo 256.
abbrev pub add_byte : List ℕ → ℕ → ℕ → List ℕ
add_byte bs i n = set bs i ((get_or bs i 0 + n) % 256)

-- The loop over the words, on fuel: it goes on while a whole word is left.
unfoldable pub over_words : (List ℕ → ℕ → List ℕ) → ℕ → ℕ → List ℕ → List ℕ
over_words change zero i bs = bs
over_words change (suc fuel) i bs =
    let rest =
      over_words change fuel (i + 32) (if zero_prefix 12 (drop i bs) then change bs i else bs) in
    if leb (i + 32) (length bs) then rest else bs

unfoldable pub mutate_addresses_in_params : List ℕ → ℕ → List ℕ
unfolding over_words
mutate_addresses_in_params bs variant =
    over_words (λ (b : List ℕ) (i : ℕ). add_byte b (i + 31) variant) (length bs / 32) 4 bs

unfoldable pub mutate_addresses_nearby : List ℕ → ℕ → List ℕ
unfolding over_words
mutate_addresses_nearby bs variant =
    over_words
      (λ (b : List ℕ) (i : ℕ).
        add_byte (add_byte b (i + 30) (1000 + variant * 100)) (i + 31) variant)
      (length bs / 32) 4 bs

unfoldable pub put_boundary : List ℕ → ℕ → ℕ → List ℕ
unfolding put
put_boundary bs variant start = put bs start (pick (replicate 32 0) (replicate 32 255 ∷ []) variant)

unfoldable pub mutate_uint_boundary : List ℕ → ℕ → Outcome (List ℕ)
unfolding with_param put_boundary
mutate_uint_boundary bs variant = with_param bs (variant / 2) (put_boundary bs variant)

abbrev pub steps : List ℤ
steps = negsuc 0 ∷ pos 10 ∷ negsuc 9 ∷ pos 100 ∷ negsuc 99 ∷ pos 1000 ∷ negsuc 999 ∷ []

-- The sum, or 0 where it is negative.
abbrev pub stepped : ℕ → ℕ → ℕ
stepped current variant = pos_part (pos current +ℤ pick (pos 1) steps variant)

unfoldable pub put_stepped : List ℕ → ℕ → ℕ → List ℕ
unfolding put_number
put_stepped bs variant start = put_number bs start (stepped (word_at bs start) variant)

unfoldable pub mutate_uint_step : List ℕ → ℕ → Outcome (List ℕ)
unfolding with_param put_stepped
mutate_uint_step bs variant = with_param bs (variant / 8) (put_stepped bs variant)

unfoldable pub put_product : List ℕ → ℕ → ℕ → List ℕ
unfolding put
put_product bs start n =
    let v = to_bytes 34 n in
    let cleared = put bs start (replicate 32 0) in
    if leb (length v) 32 then put cleared (start + 32 - length v) v else cleared

unfoldable pub put_multiple : List ℕ → ℕ → ℕ → List ℕ
unfolding put_product
put_multiple bs variant start =
    put_product bs start (word_at bs start * pick 2 (10 ∷ 100 ∷ 1000 ∷ []) variant)

unfoldable pub mutate_uint_multiplier : List ℕ → ℕ → Outcome (List ℕ)
unfolding with_param put_multiple
mutate_uint_multiplier bs variant = with_param bs (variant / 4) (put_multiple bs variant)

unfoldable pub flip_bool : List ℕ → ℕ → List ℕ
flip_bool bs start = set bs (start + 31) (if get_or bs (start + 31) 0 == 0 then 1 else 0)

unfoldable pub mutate_bool_flip : List ℕ → ℕ → Outcome (List ℕ)
unfolding with_param flip_bool
mutate_bool_flip bs variant = with_param bs variant (flip_bool bs)

abbrev pub patterns : List ℕ
patterns = 255 ∷ 170 ∷ 85 ∷ 222 ∷ 173 ∷ 190 ∷ 239 ∷ []

unfoldable pub fill_pattern : List ℕ → ℕ → ℕ → List ℕ
unfolding put
fill_pattern bs variant start = put bs start (replicate 32 (pick 0 patterns variant))

unfoldable pub mutate_byte_patterns : List ℕ → ℕ → Outcome (List ℕ)
unfolding with_param fill_pattern
mutate_byte_patterns bs variant = with_param bs (variant / 8) (fill_pattern bs variant)

abbrev pub lengths : List ℕ
lengths = 1 ∷ 32 ∷ 64 ∷ 1000 ∷ 10000 ∷ []

unfoldable pub put_length : List ℕ → ℕ → ℕ → List ℕ
unfolding put_number
put_length bs variant start = put_number bs start (pick 0 lengths variant)

unfoldable pub mutate_string_length : List ℕ → ℕ → Outcome (List ℕ)
unfolding with_param put_length
mutate_string_length bs variant = with_param bs variant (put_length bs variant)

-- The change of one byte of the parameters, and of a second one for a variant above 10.
unfoldable pub change_default : List ℕ → ℕ → List ℕ
change_default bs variant =
    let param_length = length bs - 4 in
    let first = add_byte bs (4 + variant % param_length) (variant + 1) in
    if ltb 10 variant && ltb 32 param_length
    then add_byte first (4 + variant * 7 % param_length) (variant * 2)
    else first

unfoldable pub modify_input_data_default : List ℕ → ℕ → Outcome (List ℕ)
unfolding change_default
modify_input_data_default bs variant =
    if ltb (length bs) 4
    then failed
    else returned (if ltb 4 (length bs) then change_default bs variant else bs)

unfoldable pub run_strategy : Strategy → List ℕ → ℕ → Outcome (List ℕ)
run_strategy address_known_substitution bs variant =
    returned (mutate_addresses_in_params bs variant)
run_strategy address_nearby_mutation bs variant = returned (mutate_addresses_nearby bs variant)
run_strategy uint256_boundary_values bs variant = mutate_uint_boundary bs variant
run_strategy uint256_step_increment bs variant = mutate_uint_step bs variant
run_strategy uint256_multiplier bs variant = mutate_uint_multiplier bs variant
run_strategy bool_flip bs variant = mutate_bool_flip bs variant
run_strategy bytes_pattern_fill bs variant = mutate_byte_patterns bs variant
run_strategy string_length_mutation bs variant = mutate_string_length bs variant
run_strategy default_strategy bs variant = modify_input_data_default bs variant

unfoldable pub modify_input_data_basic_strategy : List ℕ → List ℕ → ℕ → Outcome (List ℕ)
unfolding run_strategy
modify_input_data_basic_strategy input_data strategy variant =
    if ltb (length input_data) 4
    then failed
    else run_strategy (strategy_of strategy) input_data variant

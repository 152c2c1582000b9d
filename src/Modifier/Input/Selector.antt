-- ===== src/Modifier/Input/Selector.antt =====
-- tracing/mutation/modifier.go, modifyInputDataBasicStrategy: the selector under the strategies.
use autopatch.Common.{
  ℕ, zero, suc, ◌+◌, ◌-◌, ◌*◌, ◌/◌, ◌%◌, ◌^◌, ◌≤◌, ◌<◌, ◌≡◌, ◌≢◌, refl, Bool, true, false, inl, inr,
  List, [], ◌∷◌, length, drop, replicate, get_or, arith, ltb, leb, ◌==◌, if◌then◌else◌, Bool-cases,
  leb→le,
}
use autopatch.Storage.Bytes.{AreBytes}
use autopatch.Mutation.Pick.{pick, pick-All}
use autopatch.Modifier.Outcome.{Outcome, returned, failed, Ensured, Ensured-returned}
use autopatch.Modifier.Input.Keeps.{
  Keeps, Keeps-refl, Keeps-trans, Keeps-if, set-Keeps, add_byte-Keeps, put-Keeps, put_number-Keeps,
  put_product-Keeps,
}
use autopatch.Modifier.Input.{
  Strategy, address_known_substitution, address_nearby_mutation, uint256_boundary_values,
  uint256_step_increment, uint256_multiplier, bool_flip, bytes_pattern_fill, string_length_mutation,
  default_strategy, strategy_of, with_param, zero_prefix, over_words, mutate_addresses_in_params,
  mutate_addresses_nearby, mutate_uint_boundary, mutate_uint_multiplier, mutate_bool_flip, patterns,
  lengths, mutate_byte_patterns, mutate_string_length, change_default, modify_input_data_default,
  add_byte, run_strategy, modify_input_data_basic_strategy, put, put_boundary, put_multiple,
  flip_bool, fill_pattern, put_length,
}

pub with_param-Keeps :
    (k : ℕ) (bs : List ℕ) (n : ℕ) (change : ℕ → List ℕ)
    → ((start : ℕ) → 4 ≤ start → start + 32 ≤ length bs → Keeps k bs (change start))
    → AreBytes bs
    → Ensured (Keeps k bs) (with_param bs n change)
unfolding with_param
with_param-Keeps k bs n change h b = elim (Bool-cases ((length bs - 4) / 32 == 0)) [
  | inl none_whole ↦ rw none_whole tt
  | inr some_whole ↦
      let start = 4 + n % ((length bs - 4) / 32) * 32 in
      rw some_whole (elim (Bool-cases (leb (start + 32) (length bs))) [
        | inl fits ↦ rw fits (h start (omega arith) (leb→le (start + 32) (length bs) fits))
        | inr out ↦ rw out (Keeps-refl k bs b)
      ])
]

over_words-Keeps :
    (change : List ℕ → ℕ → List ℕ) (fuel i : ℕ) (bs : List ℕ)
    → ((b : List ℕ) (i : ℕ) → 4 ≤ i → AreBytes b → Keeps 4 b (change b i))
    → 4 ≤ i
    → AreBytes bs
    → Keeps 4 bs (over_words change fuel i bs)
unfolding over_words
over_words-Keeps change zero i bs h l b = Keeps-refl 4 bs b
over_words-Keeps change (suc fuel) i bs h l b =
    let next = if zero_prefix 12 (drop i bs) then change bs i else bs in
    let one : Keeps 4 bs next =
      Keeps-if (zero_prefix 12 (drop i bs)) (h bs i l b) (Keeps-refl 4 bs b) in
    Keeps-if (leb (i + 32) (length bs))
      (Keeps-trans one (over_words-Keeps change fuel (i + 32) next h (omega arith) one.stays_bytes))
      (Keeps-refl 4 bs b)

full_word-AreBytes : (n b : ℕ) → b < 256 → AreBytes (replicate n b)
full_word-AreBytes zero b h = tt
full_word-AreBytes (suc n) b h = (h, full_word-AreBytes n b h)

boundary-Keeps :
    (bs : List ℕ) (start variant : ℕ)
    → 4 ≤ start
    → start + 32 ≤ length bs
    → AreBytes bs
    → Keeps 4 bs (put bs start (pick (replicate 32 0) (replicate 32 255 ∷ []) variant))
boundary-Keeps bs start variant l fits b =
    let good =
      pick-All (λ (w : List ℕ). (length w ≡ 32) × AreBytes w) (replicate 32 0)
        (replicate 32 255 ∷ []) variant
        (
          (refl, full_word-AreBytes 32 0 (omega arith)),
          ((refl, full_word-AreBytes 32 255 (omega arith)), tt),
        ) in
    put-Keeps 4 bs start _ l (omega (arith, good.0, fits)) good.1 b

bit-lt : (c : Bool) → (if c then 1 else 0) < 256
bit-lt true = omega arith
bit-lt false = omega arith

pattern-lt : (variant : ℕ) → pick 0 patterns variant < 256
pattern-lt variant =
    pick-All (λ p. p < 256) 0 patterns variant
      (
        omega arith,
        (
          omega arith,
          (
            omega arith,
            (omega arith, (omega arith, (omega arith, (omega arith, (omega arith, tt))))),
          ),
        ),
      )

length_lt : (variant : ℕ) → pick 0 lengths variant < 256 ^ (32 + 0)
length_lt variant =
    pick-All (λ p. p < 256 ^ 32) 0 lengths variant
      (omega arith, (omega arith, (omega arith, (omega arith, (omega arith, (omega arith, tt))))))

change_default-Keeps :
    (bs : List ℕ) (variant : ℕ) → AreBytes bs → Keeps 4 bs (change_default bs variant)
unfolding change_default
change_default-Keeps bs variant b =
    let first = add_byte-Keeps 4 bs (4 + variant % (length bs - 4)) (variant + 1) (omega arith) b in
    Keeps-if _ (Keeps-trans first (add_byte-Keeps 4 _ _ _ (omega arith) first.stays_bytes)) first

guarded :
    (P : List ℕ → Type 0) (o : Outcome (List ℕ)) (short : Bool)
    → Ensured P o
    → Ensured P (if short then failed else o)
guarded P o true h = tt
guarded P o false h = h

default-Keeps :
    (bs : List ℕ) (variant : ℕ)
    → AreBytes bs
    → Ensured (Keeps 4 bs) (modify_input_data_default bs variant)
unfolding modify_input_data_default
default-Keeps bs variant b = elim (Bool-cases (ltb (length bs) 4)) [
  | inl short ↦ rw short tt
  | inr long ↦
      rw long (Keeps-if (ltb 4 (length bs)) (change_default-Keeps bs variant b) (Keeps-refl 4 bs b))
]

run_strategy-Keeps :
    (s : Strategy) (bs : List ℕ) (variant : ℕ)
    → s ≢ uint256_step_increment
    → AreBytes bs
    → Ensured (Keeps 4 bs) (run_strategy s bs variant)
unfolding run_strategy mutate_addresses_in_params mutate_addresses_nearby mutate_uint_boundary
    mutate_uint_multiplier mutate_bool_flip mutate_byte_patterns mutate_string_length put_boundary
    put_multiple flip_bool fill_pattern put_length
run_strategy-Keeps address_known_substitution bs variant ne b =
    over_words-Keeps (λ (b : List ℕ) (i : ℕ). add_byte b (i + 31) variant) (length bs / 32) 4 bs
      (λ c i l h. add_byte-Keeps 4 c (i + 31) variant (omega arith) h) (omega arith) b
run_strategy-Keeps address_nearby_mutation bs variant ne b =
    let change : List ℕ → ℕ → List ℕ =
      λ c i. add_byte (add_byte c (i + 30) (1000 + variant * 100)) (i + 31) variant in
    over_words-Keeps change (length bs / 32) 4 bs
      (λ c i l h.
        let first = add_byte-Keeps 4 c (i + 30) (1000 + variant * 100) (omega arith) h in
        Keeps-trans first (add_byte-Keeps 4 _ (i + 31) variant (omega arith) first.stays_bytes))
      (omega arith) b
run_strategy-Keeps uint256_boundary_values bs variant ne b =
    with_param-Keeps 4 bs (variant / 2) (put_boundary bs variant)
      (λ start l fits. boundary-Keeps bs start variant l fits b) b
run_strategy-Keeps uint256_step_increment bs variant ne b = absurd (ne refl)
run_strategy-Keeps uint256_multiplier bs variant ne b =
    with_param-Keeps 4 bs (variant / 4) (put_multiple bs variant)
      (λ start l fits. put_product-Keeps 4 bs start _ l fits b) b
run_strategy-Keeps bool_flip bs variant ne b =
    with_param-Keeps 4 bs variant (flip_bool bs)
      (λ start l fits.
        set-Keeps 4 bs (start + 31) _ (omega arith) (bit-lt (get_or bs (start + 31) 0 == 0)) b)
      b
run_strategy-Keeps bytes_pattern_fill bs variant ne b =
    let byte = pick 0 patterns variant in
    with_param-Keeps 4 bs (variant / 8) (fill_pattern bs variant)
      (λ start l fits.
        put-Keeps 4 bs start (replicate 32 byte) l fits
          (full_word-AreBytes 32 byte (pattern-lt variant)) b)
      b
run_strategy-Keeps string_length_mutation bs variant ne b =
    let size = pick 0 lengths variant in
    with_param-Keeps 4 bs variant (put_length bs variant)
      (λ start l fits. put_number-Keeps 4 0 bs start size (omega arith) fits (length_lt variant) b)
      b
run_strategy-Keeps default_strategy bs variant ne b = default-Keeps bs variant b

-- Every strategy but uint256_step_increment gives call data of the same length, with the same selector,
-- that consists of bytes, whenever it gives call data at all.
pub modify_input_data-Keeps :
    (bs : List ℕ) (strategy : List ℕ) (variant : ℕ) (out : List ℕ)
    → AreBytes bs
    → strategy_of strategy ≢ uint256_step_increment
    → modify_input_data_basic_strategy bs strategy variant ≡ returned out
    → Keeps 4 bs out
unfolding modify_input_data_basic_strategy
modify_input_data-Keeps bs strategy variant out b ne e =
    Ensured-returned (Keeps 4 bs)
      (guarded (Keeps 4 bs) (run_strategy (strategy_of strategy) bs variant) (ltb (length bs) 4)
        (run_strategy-Keeps (strategy_of strategy) bs variant ne b))
      e

-- ===== src/Config/Validation.antt =====
-- tracing/config/config_validation.go: every check of a configuration. A float64 is given by the two
-- comparisons that are made with it.
pub mod Checks
pub mod Addresses
pub mod Numbers
pub mod Chains
pub mod Valid
use autopatch.Common.{
  ℕ, zero, suc, ◌+◌, Bool, true, false, ◌&&◌, ◌||◌, not, Option, none, some, List, [], ◌∷◌, ◌++◌,
  length, ltb, ◌==◌, if◌then◌else◌,
}
use autopatch.Common.Int.{ℤ, pos, negsuc, pos_part}
use autopatch.Common.Text.{codes}
use autopatch.Storage.Label.{text_beq}
use autopatch.Config.Result.{
  Field, named, chain_id_of, explorer_api_of, known_address_of, flip_byte_at, Rule, required,
  positive, non_negative, ratio, range, url_format, url_parse, address_format, address_checksum,
  duplicate, missing_config, Warning, many_mutations, no_flip_bytes, large_nearby_range,
  no_step_sizes, long_strings, many_workers, large_batch, long_timeout, large_cache, unusual_name,
  unknown_chain, no_api_key, zero_address, ValidationResult, no_result, add_error, add_warning,
  ChainMutationConfig, AddressMutationConfig, NumberMutationConfig, ExecutionConfig,
  TypeAwareMutationConfig,
}
use autopatch.Config.Patterns.{matches_address, matches_url, to_lower}

-- x < 0, x <= 0, and x > n.
abbrev pub is_negative : ℤ → Bool
is_negative (pos n) = false
is_negative (negsuc n) = true

abbrev pub not_positive : ℤ → Bool
not_positive (pos zero) = true
not_positive (pos (suc n)) = false
not_positive (negsuc n) = true

abbrev pub above : ℕ → ℤ → Bool
above n x = ltb n (pos_part x)

abbrev pub eq_ℤ : ℤ → ℤ → Bool
eq_ℤ (pos m) (pos n) = m == n
eq_ℤ (negsuc m) (negsuc n) = m == n
eq_ℤ _ _ = false

-- x == 0
abbrev pub is_zero : ℤ → Bool
is_zero x = not_positive x && not (is_negative x)

unfoldable pub validate_max_mutations : ℤ → ValidationResult → ValidationResult
unfolding add_error add_warning
validate_max_mutations n r =
    if not_positive n
    then add_error (named (codes "maxMutations")) positive r
    else if above 100000 n
    then add_warning many_mutations r
    else r

unfoldable pub validate_string_mutation_config : ℤ → ValidationResult → ValidationResult
unfolding add_error add_warning
validate_string_mutation_config n r =
    if not_positive n
    then add_error (named (codes "stringMutation.maxLength")) positive r
    else if above 1000000 n
    then add_warning long_strings r
    else r

unfoldable pub check_flip_bytes : ℕ → List ℤ → ValidationResult → ValidationResult
unfolding add_error
check_flip_bytes i [] r = r
check_flip_bytes i (b ∷ bs) r =
    check_flip_bytes (i + 1) bs
      (if not_positive b || above 20 b then add_error (flip_byte_at i) range r else r)

abbrev pub flip_bytes_or_warning : List ℤ → ValidationResult → ValidationResult
flip_bytes_or_warning [] r = add_warning no_flip_bytes r
flip_bytes_or_warning (b ∷ bs) r = check_flip_bytes 0 (b ∷ bs) r

-- The name that goes with a supported chain.
abbrev pub supported_chain : ℤ → Option (List ℕ)
supported_chain (pos n) =
    if n == 1 then some (codes "ethereum") else if n == 56 then some (codes "bsc") else none
supported_chain (negsuc n) = none

abbrev pub check_name : ChainMutationConfig → Option (List ℕ) → ValidationResult → ValidationResult
check_name c (some expected) r =
    if text_beq c.name expected then r else add_warning (unusual_name c.name) r
check_name c none r = add_warning (unknown_chain c.name) r

abbrev pub is_empty : List ℕ → Bool
is_empty [] = true
is_empty (c ∷ cs) = false

abbrev pub seen_before : List (List ℕ) → List ℕ → Bool
seen_before [] a = false
seen_before (s ∷ seen) a = text_beq s a || seen_before seen a

-- common.IsHexAddress, and whether url.Parse gives no error.
module _ (is_hex_address parses : List ℕ → Bool) where
  unfoldable pub validate_explorer_api : List ℕ → List ℕ → ValidationResult → ValidationResult
  unfolding add_error
  validate_explorer_api chain url r =
      if is_empty url
      then r
      else if not (matches_url url)
      then add_error (explorer_api_of chain) url_format r
      else if not (parses url)
      then add_error (explorer_api_of chain) url_parse r
      else r

  -- The warning about the zero address, after the test for duplicates.
  unfoldable pub check_address :
      List ℕ → ℕ → List (List ℕ) → List ℕ → ValidationResult → ValidationResult
  unfolding add_error add_warning
  check_address chain i seen a r =
      let s =
        if seen_before seen (to_lower a)
        then add_error (known_address_of chain i) duplicate r
        else r in
      if text_beq a (codes "0x0000000000000000000000000000000000000000")
      then add_warning (zero_address i) s
      else s

  -- The loop over the addresses from index i, with the set of those seen so far in lower case.
  unfoldable pub validate_known_addresses :
      List ℕ → ℕ → List (List ℕ) → List (List ℕ) → ValidationResult → ValidationResult
  unfolding add_error check_address
  validate_known_addresses chain i seen [] r = r
  validate_known_addresses chain i seen (a ∷ addresses) r =
      let malformed =
        validate_known_addresses chain (i + 1) seen addresses
          (add_error (known_address_of chain i) address_format r) in
      let no_address =
        validate_known_addresses chain (i + 1) seen addresses
          (add_error (known_address_of chain i) address_checksum r) in
      let next =
        validate_known_addresses chain (i + 1) (to_lower a ∷ seen) addresses
          (check_address chain i seen a r) in
      if not (matches_address a)
      then malformed
      else if not (is_hex_address a)
      then no_address
      else next

  unfoldable pub validate_chain : List ℕ → ChainMutationConfig → ValidationResult → ValidationResult
  unfolding add_error add_warning validate_explorer_api validate_known_addresses
  validate_chain chain c r =
      let r1 = if not_positive c.chain_id then add_error (chain_id_of chain) positive r else r in
      let r2 = check_name c (supported_chain c.chain_id) r1 in
      let r3 = validate_explorer_api chain c.explorer_api r2 in
      let r4 = validate_known_addresses chain 0 [] c.known_addresses r3 in
      if is_empty c.explorer_api_key then add_warning (no_api_key chain) r4 else r4

  unfoldable pub validate_chains_config :
      List (List ℕ × ChainMutationConfig) → ValidationResult → ValidationResult
  unfolding validate_chain
  validate_chains_config [] r = r
  validate_chains_config ((chain, c) ∷ chains) r =
      validate_chains_config chains (validate_chain chain c r)

  abbrev pub chains_or_error :
      List (List ℕ × ChainMutationConfig) → ValidationResult → ValidationResult
  chains_or_error [] r = add_error (named (codes "chains")) required r
  chains_or_error (c ∷ chains) r = validate_chains_config (c ∷ chains) r

-- Whether a float64 is below 0, and above 1.
module _ {F : Type 0} (below_zero above_one : F → Bool) where
  unfoldable pub validate_ratio : List ℕ → F → ValidationResult → ValidationResult
  unfolding add_error
  validate_ratio field x r =
      if below_zero x || above_one x then add_error (named field) ratio r else r

  unfoldable pub validate_address_mutation_config :
      AddressMutationConfig F → ValidationResult → ValidationResult
  unfolding add_error add_warning check_flip_bytes validate_ratio
  validate_address_mutation_config c r =
      let r1 = flip_bytes_or_warning c.flip_bytes r in
      let r2 =
        if is_negative c.nearby_range
        then add_error (named (codes "addressMutation.nearbyRange")) non_negative r1
        else if above 1000000 c.nearby_range
        then add_warning large_nearby_range r1
        else r1 in
      validate_ratio (codes "addressMutation.zeroAddressRatio") c.zero_address_ratio r2

  unfoldable pub validate_number_mutation_config :
      NumberMutationConfig F → ValidationResult → ValidationResult
  unfolding add_warning validate_ratio
  validate_number_mutation_config c r =
      validate_ratio (codes "numberMutation.multiplierRatio") c.multiplier_ratio
        (if length c.step_sizes == 0 then add_warning no_step_sizes r else r)

  unfoldable pub validate_execution_config : ExecutionConfig F → ValidationResult → ValidationResult
  unfolding add_error add_warning validate_ratio
  validate_execution_config c r =
      let r1 =
        if not_positive c.max_concurrent_workers
        then add_error (named (codes "execution.maxConcurrentWorkers")) positive r
        else if above 100 c.max_concurrent_workers
        then add_warning many_workers r
        else r in
      let r2 =
        if not_positive c.batch_size
        then add_error (named (codes "execution.batchSize")) positive r1
        else if above 10000 c.batch_size
        then add_warning large_batch r1
        else r1 in
      let r3 =
        if not_positive c.timeout_seconds
        then add_error (named (codes "execution.timeoutSeconds")) positive r2
        else if above 3600 c.timeout_seconds
        then add_warning long_timeout r2
        else r2 in
      let r4 = validate_ratio (codes "execution.similarityThreshold") c.similarity_threshold r3 in
      if is_negative c.cache_size
      then add_error (named (codes "execution.cacheSize")) non_negative r4
      else if above 1000000 c.cache_size
      then add_warning large_cache r4
      else r4

  unfoldable pub execution_or_error : ExecutionConfig F → ValidationResult → ValidationResult
  unfolding add_error validate_execution_config
  execution_or_error c r =
      if is_zero c.max_concurrent_workers && is_zero c.batch_size && is_zero c.timeout_seconds
      then add_error (named (codes "execution")) required r
      else validate_execution_config c r

  unfoldable pub validate_type_aware_mutation_config :
      (List ℕ → Bool) → (List ℕ → Bool) → TypeAwareMutationConfig F → ValidationResult
  unfolding add_error validate_max_mutations validate_chains_config validate_address_mutation_config
      validate_number_mutation_config validate_string_mutation_config execution_or_error
  validate_type_aware_mutation_config is_hex_address parses c =
      let r1 = validate_max_mutations c.max_mutations no_result in
      let r2 = chains_or_error is_hex_address parses c.chains r1 in
      let r3 = validate_address_mutation_config c.address_mutation r2 in
      let r4 = validate_number_mutation_config c.number_mutation r3 in
      let r5 = validate_string_mutation_config c.string_max_length r4 in
      execution_or_error c.execution r5

abbrev pub is_configured : List (List ℕ × ChainMutationConfig) → ℤ → Bool
is_configured [] id = false
is_configured ((chain, c) ∷ chains) id = eq_ℤ c.chain_id id || is_configured chains id

-- The loop over the active chains.
unfoldable pub check_active :
    List (List ℕ × ChainMutationConfig) → List ℤ → ValidationResult → ValidationResult
unfolding add_error
check_active chains [] r = r
check_active chains (id ∷ ids) r = check_active chains ids (
    if is_configured chains id
    then r
    else add_error (named (codes "chain_compatibility")) missing_config r)

unfoldable pub validate_chain_compatibility :
    List (List ℕ × ChainMutationConfig) → List ℤ → ValidationResult
unfolding check_active
validate_chain_compatibility chains active = check_active chains active no_result

-- ===== src/Config/Validation/Valid.antt =====
-- tracing/config/config_validation.go: a configuration passes just when it is valid.
use autopatch.Common.{
  ℕ, zero, suc, ◌≡◌, refl, ◌≢◌, ◌↔◌, Bool, true, false, ◌&&◌, List, [], length, All, ◌==◌, arith,
}
use autopatch.Common.Int.{ℤ, pos, negsuc, ◌≤ℤ◌}
use autopatch.Common.Text.{codes}
use autopatch.Config.Result.{
  named, required, large_nearby_range, no_step_sizes, many_workers, large_batch, long_timeout,
  large_cache, no_result, AddressMutationConfig, NumberMutationConfig, ExecutionConfig,
  TypeAwareMutationConfig,
}
use autopatch.Config.Validation.{
  above, is_zero, validate_address_mutation_config, validate_number_mutation_config,
  validate_execution_config, execution_or_error, validate_type_aware_mutation_config,
}
use autopatch.Config.Validation.Checks.{
  Checks, error-Checks, then-Checks, Checks-as, if-Checks, if_warning-Checks,
}
use autopatch.Config.Validation.Numbers.{
  IsPosition, IsRatio, positive-Checks, non_negative-Checks, max_mutations-Checks, string-Checks,
  flip_bytes_or_warning-Checks, IsRatio-Checks,
}
use autopatch.Config.Validation.Chains.{AreValidChains, some_chain-Checks}

module _ {F : Type 0} (below_zero above_one : F → Bool) where
  -- The byte positions are positions, the range is not negative, and the ratio is one.
  abbrev pub IsValidAddress : AddressMutationConfig F → Type 0
  IsValidAddress c =
      (All IsPosition c.flip_bytes)
      × ((pos 0 ≤ℤ c.nearby_range) × IsRatio below_zero above_one c.zero_address_ratio)

  address-Checks :
      (c : AddressMutationConfig F)
      → Checks (validate_address_mutation_config below_zero above_one c) (IsValidAddress c)
  unfolding validate_address_mutation_config
  address-Checks c = then-Checks (flip_bytes_or_warning-Checks c.flip_bytes) (
      then-Checks
        (non_negative-Checks c.nearby_range (above 1000000 c.nearby_range)
          (named (codes "addressMutation.nearbyRange")) large_nearby_range)
        (IsRatio-Checks below_zero above_one (codes "addressMutation.zeroAddressRatio")
          c.zero_address_ratio))

  number-Checks :
      (c : NumberMutationConfig F)
      → Checks
          (validate_number_mutation_config below_zero above_one c)
          (IsRatio below_zero above_one c.multiplier_ratio)
  unfolding validate_number_mutation_config
  number-Checks c =
      Checks-as (λ p. p.1, λ p. (tt, p))
        (then-Checks (if_warning-Checks (length c.step_sizes == 0) no_step_sizes) (
          IsRatio-Checks below_zero above_one (codes "numberMutation.multiplierRatio")
            c.multiplier_ratio))

  -- Positive numbers of workers, of a batch and of seconds, a threshold that is a ratio, and a size of the
  -- cache that is not negative.
  abbrev pub IsValidExecution : ExecutionConfig F → Type 0
  IsValidExecution c =
      (pos 1 ≤ℤ c.max_concurrent_workers)
      × ((pos 1 ≤ℤ c.batch_size)
          × ((pos 1 ≤ℤ c.timeout_seconds)
              × (IsRatio below_zero above_one c.similarity_threshold × (pos 0 ≤ℤ c.cache_size))))

  set_execution-Checks :
      (c : ExecutionConfig F)
      → Checks (validate_execution_config below_zero above_one c) (IsValidExecution c)
  unfolding validate_execution_config
  set_execution-Checks c =
      then-Checks
        (positive-Checks c.max_concurrent_workers (above 100 c.max_concurrent_workers)
          (named (codes "execution.maxConcurrentWorkers")) many_workers)
        (then-Checks
          (positive-Checks c.batch_size (above 10000 c.batch_size)
            (named (codes "execution.batchSize")) large_batch)
          (then-Checks
            (positive-Checks c.timeout_seconds (above 3600 c.timeout_seconds)
              (named (codes "execution.timeoutSeconds")) long_timeout)
            (then-Checks
              (IsRatio-Checks below_zero above_one (codes "execution.similarityThreshold")
                c.similarity_threshold)
              (non_negative-Checks c.cache_size (above 1000000 c.cache_size)
                (named (codes "execution.cacheSize")) large_cache))))

  -- A number that is not positive is no zero.
  unset : (a : ℤ) (b c : Bool) → (pos 1 ≤ℤ a) → (is_zero a && b && c) ≡ false
  unset (pos zero) b c h = absurd (omega (arith, h))
  unset (pos (suc n)) b c h = refl
  unset (negsuc n) b c h = absurd (omega (arith, h))

  execution-Checks :
      (c : ExecutionConfig F)
      → Checks (execution_or_error below_zero above_one c) (IsValidExecution c)
  unfolding execution_or_error
  execution-Checks c =
      Checks-as
        (
          λ p. p.1,
          λ p. (
            unset c.max_concurrent_workers (is_zero c.batch_size) (is_zero c.timeout_seconds) p.0,
            p,
          ),
        )
        (if-Checks
          (is_zero c.max_concurrent_workers && is_zero c.batch_size && is_zero c.timeout_seconds)
          (error-Checks (named (codes "execution")) required) (set_execution-Checks c))

  module _ (is_hex_address parses : List ℕ → Bool) where
    -- A configuration with at least one chain, all of whose parts are valid.
    abbrev pub IsValidConfig : TypeAwareMutationConfig F → Type 0
    IsValidConfig c =
        (pos 1 ≤ℤ c.max_mutations)
        × (((c.chains ≢ []) × AreValidChains is_hex_address parses c.chains)
            × (IsValidAddress c.address_mutation
                × (IsRatio below_zero above_one c.number_mutation.multiplier_ratio
                    × ((pos 1 ≤ℤ c.string_max_length) × IsValidExecution c.execution))))

    -- Validation calls a configuration valid just when it has a chain and every part is in order: positive
    -- limits, ratios between 0 and 1, byte positions from 1 to 20, and for every chain a positive
    -- identity, an explorer that is empty or a URL, and known addresses that are addresses and differ when
    -- the case of letters is ignored.
    pub validate-IsValidConfig :
        (c : TypeAwareMutationConfig F)
        → ((validate_type_aware_mutation_config below_zero above_one is_hex_address parses c).valid
            ≡ true)
          ↔ IsValidConfig c
    unfolding validate_type_aware_mutation_config
    validate-IsValidConfig c =
        let all = then-Checks (max_mutations-Checks c.max_mutations) (
          then-Checks (some_chain-Checks is_hex_address parses c.chains) (
            then-Checks (address-Checks c.address_mutation) (
              then-Checks (number-Checks c.number_mutation) (
                then-Checks (string-Checks c.string_max_length)
                  (execution-Checks c.execution))))) in
        let e = all.iff no_result in (λ v. (e.0 v).1, λ p. e.1 (refl, p))

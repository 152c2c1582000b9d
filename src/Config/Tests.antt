-- ===== src/Config/Tests.antt =====
-- Tests and witnesses of the validation of configurations, with float64 values in hundredths.
use autopatch.Common.{ℕ, ◌≡◌, refl, ◌↔◌, Bool, true, false, List}
use autopatch.Common.Int.{ℤ, pos}
use autopatch.Common.Text.{codes}
use autopatch.Config.Patterns.{matches_address, matches_host, matches_url}
use autopatch.Config.Result.{TypeAwareMutationConfig}
use autopatch.Config.Validation.{is_negative, above, validate_type_aware_mutation_config}
use autopatch.Config.Validation.Valid.{IsValidConfig, validate-IsValidConfig}
use autopatch.Config.Defaults.{default_type_aware_mutation_config}

abbrev default_config : TypeAwareMutationConfig ℤ
default_config = default_type_aware_mutation_config (pos 10) (pos 20) (pos 80)

abbrev always : List ℕ → Bool
always s = true

good_url : matches_url (codes "https://api.etherscan.io/api") ≡ true
unfolding matches_url matches_host
good_url = refl

no_url : matches_url (codes "https://abc d") ≡ false
unfolding matches_url matches_host
no_url = refl

short_address : matches_address (codes "0xC02aaA39b223FE8D0A0e5C4F27eAD9083C756C") ≡ false
unfolding matches_address
short_address = refl

validate-IsValidConfig_example :
    ((validate_type_aware_mutation_config is_negative
        (above 100)
        always
        always
        default_config).valid
      ≡ true)
    ↔ IsValidConfig is_negative (above 100) always always default_config
validate-IsValidConfig_example =
    validate-IsValidConfig is_negative (above 100) always always default_config

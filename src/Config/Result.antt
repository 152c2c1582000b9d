-- ===== src/Config/Result.antt =====
-- tracing/config/config_validation.go and config_manager.go: the records of a configuration and of the
-- result of its validation. The chains are a list in the order in which their map is walked, and none of
-- them is nil. An error is its field and its rule; its message and the value that it shows are left out.
use autopatch.Common.{ℕ, Bool, true, false, List, [], ◌∷◌, ◌++◌, length, ltb}
use autopatch.Common.Int.{ℤ}

-- The field of an error; those of chains and of lists have their name and index.
pub data Field : Type 0 where
  named : List ℕ → Field
  chain_id_of explorer_api_of : List ℕ → Field
  known_address_of : List ℕ → ℕ → Field
  flip_byte_at : ℕ → Field

pub data Rule : Type 0 where
  required positive non_negative ratio range : Rule
  url_format url_parse address_format address_checksum duplicate missing_config : Rule

pub data Warning : Type 0 where
  many_mutations no_flip_bytes large_nearby_range no_step_sizes long_strings : Warning
  many_workers large_batch long_timeout large_cache : Warning
  unusual_name unknown_chain no_api_key : List ℕ → Warning
  zero_address : ℕ → Warning

pub record ValidationResult : Type 0 where
  pub valid : Bool
  pub errors : List (Field × Rule)
  pub warnings : List Warning

abbrev pub no_result : ValidationResult
no_result = record { valid = true; errors = []; warnings = [] }

unfoldable pub add_error : Field → Rule → ValidationResult → ValidationResult
add_error field rule r = record r { valid = false; errors = r.errors ++ (field, rule) ∷ [] }

unfoldable pub add_warning : Warning → ValidationResult → ValidationResult
add_warning w r = record r { warnings = r.warnings ++ w ∷ [] }

unfoldable pub has_errors : ValidationResult → Bool
has_errors r = ltb 0 (length r.errors)

-- The fields that are read here.
pub record ChainMutationConfig : Type 0 where
  pub chain_id : ℤ
  pub name : List ℕ
  pub explorer_api_key : List ℕ
  pub explorer_api : List ℕ
  pub known_addresses : List (List ℕ)

pub record AddressMutationConfig (F : Type 0) : Type 0 where
  pub flip_bytes : List ℤ
  pub nearby_range : ℤ
  pub zero_address_ratio : F

pub record NumberMutationConfig (F : Type 0) : Type 0 where
  pub step_sizes : List ℤ
  pub multiplier_ratio : F

pub record ExecutionConfig (F : Type 0) : Type 0 where
  pub max_concurrent_workers : ℤ
  pub batch_size : ℤ
  pub timeout_seconds : ℤ
  pub similarity_threshold : F
  pub cache_size : ℤ

-- The string mutation has one field that is read, its maximal length.
pub record TypeAwareMutationConfig (F : Type 0) : Type 0 where
  pub max_mutations : ℤ
  pub chains : List (List ℕ × ChainMutationConfig)
  pub address_mutation : AddressMutationConfig F
  pub number_mutation : NumberMutationConfig F
  pub string_max_length : ℤ
  pub execution : ExecutionConfig F

-- ===== src/Config/Validation/Chains.antt =====
-- tracing/config/config_validation.go: what the checks of chains ask.
use autopatch.Common.{
  ℕ, ◌≡◌, refl, ◌≢◌, ◌↔◌, ◌⊎◌, inl, inr, Bool, true, false, not, Option, none, some, List, [], ◌∷◌,
  map, All, if◌then◌else◌, arith,
}
use autopatch.Common.Int.{pos, ◌≤ℤ◌}
use autopatch.Common.Text.{codes}
use autopatch.Storage.Label.{text_beq}
use autopatch.Config.Patterns.{matches_url, to_lower}
use autopatch.Config.Result.{
  named, chain_id_of, explorer_api_of, required, positive, add_warning, url_format, url_parse,
  unusual_name, unknown_chain, no_api_key, ValidationResult, ChainMutationConfig,
}
use autopatch.Config.Validation.{
  not_positive, supported_chain, check_name, is_empty, validate_explorer_api, validate_chain,
  validate_chains_config, chains_or_error,
}
use autopatch.Config.Validation.Checks.{
  Checks, nothing-Checks, warning-Checks, error-Checks, then-Checks, Checks-as, if-Checks,
  if_warning-Checks, error_if-Checks,
}
use autopatch.Config.Validation.Addresses.{IsAddress, Distinct, known_addresses-Checks}
use autopatch.Config.Validation.Numbers.{positive_iff}

name-Checks : (c : ChainMutationConfig) (o : Option (List ℕ)) → Checks (check_name c o) Unit
name-Checks c none = warning-Checks (unknown_chain c.name)
name-Checks c (some expected) = keep (text_beq c.name expected)
  where
    keep :
        (b : Bool)
        → Checks
            (λ (r : ValidationResult). if b then r else add_warning (unusual_name c.name) r)
            Unit
    keep true = nothing-Checks
    keep false = warning-Checks (unusual_name c.name)

module _ (is_hex_address parses : List ℕ → Bool) where
  -- No address of an explorer, or one that is a URL.
  abbrev pub IsApi : List ℕ → Type 0
  IsApi url = (url ≡ []) ⊎ ((matches_url url ≡ true) × (parses url ≡ true))

  api_iff : (u p : Bool) → ((not u ≡ false) × (not p ≡ false)) ↔ ((u ≡ true) × (p ≡ true))
  api_iff u p = ground arith

  IsApi-Checks :
      (chain url : List ℕ)
      → Checks (validate_explorer_api is_hex_address parses chain url) (IsApi url)
  unfolding validate_explorer_api
  IsApi-Checks chain [] = Checks-as (λ u. inl refl, λ a. tt) nothing-Checks
  IsApi-Checks chain (c ∷ url) =
      let e = api_iff (matches_url (c ∷ url)) (parses (c ∷ url)) in
      Checks-as
        (λ p. inr (e.0 p), λ a. elim a [ inl n ↦ absurd (ground (arith, n)) | inr p ↦ e.1 p ])
        (if-Checks (not (matches_url (c ∷ url))) (error-Checks (explorer_api_of chain) url_format)
          (error_if-Checks (not (parses (c ∷ url))) (explorer_api_of chain) url_parse))

  -- A positive identity, a good explorer, and known addresses that differ.
  abbrev pub IsValidChain : ChainMutationConfig → Type 0
  IsValidChain c =
      (pos 1 ≤ℤ c.chain_id)
      × (IsApi c.explorer_api
          × (All (IsAddress is_hex_address parses) c.known_addresses
              × Distinct (map to_lower c.known_addresses)))

  chain-Checks :
      (chain : List ℕ) (c : ChainMutationConfig)
      → Checks (validate_chain is_hex_address parses chain c) (IsValidChain c)
  unfolding validate_chain
  chain-Checks chain c =
      Checks-as (λ p. (p.0, (p.1.1.0, p.1.1.1.0)), λ p. (p.0, (tt, (p.1.0, (p.1.1, tt)))))
        (then-Checks
          (Checks-as (positive_iff c.chain_id)
            (error_if-Checks (not_positive c.chain_id) (chain_id_of chain) positive))
          (then-Checks (name-Checks c (supported_chain c.chain_id)) (
            then-Checks (IsApi-Checks chain c.explorer_api) (
              then-Checks (known_addresses-Checks is_hex_address parses chain c.known_addresses)
                (if_warning-Checks (is_empty c.explorer_api_key) (no_api_key chain))))))

  abbrev pub AreValidChains : List (List ℕ × ChainMutationConfig) → Type 0
  AreValidChains chains = All (λ (p : List ℕ × ChainMutationConfig). IsValidChain p.1) chains

  chains-Checks :
      (chains : List (List ℕ × ChainMutationConfig))
      → Checks (validate_chains_config is_hex_address parses chains) (AreValidChains chains)
  unfolding validate_chains_config
  chains-Checks [] = nothing-Checks
  chains-Checks ((chain, c) ∷ chains) = then-Checks (chain-Checks chain c) (chains-Checks chains)

  pub some_chain-Checks :
      (chains : List (List ℕ × ChainMutationConfig))
      → Checks
          (chains_or_error is_hex_address parses chains)
          ((chains ≢ []) × AreValidChains chains)
  some_chain-Checks [] =
      Checks-as (λ n. absurd n, λ p. p.0 refl) (error-Checks (named (codes "chains")) required)
  some_chain-Checks (c ∷ chains) =
      Checks-as (λ a. (λ e. ground (arith, e), a), λ p. p.1) (chains-Checks (c ∷ chains))

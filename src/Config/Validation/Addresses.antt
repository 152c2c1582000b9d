-- ===== src/Config/Validation/Addresses.antt =====
-- tracing/config/config_validation.go, validateKnownAddresses: what it asks of the addresses.
use autopatch.Common.{
  ℕ, ◌+◌, ◌≡◌, refl, ◌≢◌, ◌↔◌, Bool, true, false, ◌||◌, not, List, [], ◌∷◌, map, All, arith,
}
use autopatch.Common.Text.{codes}
use autopatch.Storage.Label.{text_beq, text_beq_iff}
use autopatch.Config.Patterns.{matches_address, to_lower}
use autopatch.Config.Result.{
  known_address_of, address_format, address_checksum, duplicate, zero_address,
}
use autopatch.Config.Validation.{seen_before, check_address, validate_known_addresses}
use autopatch.Config.Validation.Checks.{
  Checks, error-Checks, nothing-Checks, then-Checks, Checks-as, if-Checks, if_warning-Checks,
  error_if-Checks, drop_unit,
}

-- No two entries are equal.
abbrev pub Distinct {ℓ} : {A : Type ℓ} → List A → Type ℓ
Distinct [] = Unit
Distinct (x ∷ xs) = All (λ y. x ≢ y) xs × Distinct xs

abbrev pub Unseen : List (List ℕ) → List (List ℕ) → Type 0
Unseen seen xs = All (λ x. seen_before seen x ≡ false) xs

or_false : (a b : Bool) → ((a || b) ≡ false) ↔ ((a ≡ false) × (b ≡ false))
or_false a b = ground arith

unequal : (s x : List ℕ) → (text_beq s x ≡ false) ↔ (s ≢ x)
unequal s x = ground (arith, text_beq_iff s x)

Unseen-cons :
    (s : List ℕ) (seen xs : List (List ℕ))
    → Unseen (s ∷ seen) xs ↔ (All (λ x. s ≢ x) xs × Unseen seen xs)
Unseen-cons s seen [] = (λ u. (tt, tt), λ u. tt)
Unseen-cons s seen (x ∷ xs) =
    let ih = Unseen-cons s seen xs in
    let here = or_false (text_beq s x) (seen_before seen x) in
    (
      λ u. let h = here.0 u.0 in let t = ih.0 u.1 in (((unequal s x).0 h.0, t.0), (h.1, t.1)),
      λ u. (here.1 ((unequal s x).1 u.0.0, u.1.0), ih.1 (u.0.1, u.1.1)),
    )

Unseen-nil : (xs : List (List ℕ)) → Unseen [] xs
Unseen-nil [] = tt
Unseen-nil (x ∷ xs) = (refl, Unseen-nil xs)

module _ (is_hex_address parses : List ℕ → Bool) where
  abbrev pub IsAddress : List ℕ → Type 0
  IsAddress a = (matches_address a ≡ true) × (is_hex_address a ≡ true)

  -- What the loop asks, step by step.
  abbrev pub Clean : List (List ℕ) → List (List ℕ) → Type 0
  Clean seen [] = Unit
  Clean seen (a ∷ addresses) =
      (not (matches_address a) ≡ false)
      × ((not (is_hex_address a) ≡ false)
          × ((seen_before seen (to_lower a) ≡ false) × Clean (to_lower a ∷ seen) addresses))

  check_address-Checks :
      (chain : List ℕ) (i : ℕ) (seen : List (List ℕ)) (a : List ℕ)
      → Checks
          (check_address is_hex_address parses chain i seen a)
          (seen_before seen (to_lower a) ≡ false)
  unfolding check_address
  check_address-Checks chain i seen a =
      Checks-as (drop_unit (seen_before seen (to_lower a) ≡ false)) (
        then-Checks
          (error_if-Checks (seen_before seen (to_lower a)) (known_address_of chain i) duplicate)
          (if_warning-Checks (text_beq a (codes "0x0000000000000000000000000000000000000000"))
            (zero_address i)))

  addresses-Clean :
      (chain : List ℕ) (i : ℕ) (seen addresses : List (List ℕ))
      → Checks
          (validate_known_addresses is_hex_address parses chain i seen addresses)
          (Clean seen addresses)
  unfolding validate_known_addresses
  addresses-Clean chain i seen [] = nothing-Checks
  addresses-Clean chain i seen (a ∷ addresses) =
      let rest = addresses-Clean chain (i + 1) seen addresses in
      let refused : (P : Type 0) → (⊥ × P) ↔ ⊥ = λ P. (λ p. p.0, λ p. absurd p) in
      if-Checks (not (matches_address a))
        (Checks-as (refused (Clean seen addresses))
          (then-Checks (error-Checks (known_address_of chain i) address_format) rest))
        (if-Checks (not (is_hex_address a))
          (Checks-as (refused (Clean seen addresses))
            (then-Checks (error-Checks (known_address_of chain i) address_checksum) rest))
          (then-Checks (check_address-Checks chain i seen a)
            (addresses-Clean chain (i + 1) (to_lower a ∷ seen) addresses)))

  Clean-iff :
      (seen addresses : List (List ℕ))
      → Clean seen addresses ↔ (
          All IsAddress addresses
          × (Unseen seen (map to_lower addresses) × Distinct (map to_lower addresses)))
  Clean-iff seen [] = (λ c. (tt, (tt, tt)), λ c. tt)
  Clean-iff seen (a ∷ addresses) =
      let ih = Clean-iff (to_lower a ∷ seen) addresses in
      let split = Unseen-cons (to_lower a) seen (map to_lower addresses) in
      let yes : (b : Bool) → (not b ≡ false) ↔ (b ≡ true) = λ b. ground arith in
      (
        λ c.
            let t = ih.0 c.1.1.1 in
            let u = split.0 t.1.0 in
            (
              (((yes (matches_address a)).0 c.0, (yes (is_hex_address a)).0 c.1.0), t.0),
              ((c.1.1.0, u.1), (u.0, t.1.1)),
            ),
        λ c. (
          (yes (matches_address a)).1 c.0.0.0,
          (
            (yes (is_hex_address a)).1 c.0.0.1,
            (c.1.0.0, ih.1 (c.0.1, (split.1 (c.1.1.0, c.1.0.1), c.1.1.1))),
          ),
        ),
      )

  -- The known addresses of a chain give no error just when each is an address and no two are equal in
  -- lower case.
  pub known_addresses-Checks :
      (chain : List ℕ) (addresses : List (List ℕ))
      → Checks
          (validate_known_addresses is_hex_address parses chain 0 [] addresses)
          (All IsAddress addresses × Distinct (map to_lower addresses))
  known_addresses-Checks chain addresses =
      let e = Clean-iff [] addresses in
      Checks-as
        (
          λ c. let d = e.0 c in (d.0, d.1.1),
          λ d. e.1 (d.0, (Unseen-nil (map to_lower addresses), d.1)),
        )
        (addresses-Clean chain 0 [] addresses)

-- ===== src/Config/Validation/Checks.antt =====
-- tracing/config/config_validation.go: what a sequence of checks does to the flag Valid.
use autopatch.Common.{◌≡◌, refl, ◌↔◌, Bool, true, false, if◌then◌else◌, arith}
use autopatch.Config.Result.{Field, Rule, Warning, ValidationResult, add_error, add_warning}

-- After the check the result is valid just when it was before and P holds.
pub record Checks (f : ValidationResult → ValidationResult) (P : Type 0) : Type 0 where
  pub iff : (r : ValidationResult) → ((f r).valid ≡ true) ↔ ((r.valid ≡ true) × P)

pub nothing-Checks : Checks (λ (r : ValidationResult). r) Unit
nothing-Checks = record { iff = λ r. (λ v. (v, tt), λ p. p.0) }

pub warning-Checks : (w : Warning) → Checks (add_warning w) Unit
unfolding add_warning
warning-Checks w = record { iff = λ r. (λ v. (v, tt), λ p. p.0) }

pub error-Checks : (field : Field) (rule : Rule) → Checks (add_error field rule) ⊥
unfolding add_error
error-Checks field rule = record { iff = λ r. (λ v. absurd (ground (arith, v)), λ p. absurd p.1) }

-- One check after another.
pub then-Checks :
    {f g : ValidationResult → ValidationResult} {P Q : Type 0}
    → Checks f P
    → Checks g Q
    → Checks (λ (r : ValidationResult). g (f r)) (P × Q)
then-Checks {f = f} h k = record {
  iff = λ r. (
    λ v. let q = (k.iff (f r)).0 v in let p = (h.iff r).0 q.0 in (p.0, (p.1, q.1)),
    λ p. (k.iff (f r)).1 ((h.iff r).1 (p.0, p.1.0), p.1.1),
  );
}

-- A check stands for another proposition that is equivalent.
pub Checks-as :
    {f : ValidationResult → ValidationResult} {P Q : Type 0} → (P ↔ Q) → Checks f P → Checks f Q
Checks-as e h = record {
  iff = λ r. (λ v. let p = (h.iff r).0 v in (p.0, e.0 p.1), λ q. (h.iff r).1 (q.0, e.1 q.1));
}

-- What never leaves a valid result where b holds, and otherwise a check of P.
pub if-Checks :
    (b : Bool) {f g : ValidationResult → ValidationResult} {P : Type 0}
    → Checks f ⊥
    → Checks g P
    → Checks (λ (r : ValidationResult). if b then f r else g r) ((b ≡ false) × P)
if-Checks true h k = record {
  iff = λ r. (λ v. absurd ((h.iff r).0 v).1, λ p. absurd (ground (arith, p.1.0)));
}
if-Checks false h k = record {
  iff = λ r. (λ v. let p = (k.iff r).0 v in (p.0, (refl, p.1)), λ p. (k.iff r).1 (p.0, p.1.1));
}

-- A warning changes nothing.
pub if_warning-Checks :
    (b : Bool) (w : Warning)
    → Checks (λ (r : ValidationResult). if b then add_warning w r else r) Unit
if_warning-Checks true w = warning-Checks w
if_warning-Checks false w = nothing-Checks

pub drop_unit : (P : Type 0) → (P × Unit {0}) ↔ P
drop_unit P = (λ p. p.0, λ p. (p, tt))

-- An error where b holds, and a warning in some of the other cases.
pub error_or_warning-Checks :
    (b c : Bool) (field : Field) (rule : Rule) (w : Warning)
    → Checks
        (λ (r : ValidationResult).
          if b then add_error field rule r else if c then add_warning w r else r)
        (b ≡ false)
error_or_warning-Checks b c field rule w =
    Checks-as (drop_unit (b ≡ false))
      (if-Checks b (error-Checks field rule) (if_warning-Checks c w))

pub error_if-Checks :
    (b : Bool) (field : Field) (rule : Rule)
    → Checks (λ (r : ValidationResult). if b then add_error field rule r else r) (b ≡ false)
error_if-Checks b field rule =
    Checks-as (drop_unit (b ≡ false)) (if-Checks b (error-Checks field rule) nothing-Checks)

pub and_iff : {P P' Q Q' : Type 0} → (P ↔ P') → (Q ↔ Q') → (P × Q) ↔ (P' × Q')
and_iff e h = (λ p. (e.0 p.0, h.0 p.1), λ p. (e.1 p.0, h.1 p.1))

-- ===== src/Modifier/Outcome.antt =====
-- tracing/mutation/modifier.go: what a call of the package ends with.
use autopatch.Common.{◌≡◌, subst}

-- `panics` is a runtime panic, such as an integer division by zero.
pub data Outcome {ℓ} (A : Type ℓ) : Type ℓ where
  returned : A → Outcome A
  failed : Outcome A
  panics : Outcome A

-- A property of the result, if there is one.
abbrev pub Ensured {ℓ κ} : {A : Type ℓ} → (A → Type κ) → Outcome A → Type κ
Ensured P (returned a) = P a
Ensured P failed = Unit
Ensured P panics = Unit

pub Ensured-returned {ℓ κ} :
    {A : Type ℓ} (P : A → Type κ) {o : Outcome A} {a : A} → Ensured P o → o ≡ returned a → P a
Ensured-returned P h e = subst (Ensured P) e h

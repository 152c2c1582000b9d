-- ===== src/Common/GoMap.antt =====
-- Go maps as association lists, and equality of keys as an interface. A write replaces the entry of
-- its key; `delete` of a missing key does nothing.
use Prim.Native.Nat.{ℕ, suc, ◌≤◌}
use mathlib.Core.Path.{◌≡◌, refl}
use mathlib.Core.Logic.{◌↔◌}
use mathlib.Core.Bool.{Bool, true, false}
use mathlib.Core.Option.{Option, none, some}
use mathlib.Core.List.{List, [], ◌∷◌}
use native.Mathlib.Omega.{arith}
use autopatch.Common.Tests.{if◌then◌else◌, ==_iff, ◌==◌ as nat_beq}
use autopatch.Common.Lists.{length}

pub record Eq {ℓ} (A : Type ℓ) : Type ℓ where
  pub beq : A → A → Bool
  pub beq_iff : (a b : A) → (beq a b ≡ true) ↔ (a ≡ b)

instance abbrev pub nat_eq : Eq ℕ
nat_eq = record { beq = nat_beq; beq_iff = ==_iff }

abbrev pub is_some {ℓ} : {A : Type ℓ} → Option A → Bool
is_some none = false
is_some (some a) = true

module _ {ℓ κ} {K : Type ℓ} {V : Type κ} ⦃e : Eq K⦄ where
  abbrev pub lookup : K → List (K × V) → Option V
  lookup k [] = none
  lookup k ((j, v) ∷ m) = if e.beq j k then some v else lookup k m

  abbrev pub insert : K → V → List (K × V) → List (K × V)
  insert k v [] = (k, v) ∷ []
  insert k v ((j, w) ∷ m) = if e.beq j k then (k, v) ∷ m else (j, w) ∷ insert k v m

  abbrev pub delete : K → List (K × V) → List (K × V)
  delete k [] = []
  delete k ((j, w) ∷ m) = let rest = delete k m in if e.beq j k then rest else (j, w) ∷ rest

  pub lookup-insert :
      (k j : K) (v : V) (m : List (K × V))
      → lookup j (insert k v m) ≡ (if e.beq k j then some v else lookup j m)
  lookup-insert k j v [] = refl
  lookup-insert k j v ((i, w) ∷ m) =
      ground (arith, e.beq_iff k j, e.beq_iff i k, e.beq_iff i j, lookup-insert k j v m)

  pub lookup-delete :
      (k j : K) (m : List (K × V))
      → lookup j (delete k m) ≡ (if e.beq k j then none else lookup j m)
  lookup-delete k j [] = ground arith
  lookup-delete k j ((i, w) ∷ m) =
      ground (arith, e.beq_iff k j, e.beq_iff i k, e.beq_iff i j, lookup-delete k j m)

  pub length-delete-le : (k : K) (m : List (K × V)) → length (delete k m) ≤ length m
  length-delete-le k [] = omega arith
  length-delete-le k ((i, w) ∷ m) = ground (arith, length-delete-le k m)

  pub length-delete-missing :
      (k : K) (m : List (K × V)) → lookup k m ≡ none → length (delete k m) ≡ length m
  length-delete-missing k [] h = refl
  length-delete-missing k ((i, w) ∷ m) h = ground (arith, length-delete-missing k m)

  pub length-insert :
      (k : K) (v : V) (m : List (K × V))
      → length (insert k v m) ≡ (if is_some (lookup k m) then length m else suc (length m))
  length-insert k v [] = refl
  length-insert k v ((i, w) ∷ m) = ground (arith, length-insert k v m)

  -- Each key has one entry.
  abbrev pub UniqueKeys : List (K × V) → Type (κ)
  UniqueKeys [] = Unit
  UniqueKeys ((k, v) ∷ m) = (lookup k m ≡ none) × UniqueKeys m

  pub insert-UniqueKeys :
      (k : K) (v : V) (m : List (K × V)) → UniqueKeys m → UniqueKeys (insert k v m)
  insert-UniqueKeys k v [] h = (refl, tt)
  insert-UniqueKeys k v ((i, w) ∷ m) h =
      ground
        (arith, e.beq_iff i k, e.beq_iff k i, insert-UniqueKeys k v m h.1, lookup-insert k i v m)

  pub delete-UniqueKeys : (k : K) (m : List (K × V)) → UniqueKeys m → UniqueKeys (delete k m)
  delete-UniqueKeys k [] h = tt
  delete-UniqueKeys k ((i, w) ∷ m) h =
      ground (arith, e.beq_iff i k, delete-UniqueKeys k m h.1, lookup-delete k i m)

  -- Deleting a key that is there takes one entry away.
  pub length-delete :
      (k : K) (m : List (K × V))
      → UniqueKeys m
      → length m ≡ (if is_some (lookup k m) then suc (length (delete k m)) else length (delete k m))
  length-delete k [] h = refl
  length-delete k ((i, w) ∷ m) h =
      ground (arith, e.beq_iff i k, length-delete k m h.1, length-delete-missing k m)

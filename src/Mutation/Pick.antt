-- ===== src/Mutation/Pick.antt =====
-- strategies[variant%len(strategies)]: the choice that every mutator makes.
use autopatch.Common.{ℕ, zero, suc, ◌%◌, List, [], ◌∷◌, length, get_or}
use autopatch.Storage.Bytes.{All}

-- The first entry is given apart, so that the list is not empty and the index is in range.
unfoldable pub pick {ℓ} : {A : Type ℓ} → A → List A → ℕ → A
pick a rest variant = get_or (a ∷ rest) (variant % suc (length rest)) a

get_or-All {ℓ κ} :
    {A : Type ℓ} (P : A → Type κ) (xs : List A) (i : ℕ) (d : A) → All P xs → P d → P (get_or xs i d)
get_or-All P [] i d h p = p
get_or-All P (x ∷ xs) zero d h p = h.0
get_or-All P (x ∷ xs) (suc i) d h p = get_or-All P xs i d h.1 p

-- What holds of all entries holds of the one that is picked.
pub pick-All {ℓ κ} :
    {A : Type ℓ} (P : A → Type κ) (a : A) (xs : List A) (variant : ℕ)
    → All P (a ∷ xs)
    → P (pick a xs variant)
unfolding pick
pick-All P a xs variant h = get_or-All P (a ∷ xs) (variant % suc (length xs)) a h h.0

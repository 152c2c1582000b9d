-- ===== src/Common/Members.antt =====
-- Membership in a list, and properties of all entries.
use mathlib.Core.List.{Mem, mem-cons_self, mem-cons_of_mem}
use autopatch.Common.{ℕ, zero, suc, ◌<◌, List, [], ◌∷◌, ◌++◌, length, get_or, All, arith}

pub All-append {ℓ κ} :
    {A : Type ℓ} (P : A → Type κ) (xs ys : List A) → All P xs → All P ys → All P (xs ++ ys)
All-append P [] ys h g = g
All-append P (x ∷ xs) ys h g = (h.0, All-append P xs ys h.1 g)

pub All-Mem {ℓ} :
    {A : Type ℓ} (xs ys : List A) → ((a : A) → Mem a xs → Mem a ys) → All (λ a. Mem a ys) xs
All-Mem [] ys h = tt
All-Mem (x ∷ xs) ys h = (h x mem-cons_self, All-Mem xs ys (λ a m. h a (mem-cons_of_mem x m)))

-- Every entry is a member.
pub All-Mem_self {ℓ} : {A : Type ℓ} (xs : List A) → All (λ a. Mem a xs) xs
All-Mem_self xs = All-Mem xs xs (λ a m. m)

pub get_or-Mem {ℓ} :
    {A : Type ℓ} (xs : List A) (i : ℕ) (d : A) → i < length xs → Mem (get_or xs i d) xs
get_or-Mem [] i d h = absurd (omega arith)
get_or-Mem (x ∷ xs) zero d h = mem-cons_self
get_or-Mem (x ∷ xs) (suc i) d h = mem-cons_of_mem x (get_or-Mem xs i d (omega arith))

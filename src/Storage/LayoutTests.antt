-- ===== src/Storage/LayoutTests.antt =====
-- storage/utils/parse.go on a small layout: a mapping from addresses to a struct.
use autopatch.Common.{
  ℕ, ◌<◌, ◌≡◌, some, List, [], ◌∷◌, arith, if◌then◌else◌, ◌⊎◌, inl, inr, sym, subst,
}
use autopatch.Common.GoMap.{lookup}
use autopatch.Common.Text.{codes}
use autopatch.Storage.Bytes.{All}
use autopatch.Storage.Label.{text_eq, text_beq, text_beq_iff}
use autopatch.Storage.Layout.{Storage, StorageType, get_variable_by_variable_type}
use autopatch.Storage.Layout.Depth.{IsRanked, refers_to, IsDone, get_variable-IsDone}
use autopatch.Storage.Layout.Labels.{plain}

abbrev x_member : Storage
x_member = record { label = "x"; offset = 0; slot = codes "0"; type_id = codes "n" }

abbrev types : List (List ℕ × StorageType)
types =
    (codes "n", plain (codes "uint256") [])
    ∷ (codes "s", plain (codes "struct Point3") (x_member ∷ []))
    ∷ []

-- The struct ranks above its member's type, which ranks above the empty name.
abbrev rank : List ℕ → ℕ
rank vt = if text_beq (codes "s") vt then 2 else if text_beq (codes "n") vt then 1 else 0

lookup_two :
    (vt a b : List ℕ) (x y t : StorageType)
    → lookup vt ((a, x) ∷ (b, y) ∷ []) ≡ some t
    → ((vt ≡ a) × (t ≡ x)) ⊎ ((vt ≡ b) × (t ≡ y))
lookup_two vt a b x y t h = ground (arith, text_beq_iff a vt, text_beq_iff b vt)

abbrev Lower : List ℕ → StorageType → Type 0
Lower vt t = All (λ r. rank r < rank vt) (refers_to t)

lower_at : (vt a : List ℕ) (t x : StorageType) → (vt ≡ a) × (t ≡ x) → Lower a x → Lower vt t
lower_at vt a t x e h =
    subst (λ (v : List ℕ). Lower v t) (sym e.0) (subst (λ (u : StorageType). Lower a u) (sym e.1) h)

ranked : IsRanked types rank
ranked vt t h = elim (lookup_two vt (codes "n") (codes "s") _ _ t h) [
  | inl e ↦ lower_at vt _ t _ e (omega arith, (omega arith, (omega arith, tt)))
  | inr e ↦ lower_at vt _ t _ e (omega arith, (omega arith, (omega arith, (omega arith, tt))))
]

get_variable-IsDone_example :
    IsDone (get_variable_by_variable_type 3 types (codes "s"))
    × (get_variable_by_variable_type 3 types (codes "s")
        ≡ get_variable_by_variable_type 9 types (codes "s"))
get_variable-IsDone_example =
    get_variable-IsDone types rank 3 9 (codes "s") ranked (omega arith) (omega arith)

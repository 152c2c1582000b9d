-- ===== src/Storage/Layout/Depth.antt =====
-- storage/utils/parse.go, getVariableByVariableType: the recursion ends on a layout without cycles.
use Prim.Native.String.{String}
use autopatch.Common.{
  ℕ, zero, suc, ◌<◌, ◌≡◌, refl, Bool, true, false, Option, none, some, List, [], ◌∷◌, arith,
  if◌then◌else◌,
}
use autopatch.Common.GoMap.{lookup}
use autopatch.Common.Text.{codes, has_prefix}
use autopatch.Storage.Bytes.{All}
use autopatch.Storage.Label.{text_beq, text_eq, array_match}
use autopatch.Storage.Layout.{
  Storage, StorageType, Found, nil_found, out_of_fuel, array_of, slice_found, mapping_of, Members,
  spent, add_member, struct_of, members_of, named, in_place, by_encoding, of_form,
  get_variable_by_variable_type,
}

-- The type names that a type refers to.
abbrev pub member_types : List Storage → List (List ℕ)
member_types [] = []
member_types (m ∷ ms) = m.type_id ∷ member_types ms

abbrev pub refers_to : StorageType → List (List ℕ)
refers_to t = t.base ∷ t.key ∷ t.value ∷ member_types t.members

-- Every type refers to names of a lower rank. Absent fields are the empty name.
abbrev pub IsRanked : List (List ℕ × StorageType) → (List ℕ → ℕ) → Type 0
IsRanked types rank =
    (vt : List ℕ) (t : StorageType)
    → lookup vt types ≡ some t
    → All (λ r. rank r < rank vt) (refers_to t)

-- What a call answered, if it did not run out of fuel.
abbrev ran_out : Found → Bool
ran_out out_of_fuel = true
ran_out _ = false

abbrev pub IsDone : Found → Type 0
IsDone r = ran_out r ≡ false

abbrev is_spent : Members → Bool
is_spent spent = true
is_spent _ = false

array_of-IsDone : (d : Option (List ℕ)) (r : Found) → IsDone r → IsDone (array_of d r)
unfolding array_of
array_of-IsDone d r h = ground arith

slice_found-IsDone : (r : Found) → IsDone r → IsDone (slice_found r)
unfolding slice_found
slice_found-IsDone r h = ground arith

mapping_of-IsDone : (k v : Found) → IsDone k → IsDone v → IsDone (mapping_of k v)
unfolding mapping_of
mapping_of-IsDone k v h g = ground arith

add_member-is_spent :
    (name : String) (m : Storage) (r : Found) (rest : Members)
    → IsDone r
    → is_spent rest ≡ false
    → is_spent (add_member name m r rest) ≡ false
unfolding add_member
add_member-is_spent name m r rest h g = ground arith

struct_of-IsDone : (ms : Members) → is_spent ms ≡ false → IsDone (struct_of ms)
unfolding struct_of
struct_of-IsDone ms h = ground arith

if-IsDone : (b : Bool) (x y : Found) → IsDone x → IsDone y → IsDone (if b then x else y)
if-IsDone true x y h g = h
if-IsDone false x y h g = g

module _ (rec : List ℕ → Found) where
  members_of-is_spent :
      (ms : List Storage)
      → All (λ r. IsDone (rec r)) (member_types ms)
      → is_spent (members_of rec ms) ≡ false
  unfolding members_of
  members_of-is_spent [] h = refl
  members_of-is_spent (m ∷ ms) h =
      add_member-is_spent m.label m (rec m.type_id) _ h.0 (members_of-is_spent ms h.1)

  named-IsDone :
      (t : StorageType) → All (λ r. IsDone (rec r)) (member_types t.members) → IsDone (named rec t)
  unfolding named
  named-IsDone t h = if-IsDone (text_beq t.label (codes "address")) _ _ refl (
      if-IsDone (text_beq t.label (codes "bool")) _ _ refl (
        if-IsDone (has_prefix t.label (codes "enum")) _ _ refl (
          if-IsDone (has_prefix t.label (codes "contract")) _ _ refl (
            if-IsDone (has_prefix t.label (codes "struct")) _ nil_found
              (struct_of-IsDone (members_of rec t.members) (members_of-is_spent t.members h))
              refl))))

  in_place-IsDone :
      (t : StorageType) → All (λ r. IsDone (rec r)) (refers_to t) → IsDone (in_place rec t)
  unfolding in_place
  in_place-IsDone t h =
      ground (arith, array_of-IsDone (array_match t.label) (rec t.base) h.0, named-IsDone t h.1.1.1)

  by_encoding-IsDone :
      (t : StorageType) → All (λ r. IsDone (rec r)) (refers_to t) → IsDone (by_encoding rec t)
  unfolding by_encoding
  by_encoding-IsDone t h = if-IsDone (text_beq t.encoding (codes "bytes")) _ _ refl (
      if-IsDone (text_beq t.encoding (codes "inplace")) _ _ (in_place-IsDone t h) (
        if-IsDone (text_beq t.encoding (codes "mapping")) _ _
          (mapping_of-IsDone (rec t.key) (rec t.value) h.1.0 h.1.1.0)
          (if-IsDone (text_beq t.encoding (codes "dynamic_array")) _ nil_found
            (slice_found-IsDone (rec t.base) h.0) refl)))

of_form-IsDone :
    (rec : List ℕ → Found) (o : Option StorageType)
    → ((t : StorageType) → o ≡ some t → All (λ r. IsDone (rec r)) (refers_to t))
    → IsDone (of_form rec o)
unfolding of_form
of_form-IsDone rec none h = refl
of_form-IsDone rec (some t) h = by_encoding-IsDone rec t (h t refl)

-- Two recursive calls that answer the same for every name that the type refers to.
module _ (f g : List ℕ → Found) where
  abbrev Agree : List (List ℕ) → Type 0
  Agree = All (λ r. f r ≡ g r)

  members_of-Agree :
      (ms : List Storage) → Agree (member_types ms) → members_of f ms ≡ members_of g ms
  unfolding members_of
  members_of-Agree [] h = refl
  members_of-Agree (m ∷ ms) h = rw (h.0, members_of-Agree ms h.1) refl

  named-Agree : (t : StorageType) → Agree (member_types t.members) → named f t ≡ named g t
  unfolding named
  named-Agree t h = rw (members_of-Agree t.members h) refl

  in_place-Agree : (t : StorageType) → Agree (refers_to t) → in_place f t ≡ in_place g t
  unfolding in_place
  in_place-Agree t h = ground (arith, h.0, named-Agree t h.1.1.1)

  by_encoding-Agree : (t : StorageType) → Agree (refers_to t) → by_encoding f t ≡ by_encoding g t
  unfolding by_encoding
  by_encoding-Agree t h = rw (in_place-Agree t h, h.0, h.1.0, h.1.1.0) refl

  of_form-Agree :
      (o : Option StorageType)
      → ((t : StorageType) → o ≡ some t → Agree (refers_to t))
      → of_form f o ≡ of_form g o
  unfolding of_form
  of_form-Agree none h = refl
  of_form-Agree (some t) h = by_encoding-Agree t (h t refl)

All-mono :
    {P Q : List ℕ → Type 0} (xs : List (List ℕ)) → ((r : List ℕ) → P r → Q r) → All P xs → All Q xs
All-mono [] h a = tt
All-mono (x ∷ xs) h a = (h x a.0, All-mono xs h a.1)

get_variable-other_fuel :
    (types : List (List ℕ × StorageType)) (rank : List ℕ → ℕ) (fuel other : ℕ) (vt : List ℕ)
    → IsRanked types rank
    → rank vt < fuel
    → rank vt < other
    → get_variable_by_variable_type fuel types vt ≡ get_variable_by_variable_type other types vt
unfolding get_variable_by_variable_type
get_variable-other_fuel types rank zero other vt h lt le = absurd (omega arith)
get_variable-other_fuel types rank (suc fuel) zero vt h lt le = absurd (omega arith)
get_variable-other_fuel types rank (suc fuel) (suc other) vt h lt le =
    of_form-Agree (get_variable_by_variable_type fuel types)
      (get_variable_by_variable_type other types) (lookup vt types)
      (λ t there.
        All-mono (refers_to t)
          (λ r low.
            get_variable-other_fuel types rank fuel other r h (omega (arith, low))
              (omega (arith, low)))
          (h vt t there))

fuel_suffices :
    (types : List (List ℕ × StorageType)) (rank : List ℕ → ℕ) (fuel : ℕ) (vt : List ℕ)
    → IsRanked types rank
    → rank vt < fuel
    → IsDone (get_variable_by_variable_type fuel types vt)
unfolding get_variable_by_variable_type
fuel_suffices types rank zero vt h lt = absurd (omega arith)
fuel_suffices types rank (suc fuel) vt h lt =
    of_form-IsDone (get_variable_by_variable_type fuel types) (lookup vt types) (λ t there.
      All-mono (refers_to t) (λ r lower. fuel_suffices types rank fuel r h (omega (arith, lower)))
        (h vt t there))

-- On a layout in which types refer only to types of a lower rank (none refers back to itself), the
-- search for a type ends: it never needs more calls in a row than the rank of the type counts, and
-- more of them would not change what it finds.
pub get_variable-IsDone :
    (types : List (List ℕ × StorageType)) (rank : List ℕ → ℕ) (fuel other : ℕ) (vt : List ℕ)
    → IsRanked types rank
    → rank vt < fuel
    → rank vt < other
    → IsDone (get_variable_by_variable_type fuel types vt)
      × (get_variable_by_variable_type fuel types vt ≡ get_variable_by_variable_type other types vt)
get_variable-IsDone types rank fuel other vt h lt le = (
  fuel_suffices types rank fuel vt h lt,
  get_variable-other_fuel types rank fuel other vt h lt le,
)

-- ===== src/Storage/Layout/Labels.antt =====
-- storage/utils/parse.go, getVariableByVariableType: what the labels of types are read as.
use autopatch.Common.{ℕ, suc, ◌*◌, ◌≡◌, refl, true, Option, some, List, [], ◌∷◌, ◌++◌, ap, ◌∙◌}
use autopatch.Common.GoMap.{lookup}
use autopatch.Common.Text.{codes}
use autopatch.Storage.Bytes.{All}
use autopatch.Storage.Variable.{Variable, int_var, uint_var, bytes_var, uint}
use autopatch.Storage.Label.{
  text_eq, is_digit, leading_digits, sized_at, sized_match, Kind, bytes_kind, uint_kind, int_kind,
  parse_uint,
}
use autopatch.Storage.Layout.{
  Storage, StorageType, Found, found, by_encoding, in_place, of_form, sized,
  get_variable_by_variable_type,
}

abbrev pub AreDigits : List ℕ → Type 0
AreDigits = All (λ d. is_digit d ≡ true)

leading_digits-all : (ds : List ℕ) → AreDigits ds → leading_digits ds ≡ ds
unfolding leading_digits
leading_digits-all [] h = refl
leading_digits-all (d ∷ ds) h = rw (h.0, leading_digits-all ds h.1)

-- A type that is stored in place and has no base.
abbrev pub plain : List ℕ → List Storage → StorageType
plain label members = record {
  base = [];
  encoding = codes "inplace";
  label = label;
  members = members;
  key = [];
  value = [];
  number_of_bytes = [];
}

abbrev pub keyword : Kind → List ℕ
keyword bytes_kind = codes "bytes"
keyword uint_kind = codes "uint"
keyword int_kind = codes "int"

abbrev pub of_kind : Kind → ℕ → Variable
of_kind bytes_kind n = bytes_var 0 (uint (n * 8)) 0
of_kind uint_kind n = uint_var 0 n 0
of_kind int_kind n = int_var 0 n 0

sized_lem : (k : Kind) (ds : List ℕ) → sized (k, ds) ≡ of_kind k (parse_uint ds)
unfolding sized
sized_lem bytes_kind ds = refl
sized_lem uint_kind ds = refl
sized_lem int_kind ds = refl

sized_match-keyword :
    (k : Kind) (d : ℕ) (ds : List ℕ)
    → AreDigits (d ∷ ds)
    → sized_match (keyword k ++ d ∷ ds) ≡ some (k, d ∷ ds)
unfolding sized_match sized_at
sized_match-keyword bytes_kind d ds h = rw (leading_digits-all (d ∷ ds) h) refl
sized_match-keyword uint_kind d ds h = rw (leading_digits-all (d ∷ ds) h) refl
sized_match-keyword int_kind d ds h = rw (leading_digits-all (d ∷ ds) h) refl

sized_match-point :
    (d : ℕ) (ds : List ℕ)
    → AreDigits (d ∷ ds)
    → sized_match (codes "struct Point" ++ d ∷ ds) ≡ some (int_kind, d ∷ ds)
unfolding sized_match sized_at
sized_match-point d ds h = rw (leading_digits-all (d ∷ ds) h) refl

in_place-sized :
    (rec : List ℕ → Found) (label : List ℕ) (ms : List Storage) (x : Kind × List ℕ)
    → sized_match label ≡ some x
    → by_encoding rec (plain label ms) ≡ found (sized x)
unfolding by_encoding in_place sized_match sized
in_place-sized rec label ms x e = rw e refl

of_form-some :
    (rec : List ℕ → Found) (o : Option StorageType) (t : StorageType)
    → o ≡ some t
    → of_form rec o ≡ by_encoding rec t
unfolding of_form
of_form-some rec o t e = rw e refl

get_variable-sized :
    (types : List (List ℕ × StorageType)) (vt label : List ℕ) (ms : List Storage)
    (x : Kind × List ℕ) (fuel : ℕ)
    → lookup vt types ≡ some (plain label ms)
    → sized_match label ≡ some x
    → get_variable_by_variable_type (suc fuel) types vt ≡ found (sized x)
unfolding get_variable_by_variable_type
get_variable-sized types vt label ms x fuel l e =
    let rec = get_variable_by_variable_type fuel types in
    of_form-some rec (lookup vt types) (plain label ms) l ∙ in_place-sized rec label ms x e

-- A type stored in place whose label is bytes, uint or int and decimal digits is read as a variable of
-- that kind whose length is the number: in bits for uint and int, in bytes for bytes.
pub get_variable-keyword :
    (types : List (List ℕ × StorageType)) (vt : List ℕ) (k : Kind) (d : ℕ) (ds : List ℕ) (fuel : ℕ)
    → AreDigits (d ∷ ds)
    → lookup vt types ≡ some (plain (keyword k ++ d ∷ ds) [])
    → get_variable_by_variable_type (suc fuel) types vt ≡ found (of_kind k (parse_uint (d ∷ ds)))
get_variable-keyword types vt k d ds fuel h l =
    get_variable-sized types vt _ [] (k, d ∷ ds) fuel l (sized_match-keyword k d ds h)
    ∙ ap found (sized_lem k (d ∷ ds))

-- A struct whose name ends in Point and a number is read as a signed integer of that many bits,
-- whatever its members are: the regular expression for int finds a match inside the name.
pub get_variable-point :
    (types : List (List ℕ × StorageType)) (vt : List ℕ) (d : ℕ) (ds : List ℕ) (ms : List Storage)
    (fuel : ℕ)
    → AreDigits (d ∷ ds)
    → lookup vt types ≡ some (plain (codes "struct Point" ++ d ∷ ds) ms)
    → get_variable_by_variable_type (suc fuel) types vt ≡ found (int_var 0 (parse_uint (d ∷ ds)) 0)
get_variable-point types vt d ds ms fuel h l =
    get_variable-sized types vt _ ms (int_kind, d ∷ ds) fuel l (sized_match-point d ds h)
    ∙ ap found (sized_lem int_kind (d ∷ ds))

-- ===== src/Storage/Label.antt =====
-- storage/utils/parse.go: the texts in a layout. The regular expressions, which are literals of the
-- source, are written out as the matches that they have; a text has no line breaks.
use autopatch.Common.{
  ℕ, ◌+◌, ◌-◌, ◌*◌, ◌%◌, ◌^◌, ◌≡◌, ◌↔◌, Bool, true, false, ◌&&◌, Option, none, some, List, [], ◌∷◌,
  ltb, leb, ◌==◌, if◌then◌else◌, arith,
}
use autopatch.Common.GoMap.{Eq}
use autopatch.Common.Text.{codes}

abbrev pub text_beq : List ℕ → List ℕ → Bool
text_beq [] [] = true
text_beq (a ∷ s) (b ∷ t) = a == b && text_beq s t
text_beq _ _ = false

pub text_beq_iff : (a b : List ℕ) → (text_beq a b ≡ true) ↔ (a ≡ b)
text_beq_iff [] [] = ground arith
text_beq_iff [] (b ∷ t) = ground arith
text_beq_iff (a ∷ s) [] = ground arith
text_beq_iff (a ∷ s) (b ∷ t) = ground (arith, text_beq_iff s t)

instance abbrev pub text_eq : Eq (List ℕ)
text_eq = record { beq = text_beq; beq_iff = text_beq_iff }

abbrev pub is_digit : ℕ → Bool
is_digit c = leb 48 c && leb c 57

-- The digits that a text starts with.
unfoldable pub leading_digits : List ℕ → List ℕ
leading_digits [] = []
leading_digits (c ∷ cs) = let rest = leading_digits cs in if is_digit c then c ∷ rest else []

-- The number that decimal digits stand for, after `acc`; `none` where there is another character.
unfoldable pub decimal : ℕ → List ℕ → Option ℕ
decimal acc [] = some acc
decimal acc (c ∷ cs) =
    let rest = decimal (acc * 10 + (c - 48)) cs in if is_digit c then rest else none

or_zero : Option ℕ → ℕ
or_zero none = 0
or_zero (some n) = n

-- strconv.ParseUint(s, 10, 64) without its error: 0 for what is no number, the maximum for what is
-- too large.
unfoldable pub parse_uint : List ℕ → ℕ
unfolding or_zero
parse_uint [] = 0
parse_uint (c ∷ cs) =
    let n = or_zero (decimal 0 (c ∷ cs)) in if ltb (2 ^ 64 - 1) n then 2 ^ 64 - 1 else n

-- big.Int.SetString(s, 10) and BigToHash, for the decimal texts that solc writes.
unfoldable pub parse_slot : List ℕ → ℕ
unfolding or_zero
parse_slot s = or_zero (decimal 0 s) % 2 ^ 256

-- The second group of (.*)\[(.*)\], both greedy.
up_to_last_close : List ℕ → Option (List ℕ)
up_to_last_close [] = none
up_to_last_close (c ∷ cs) = elim (up_to_last_close cs) [
  | some t ↦ some (c ∷ t)
  | none ↦ if c == b']' then some [] else none
]

unfoldable pub array_match : List ℕ → Option (List ℕ)
unfolding up_to_last_close
array_match [] = none
array_match (c ∷ cs) = elim (array_match cs) [
  | some t ↦ some t
  | none ↦ if c == b'[' then up_to_last_close cs else none
]

pub data Kind : Type 0 where
  bytes_kind uint_kind int_kind : Kind

-- One alternative of (bytes|uint|int)(\d+) at the start of a text.
unfoldable pub sized_at : List ℕ → Kind → List ℕ → Option (Kind × List ℕ)
sized_at [] kind text = elim (leading_digits text) [ [] ↦ none | d ∷ ds ↦ some (kind, d ∷ ds) ]
sized_at (c ∷ cs) kind [] = none
sized_at (c ∷ cs) kind (t ∷ ts) = let rest = sized_at cs kind ts in if c == t then rest else none

first_of : Option (Kind × List ℕ) → Option (Kind × List ℕ) → Option (Kind × List ℕ)
first_of none b = b
first_of (some a) b = some a

-- The leftmost match, which may start anywhere in the label.
unfoldable pub sized_match : List ℕ → Option (Kind × List ℕ)
unfolding first_of
sized_match [] = none
sized_match (c ∷ cs) = first_of (sized_at (codes "bytes") bytes_kind (c ∷ cs)) (
    first_of (sized_at (codes "uint") uint_kind (c ∷ cs))
      (first_of (sized_at (codes "int") int_kind (c ∷ cs)) (sized_match cs)))

-- ===== src/Mutation/Texts.antt =====
-- tracing/mutation/type_aware_mutator.go: the mutations of strings and of byte arrays. A string is
-- the list of its bytes.
pub mod Lengths
pub mod FlipTwice
use Prim.Native.Nat.{bit_xor}
use autopatch.Common.{
  ℕ, zero, suc, ◌+◌, ◌-◌, ◌*◌, ◌/◌, ◌%◌, ◌<◌, Bool, true, false, Option, none, some, List, [], ◌∷◌,
  ◌++◌, length, take, get_or, set, ltb, leb, if◌then◌else◌, ◌==◌,
}
use autopatch.Common.Text.{codes}
use autopatch.Storage.Bytes.{flip}
use autopatch.Mutation.Pick.{pick}

unfoldable pub append_string : List ℕ → ℕ → List ℕ
append_string value variant =
    value
    ++ pick (codes "_modified") (codes "_test" ∷ codes "_mutated" ∷ codes "123" ∷ codes "x" ∷ [])
        variant

unfoldable pub prepend_string : List ℕ → ℕ → List ℕ
prepend_string value variant =
    pick (codes "test_") (codes "modified_" ∷ codes "x_" ∷ codes "0x" ∷ []) variant ++ value

-- truncateString and truncateBytes.
unfoldable pub truncate : List ℕ → ℕ → List ℕ
truncate value variant =
    if leb (length value) 1
    then []
    else let n = pick 0 (1 ∷ length value / 2 ∷ (length value - 1) ∷ []) variant in
      if leb (length value) n then value else take n value

unfoldable pub replace_string : List ℕ → ℕ → List ℕ
replace_string value variant =
    pick [] (codes "test" ∷ codes "modified" ∷ codes "x" ∷ codes "0" ∷ []) variant

unfoldable pub empty_string : List ℕ → ℕ → List ℕ
empty_string value variant = []

-- strings.Repeat.
unfoldable pub repeat : ℕ → List ℕ → List ℕ
repeat zero value = []
repeat (suc n) value = value ++ repeat n value

-- The number of repetitions, cut where the result would pass 1000 bytes.
unfoldable pub repetitions : ℕ → ℕ → ℕ
repetitions size n =
    if ltb 1000 (size * n) then (if ltb (1000 / size) 1 then 1 else 1000 / size) else n

unfoldable pub repeat_string : List ℕ → ℕ → List ℕ
repeat_string value variant =
    if length value == 0
    then codes "x"
    else repeat (repetitions (length value) (pick 2 (3 ∷ 10 ∷ []) variant)) value

unfoldable pub add_special_chars : List ℕ → ℕ → List ℕ
add_special_chars value variant =
    value ++ pick 0 (10 ∷ 13 ∷ 9 ∷ b'"' ∷ 39 ∷ 92 ∷ b'%' ∷ b'&' ∷ b'<' ∷ b'>' ∷ []) variant ∷ []

unfoldable pub mutate_string : List ℕ → ℕ → List ℕ
mutate_string value variant =
    pick (append_string value variant)
      (prepend_string value variant
        ∷ truncate value variant
        ∷ replace_string value variant
        ∷ empty_string value variant
        ∷ repeat_string value variant
        ∷ add_special_chars value variant
        ∷ [])
      variant

-- newValue[index] ^= 0xFF.
unfoldable pub flip_at : ℕ → List ℕ → List ℕ
flip_at index value = set value index (flip (get_or value index 0))

-- The loop of flipBytes for the rounds below `n`.
unfoldable pub flip_rounds : ℕ → ℕ → List ℕ → List ℕ
flip_rounds variant zero value = value
flip_rounds variant (suc i) value =
    let done = flip_rounds variant i value in flip_at ((variant + i) % length done) done

unfoldable pub flip_bytes : List ℕ → ℕ → List ℕ
flip_bytes value variant =
    let flip_count = variant % 3 + 1 in
    flip_rounds variant (if ltb flip_count (length value) then flip_count else length value) value

unfoldable pub append_bytes : List ℕ → ℕ → List ℕ
append_bytes value variant =
    value ++ pick (0 ∷ []) ((0xff ∷ []) ∷ (0xaa ∷ []) ∷ (0x55 ∷ []) ∷ codes "test" ∷ []) variant

unfoldable pub replace_bytes : List ℕ → ℕ → List ℕ
replace_bytes value variant =
    pick [] ((0 ∷ []) ∷ (0xff ∷ []) ∷ codes "test" ∷ codes "modified" ∷ []) variant

unfoldable pub empty_bytes : List ℕ → ℕ → List ℕ
empty_bytes value variant = []

unfoldable pub mutate_bytes : List ℕ → ℕ → List ℕ
mutate_bytes value variant =
    if length value == 0
    then codes "test"
    else pick (flip_bytes value variant)
        (append_bytes value variant
          ∷ truncate value variant
          ∷ replace_bytes value variant
          ∷ empty_bytes value variant
          ∷ [])
        variant

-- The byte variant%len of an array is changed by byte(variant), for the three lengths that the code
-- knows; an array of another length, or of another length than the type says, is returned as it is.
unfoldable pub mutate_fixed_bytes : List ℕ → ℕ → ℕ → List ℕ
mutate_fixed_bytes value size variant =
    let changed =
      set value (variant % size) (bit_xor (get_or value (variant % size) 0) (variant % 256)) in
    if length value == size
    then (if size == 1
        then changed
        else if size == 4
        then changed
        else if size == 32
        then changed
        else value)
    else value

-- ===== src/Modifier/Input/Steps.antt =====
-- tracing/mutation/modifier.go, mutateUintStep: the value that the parameter has afterwards.
use autopatch.Common.{
  ℕ, zero, suc, ◌+◌, ◌-◌, ◌*◌, ◌/◌, ◌%◌, ◌^◌, ◌≤◌, ◌<◌, ◌≡◌, refl, sym, ap, ◌∙◌, true, false, List,
  [], ◌∷◌, ◌++◌, length, take, drop, replicate, get_or, arith, leb, ◌==◌, length-append,
  length-take, length-replicate,
}
use native.Mathlib.Nat.{zero-add, suc-add, mod-lt}
use mathlib.Core.List.{append_assoc}
use autopatch.Storage.Bytes.{from_bytes, to_bytes}
use autopatch.Storage.Bytes.Laws.{
  pow256-suc, pow256-pos, from_bytes-append, from_bytes-zeros, from_bytes-to_bytes,
}
use autopatch.Modifier.Outcome.{returned}
use autopatch.Storage.Bytes.Sizes.{length-to_bytes}
use autopatch.Modifier.Input.Keeps.{length-put}
use autopatch.Modifier.Input.{put, put_number, word_at, with_param}

to_bytes-zero : (fuel : ℕ) → to_bytes fuel 0 ≡ []
unfolding to_bytes
to_bytes-zero zero = refl
to_bytes-zero (suc fuel) = refl

-- A number from 256^k to twice that starts with the byte 1.
to_bytes-one :
    (fuel k n : ℕ)
    → k < fuel
    → 256 ^ k ≤ n
    → n < 2 * 256 ^ k
    → (rest : List ℕ) × (to_bytes fuel n ≡ 1 ∷ rest) × (length rest ≡ k)
unfolding to_bytes
to_bytes-one zero k n h l u = absurd (omega arith)
to_bytes-one (suc fuel) zero n h l u =
    let one : n ≡ 1 = omega arith in ([], rw (one, to_bytes-zero fuel) refl, refl)
to_bytes-one (suc fuel) (suc k) n h l u =
    let (rest, e, size) =
      to_bytes-one fuel k (n / 256) (omega arith) (omega (arith, pow256-suc k))
        (omega (arith, pow256-suc k)) in
    let some_digits : (n == 0) ≡ false = ground (arith, pow256-suc k, pow256-pos k) in
    (
      rest ++ n % 256 ∷ [],
      rw (some_digits, e) refl,
      omega (arith, length-append rest (n % 256 ∷ []), size),
    )

get_or-middle : (xs ys : List ℕ) (y d : ℕ) → get_or (xs ++ y ∷ ys) (length xs) d ≡ y
get_or-middle [] ys y d = refl
get_or-middle (x ∷ xs) ys y d = get_or-middle xs ys y d

get_or-put :
    (xs : List ℕ) (i y : ℕ) (w : List ℕ) → i ≤ length xs → get_or (put xs i (y ∷ w)) i 0 ≡ y
unfolding put
get_or-put xs i y w h =
    let size : length (take i xs) ≡ i = omega (arith, length-take i xs) in
    ap (λ (k : ℕ). get_or (put xs i (y ∷ w)) k 0) (sym size)
    ∙ get_or-middle (take i xs) (w ++ drop (i + suc (length w)) xs) y 0

take-all : (xs ys : List ℕ) → take (length xs) (xs ++ ys) ≡ xs
take-all [] ys = refl
take-all (x ∷ xs) ys = ap (◌∷◌ x) (take-all xs ys)

drop-all : (xs ys : List ℕ) → drop (length xs) (xs ++ ys) ≡ ys
drop-all [] ys = refl
drop-all (x ∷ xs) ys = drop-all xs ys

-- The word that is written is the one that is read.
word_at-written :
    (front word back : List ℕ) (i : ℕ)
    → length front ≡ i
    → length word ≡ 32
    → word_at (front ++ (word ++ back)) i ≡ from_bytes 0 word
word_at-written front word back i e f = ap (from_bytes 0) (
    ap (λ (k : ℕ). take 32 (drop k (front ++ (word ++ back)))) (sym e)
    ∙ ap (take 32) (drop-all front (word ++ back))
    ∙ ap (λ (k : ℕ). take k (word ++ back)) (sym f)
    ∙ take-all word back)

put-middle :
    (front old word back : List ℕ) (i : ℕ)
    → length front ≡ i
    → length old ≡ length word
    → put (front ++ (old ++ back)) i word ≡ front ++ (word ++ back)
unfolding put
put-middle front old word back i e f =
    let bs = front ++ (old ++ back) in
    let size : length (front ++ old) ≡ i + length word = omega (arith, length-append front old) in
    let before : take i bs ≡ front =
      ap (λ (k : ℕ). take k bs) (sym e) ∙ take-all front (old ++ back) in
    let after : drop (i + length word) bs ≡ back =
      ap (λ (k : ℕ). drop k bs) (sym size)
      ∙ ap (drop (length (front ++ old))) (sym (append_assoc front old back))
      ∙ drop-all (front ++ old) back in
    ap (λ (xs : List ℕ). xs ++ (word ++ drop (i + length word) bs)) before
    ∙ ap (λ (xs : List ℕ). front ++ (word ++ xs)) after

replicate-append : (a b : ℕ) → replicate {A = ℕ} (a + b) 0 ≡ replicate a 0 ++ replicate b 0
replicate-append zero b = rw zero-add refl
replicate-append (suc a) b = rw suc-add (ap (◌∷◌ 0) (replicate-append a b))

-- The number is written with zeros before it.
put_number-padded :
    (bs : List ℕ) (start n : ℕ)
    → start + 32 ≤ length bs
    → n < 256 ^ 32
    → put_number bs start n
      ≡ take start bs
        ++ ((replicate (32 - length (to_bytes 34 n)) 0 ++ to_bytes 34 n) ++ drop (start + 32) bs)
unfolding put_number put
put_number-padded bs start n l lt =
    let v = to_bytes 34 n in
    let front = take start bs in
    let back = drop (start + 32) bs in
    let size : length v ≤ 32 = length-to_bytes 34 32 n lt in
    let gap = 32 - length v in
    let full : 32 ≡ gap + length v = omega (arith, size) in
    let zeros : replicate {A = ℕ} 32 0 ≡ replicate gap 0 ++ replicate (length v) 0 =
      ap (λ (k : ℕ). replicate {A = ℕ} k 0) full ∙ replicate-append gap (length v) in
    let split : front ++ (replicate 32 0 ++ back)
        ≡ (front ++ replicate gap 0) ++ (replicate (length v) 0 ++ back) =
      ap (λ (z : List ℕ). front ++ (z ++ back)) zeros
      ∙ ap (◌++◌ front) (append_assoc (replicate gap 0) (replicate (length v) 0) back)
      ∙ sym (append_assoc front (replicate gap 0) (replicate (length v) 0 ++ back)) in
    ap (λ (bs : List ℕ). put bs (start + 32 - length v) v) split
    ∙ put-middle (front ++ replicate gap 0) (replicate (length v) 0) v back (start + 32 - length v)
        (omega (
          arith,
          size,
          length-append front (replicate gap 0),
          length-take start bs,
          length-replicate {A = ℕ} gap 0,
        ))
        (length-replicate (length v) 0)
    ∙ append_assoc front (replicate gap 0) (v ++ back)
    ∙ ap (◌++◌ front) (sym (append_assoc (replicate gap 0) v back))

pub word_at-put_number :
    (bs : List ℕ) (start n : ℕ)
    → start + 32 ≤ length bs
    → n < 256 ^ 32
    → word_at (put_number bs start n) start ≡ n
word_at-put_number bs start n l lt =
    let v = to_bytes 34 n in
    let zeros = replicate {A = ℕ} (32 - length v) 0 in
    let size : length v ≤ 32 = length-to_bytes 34 32 n lt in
    ap (λ (b : List ℕ). word_at b start) (put_number-padded bs start n l lt)
    ∙ word_at-written (take start bs) (zeros ++ v) (drop (start + 32) bs) start
        (omega (arith, length-take start bs))
        (omega (arith, size, length-append zeros v, length-replicate {A = ℕ} (32 - length v) 0))
    ∙ from_bytes-append 0 zeros v
    ∙ ap (λ (k : ℕ). from_bytes k v) (from_bytes-zeros 0 (32 - length v) ∙ omega arith)
    ∙ from_bytes-to_bytes 34 n (omega (arith, lt))

-- The byte before the word, when the number has a bit more than the word.
pub get_or-put_number :
    (bs : List ℕ) (start n : ℕ)
    → 0 < start
    → start + 32 ≤ length bs
    → 256 ^ 32 ≤ n
    → n < 2 * 256 ^ 32
    → get_or (put_number bs start n) (start - 1) 0 ≡ 1
unfolding put_number
get_or-put_number bs start n p l h u =
    let (rest, e, size) = to_bytes-one 34 32 n (omega arith) h u in
    let cleared = put bs start (replicate 32 0) in
    let at : start + 32 - length (to_bytes 34 n) ≡ start - 1 = rw e (omega (arith, size)) in
    let long : start - 1 ≤ length cleared = omega (arith, length-put bs start (replicate 32 0) l) in
    ap (λ (k : ℕ). get_or (put cleared k (to_bytes 34 n)) (start - 1) 0) at
    ∙ ap (λ (v : List ℕ). get_or (put cleared (start - 1) v) (start - 1) 0) e
    ∙ get_or-put cleared (start - 1) 1 rest long

-- Where the strategy's parameter starts.
abbrev pub param_start : List ℕ → ℕ → ℕ
param_start bs n = 4 + n % ((length bs - 4) / 32) * 32

pub param_start-fits : (bs : List ℕ) (n : ℕ) → 36 ≤ length bs → param_start bs n + 32 ≤ length bs
param_start-fits bs n h =
    let words = (length bs - 4) / 32 in
    let some : 0 < words = omega arith in
    let index : n % words < words = mod-lt n some in omega arith

pub with_param-returned :
    (bs : List ℕ) (n : ℕ) (change : ℕ → List ℕ)
    → 36 ≤ length bs
    → with_param bs n change ≡ returned (change (param_start bs n))
unfolding with_param
with_param-returned bs n change h =
    let some_whole : ((length bs - 4) / 32 == 0) ≡ false = ground arith in
    let fits : leb (param_start bs n + 32) (length bs) ≡ true =
      ground (arith, param_start-fits bs n h) in
    rw (some_whole, fits) refl

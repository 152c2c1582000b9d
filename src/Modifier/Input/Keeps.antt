-- ===== src/Modifier/Input/Keeps.antt =====
-- tracing/mutation/modifier.go: what the strategies keep of the call data.
use native.Mathlib.Nat.{mul-le-mul_right}
use autopatch.Common.{
  ℕ, zero, suc, ◌+◌, ◌-◌, ◌*◌, ◌^◌, ◌≤◌, ◌<◌, ◌≡◌, refl, ◌∙◌, ap, Bool, true, false, inl, inr, List,
  [], ◌∷◌, ◌++◌, length, take, drop, replicate, set, length-append, length-set, length-take,
  length-drop, arith, leb, if◌then◌else◌, Bool-cases, leb→le,
}
use autopatch.Storage.Bytes.{AreBytes, to_bytes, from_bytes}
use autopatch.Storage.Bytes.Closed.{
  append-AreBytes, take-AreBytes, drop-AreBytes, set-AreBytes, zeros-AreBytes, to_bytes-AreBytes,
}
use autopatch.Storage.Bytes.Sizes.{length-to_bytes}
use autopatch.Storage.Bytes.Laws.{pow256-suc}
use autopatch.Modifier.Input.{put, put_number, put_product, word_at, add_byte}

-- The same length, the same first k bytes, and bytes again.
pub record Keeps (k : ℕ) (xs ys : List ℕ) : Type 0 where
  pub same_length : length ys ≡ length xs
  pub same_start : take k ys ≡ take k xs
  pub stays_bytes : AreBytes ys

pub Keeps-trans : {k : ℕ} {xs ys zs : List ℕ} → Keeps k xs ys → Keeps k ys zs → Keeps k xs zs
Keeps-trans h g = record {
  same_length = g.same_length ∙ h.same_length;
  same_start = g.same_start ∙ h.same_start;
  stays_bytes = g.stays_bytes;
}

pub Keeps-refl : (k : ℕ) (xs : List ℕ) → AreBytes xs → Keeps k xs xs
Keeps-refl k xs b = record { same_length = refl; same_start = refl; stays_bytes = b }

pub Keeps-if :
    {k : ℕ} {xs ys zs : List ℕ} (b : Bool)
    → Keeps k xs ys
    → Keeps k xs zs
    → Keeps k xs (if b then ys else zs)
Keeps-if true h g = h
Keeps-if false h g = g

pub take-set : (k : ℕ) (xs : List ℕ) (i v : ℕ) → k ≤ i → take k (set xs i v) ≡ take k xs
take-set zero xs i v h = refl
take-set (suc k) [] i v h = refl
take-set (suc k) (x ∷ xs) zero v h = absurd (omega arith)
take-set (suc k) (x ∷ xs) (suc i) v h = ap (◌∷◌ x) (take-set k xs i v (omega arith))

take-take_append :
    (k n : ℕ) (xs ys : List ℕ) → k ≤ n → n ≤ length xs → take k (take n xs ++ ys) ≡ take k xs
take-take_append zero n xs ys h l = refl
take-take_append (suc k) zero xs ys h l = absurd (omega arith)
take-take_append (suc k) (suc n) [] ys h l = absurd (omega arith)
take-take_append (suc k) (suc n) (x ∷ xs) ys h l =
    ap (◌∷◌ x) (take-take_append k n xs ys (omega arith) (omega arith))

pub set-Keeps :
    (k : ℕ) (xs : List ℕ) (i v : ℕ) → k ≤ i → v < 256 → AreBytes xs → Keeps k xs (set xs i v)
set-Keeps k xs i v h lt b = record {
  same_length = length-set xs i v;
  same_start = take-set k xs i v h;
  stays_bytes = set-AreBytes xs i v lt b;
}

pub add_byte-Keeps :
    (k : ℕ) (xs : List ℕ) (i n : ℕ) → k ≤ i → AreBytes xs → Keeps k xs (add_byte xs i n)
add_byte-Keeps k xs i n h b = set-Keeps k xs i _ h (omega arith) b

pub length-put :
    (xs : List ℕ) (i : ℕ) (w : List ℕ) → i + length w ≤ length xs → length (put xs i w) ≡ length xs
unfolding put
length-put xs i w l =
    let rest = drop (i + length w) xs in
    omega (
      arith,
      length-append (take i xs) (w ++ rest),
      length-append w rest,
      length-take i xs,
      length-drop (i + length w) xs,
    )

pub put-Keeps :
    (k : ℕ) (xs : List ℕ) (i : ℕ) (w : List ℕ)
    → k ≤ i
    → i + length w ≤ length xs
    → AreBytes w
    → AreBytes xs
    → Keeps k xs (put xs i w)
unfolding put
put-Keeps k xs i w h l bw b =
    let rest = drop (i + length w) xs in
    record {
      same_length = length-put xs i w l;
      same_start = take-take_append k i xs _ h (omega arith);
      stays_bytes =
          append-AreBytes (take i xs) (w ++ rest) (take-AreBytes i xs b)
            (append-AreBytes w rest bw (drop-AreBytes (i + length w) xs b));
    }

pub from_bytes-lt :
    (acc : ℕ) (bs : List ℕ) → AreBytes bs → from_bytes acc bs < (acc + 1) * 256 ^ length bs
unfolding from_bytes
from_bytes-lt acc [] b = omega arith
from_bytes-lt acc (c ∷ bs) b = omega (
  arith,
  from_bytes-lt (acc * 256 + c) bs b.1,
  ap (λ (t : ℕ). (acc + 1) * t) (pow256-suc (length bs)),
  mul-le-mul_right {m = acc * 256 + c + 1} {n = acc * 256 + 256} (256 ^ length bs)
      (omega (arith, b.0)),
)

pub word_at-lt : (bs : List ℕ) (i : ℕ) → i + 32 ≤ length bs → AreBytes bs → word_at bs i < 256 ^ 32
word_at-lt bs i l b =
    let word = take 32 (drop i bs) in
    let size : length word ≡ 32 = omega (arith, length-take 32 (drop i bs), length-drop i bs) in
    let bound : 256 ^ length word ≡ 256 ^ 32 = ap (λ (k : ℕ). 256 ^ k) size in
    omega (arith, bound, from_bytes-lt 0 word (take-AreBytes 32 (drop i bs) (drop-AreBytes i bs b)))

-- A number of at most 32 + j bytes reaches at most j bytes before its word.
pub put_number-Keeps :
    (k j : ℕ) (xs : List ℕ) (i n : ℕ)
    → k + j ≤ i
    → i + 32 ≤ length xs
    → n < 256 ^ (32 + j)
    → AreBytes xs
    → Keeps k xs (put_number xs i n)
unfolding put_number
put_number-Keeps k j xs i n h l lt b =
    let v = to_bytes 34 n in
    let cleared = put-Keeps k xs i (replicate 32 0) (omega arith) l (zeros-AreBytes 32) b in
    let size = length-to_bytes 34 (32 + j) n lt in
    Keeps-trans cleared (
      put-Keeps k (put xs i (replicate 32 0)) (i + 32 - length v) v (omega (arith, size))
        (omega (arith, cleared.same_length, size)) (to_bytes-AreBytes 34 n) cleared.stays_bytes)

pub put_product-Keeps :
    (k : ℕ) (xs : List ℕ) (i n : ℕ)
    → k ≤ i
    → i + 32 ≤ length xs
    → AreBytes xs
    → Keeps k xs (put_product xs i n)
unfolding put_product
put_product-Keeps k xs i n h l b =
    let v = to_bytes 34 n in
    let cleared = put-Keeps k xs i (replicate 32 0) h l (zeros-AreBytes 32) b in
    elim (Bool-cases (leb (length v) 32)) [
      | inl fits ↦
          let size = leb→le (length v) 32 fits in
          rw fits (
            Keeps-trans cleared (
              put-Keeps k (put xs i (replicate 32 0)) (i + 32 - length v) v (omega (arith, size))
                (omega (arith, cleared.same_length, size)) (to_bytes-AreBytes 34 n)
                cleared.stays_bytes))
      | inr out ↦ rw out cleared
    ]

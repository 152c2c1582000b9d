-- ===== src/Storage/Bytes/Closed.antt =====
-- What is cut from bytes, joined of them or written by Bytes is bytes.
use autopatch.Common.{
  ℕ, zero, suc, ◌/◌, ◌%◌, ◌<◌, List, [], ◌∷◌, ◌++◌, take, drop, replicate, set, arith, ◌==◌,
  if◌then◌else◌, Bool, true, false,
}
use autopatch.Storage.Bytes.{AreBytes, to_bytes}

pub append-AreBytes : (xs ys : List ℕ) → AreBytes xs → AreBytes ys → AreBytes (xs ++ ys)
append-AreBytes [] ys h k = k
append-AreBytes (x ∷ xs) ys h k = (h.0, append-AreBytes xs ys h.1 k)

pub take-AreBytes : (n : ℕ) (xs : List ℕ) → AreBytes xs → AreBytes (take n xs)
take-AreBytes zero xs h = tt
take-AreBytes (suc n) [] h = tt
take-AreBytes (suc n) (x ∷ xs) h = (h.0, take-AreBytes n xs h.1)

pub drop-AreBytes : (n : ℕ) (xs : List ℕ) → AreBytes xs → AreBytes (drop n xs)
drop-AreBytes zero xs h = h
drop-AreBytes (suc n) [] h = tt
drop-AreBytes (suc n) (x ∷ xs) h = drop-AreBytes n xs h.1

pub zeros-AreBytes : (n : ℕ) → AreBytes (replicate n 0)
zeros-AreBytes zero = tt
zeros-AreBytes (suc n) = (omega arith, zeros-AreBytes n)

pub set-AreBytes : (xs : List ℕ) (i v : ℕ) → v < 256 → AreBytes xs → AreBytes (set xs i v)
set-AreBytes [] i v lt h = tt
set-AreBytes (x ∷ xs) zero v lt h = (lt, h.1)
set-AreBytes (x ∷ xs) (suc i) v lt h = (h.0, set-AreBytes xs i v lt h.1)

pub if-AreBytes :
    (b : Bool) (xs ys : List ℕ) → AreBytes xs → AreBytes ys → AreBytes (if b then xs else ys)
if-AreBytes true xs ys h k = h
if-AreBytes false xs ys h k = k

pub to_bytes-AreBytes : (fuel n : ℕ) → AreBytes (to_bytes fuel n)
unfolding to_bytes
to_bytes-AreBytes zero n = tt
to_bytes-AreBytes (suc fuel) n =
    if-AreBytes (n == 0) [] (to_bytes fuel (n / 256) ++ n % 256 ∷ []) tt (
      append-AreBytes (to_bytes fuel (n / 256)) _ (to_bytes-AreBytes fuel (n / 256))
        (omega arith, tt))

-- ===== src/Sender/Batch/Closed.antt =====
-- txmgr/ethereum/transaction.go, BatchTransactionSender: when its channels are closed.
use autopatch.Common.{
  ℕ, zero, suc, ◌≤◌, ◌<◌, ◌≡◌, refl, ap, Bool, true, false, not, ◌&&◌, ◌||◌, some, List, [], ◌∷◌,
  length, get_elem?, ◌==◌, if◌then◌else◌, arith,
}
use autopatch.Sender.Batch.{remove_at}

-- Closed only when stopped, with no worker left.
abbrev pub ClosedAfter : Bool → Bool → ℕ → Type 0
ClosedAfter false stopped workers = Unit
ClosedAfter true true workers = workers ≡ 0
ClosedAfter true false workers = ⊥

pub length-remove_at :
    {A : Type 0}
    → (xs : List A) (i : ℕ) (x : A) → get_elem? xs i ≡ some x
    → suc (length (remove_at xs i)) ≡ length xs
length-remove_at [] i x h = absurd (ground (arith, h))
length-remove_at (y ∷ xs) zero x h = refl
length-remove_at (y ∷ xs) (suc i) x h = ap suc (length-remove_at xs i x h)

pub open_unstopped : (c s : Bool) (n : ℕ) → ClosedAfter c s n → s ≡ false → c ≡ false
open_unstopped false s n h e = refl
open_unstopped true true n h e = absurd (ground (arith, e))
open_unstopped true false n h e = absurd h

pub open_working : (c s : Bool) (n : ℕ) → ClosedAfter c s n → 0 < n → c ≡ false
open_working false s n h p = refl
open_working true true n h p = absurd (omega (arith, h, p))
open_working true false n h p = absurd h

pub still_open : (c s : Bool) (n : ℕ) → c ≡ false → ClosedAfter c s n
still_open false s n e = tt
still_open true s n e = absurd (ground (arith, e))

pub both : (a b : Bool) → (a || b) ≡ false → (a ≡ false) × (b ≡ false)
both false false h = (refl, refl)
both false true h = absurd (ground (arith, h))
both true b h = absurd (ground (arith, h))

pub unstarted : (s : Bool) (n w : ℕ) → s ≡ false → w ≤ (if s then n else 0) → w ≤ 0
unstarted false n w e h = h
unstarted true n w e h = absurd (ground (arith, e))

pub true-false : {c : Bool} → c ≡ true → c ≡ false → ⊥
true-false e f = ground (arith, e, f)

pub closing : (s c : Bool) (n : ℕ) → (s && not c && n == 0) ≡ true → ClosedAfter true s n
closing true false n e = ground (arith, e)
closing true true n e = absurd (ground (arith, e))
closing false c n e = absurd (ground (arith, e))

pub fewer : (c s : Bool) (n m : ℕ) → m ≤ n → ClosedAfter c s n → ClosedAfter c s m
fewer false s n m l h = tt
fewer true true n m l h = omega (arith, l, h)
fewer true false n m l h = absurd h

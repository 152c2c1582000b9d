-- ===== src/TxMgr/SendState/Abort.antt =====
-- txmgr/send_state.go: when the attempts are given up.
use autopatch.Common.{
  ℕ, ◌+◌, ◌^◌, ◌≤◌, ◌<◌, ◌≡◌, refl, Bool, true, false, List, [], ◌∷◌, length, arith, if◌then◌else◌,
  none, some, ◌↔◌,
}
use autopatch.Common.GoMap.{
  nat_eq, lookup, is_some, delete, length-delete, insert-UniqueKeys, delete-UniqueKeys, UniqueKeys,
}
use autopatch.Common.Text.{contains_text}
use autopatch.TxMgr.SendState.{
  SendState, Call, process, mined, not_mined, ErrorText, step, run, should_abort_immediately,
}

-- Each hash has one entry, and the counter is a uint64.
pub record IsValid (s : SendState) : Type 0 where
  pub unique : UniqueKeys s.mined_txs
  pub counted : s.nonce_too_low_count < 2 ^ 64

step-IsValid : (low : ErrorText) (s : SendState) (c : Call) → IsValid s → IsValid (step low s c)
unfolding step
step-IsValid low s (process none) v = v
step-IsValid low s (process (some err)) v = ground arith
step-IsValid low s (mined h) v = record {
  unique = insert-UniqueKeys h tt s.mined_txs v.unique;
  counted = v.counted;
}
step-IsValid low s (not_mined h) v = ground (arith, delete-UniqueKeys h s.mined_txs v.unique)

pub run-IsValid :
    (low : ErrorText) (s : SendState) (cs : List Call) → IsValid s → IsValid (run low s cs)
unfolding run
run-IsValid low s [] v = v
run-IsValid low s (c ∷ cs) v = run-IsValid low (step low s c) cs (step-IsValid low s c v)

-- How many reported errors contain the nonce-too-low text, when no call reports a mined transaction.
unfoldable pub nonce_errors : ErrorText → List Call → ℕ
nonce_errors low [] = 0
nonce_errors low (process none ∷ cs) = nonce_errors low cs
nonce_errors low (process (some err) ∷ cs) =
    (if contains_text err low then 1 else 0) + nonce_errors low cs
nonce_errors low (mined h ∷ cs) = nonce_errors low cs
nonce_errors low (not_mined h ∷ cs) = nonce_errors low cs

unfoldable pub none_mined : List Call → Bool
none_mined [] = true
none_mined (mined h ∷ cs) = false
none_mined (_ ∷ cs) = none_mined cs

run_unmined :
    (low : ErrorText) (s : SendState) (cs : List Call)
    → s.mined_txs ≡ []
    → none_mined cs ≡ true
    → s.nonce_too_low_count + length cs < 2 ^ 64
    → ((run low s cs).mined_txs ≡ [])
      × ((run low s cs).nonce_too_low_count ≡ s.nonce_too_low_count + nonce_errors low cs)
      × ((run low s cs).safe_abort_nonce_too_low_count ≡ s.safe_abort_nonce_too_low_count)
unfolding run nonce_errors none_mined step
run_unmined low s [] e n b = (e, omega arith, refl)
run_unmined low s (process none ∷ cs) e n b = run_unmined low s cs e n (omega arith)
run_unmined low s (process (some err) ∷ cs) e n b =
    ground (arith, run_unmined low (step low s (process (some err))) cs)
run_unmined low s (mined h ∷ cs) e n b = absurd (ground arith)
run_unmined low s (not_mined h ∷ cs) e n b =
    ground (arith, run_unmined low (step low s (not_mined h)) cs)

-- With nothing mined, and no mined report among fewer than 2^64 calls, the manager aborts exactly
-- when the nonce errors counted so far and those of the calls reach the threshold.
pub abort_iff_threshold :
    (low : ErrorText) (s : SendState) (cs : List Call)
    → s.mined_txs ≡ []
    → none_mined cs ≡ true
    → s.nonce_too_low_count + length cs < 2 ^ 64
    → (should_abort_immediately (run low s cs) ≡ true)
      ↔ (s.safe_abort_nonce_too_low_count ≤ s.nonce_too_low_count + nonce_errors low cs)
unfolding should_abort_immediately
abort_iff_threshold low s cs e n b = ground (arith, run_unmined low s cs e n b)

eq-nil_of_length {ℓ} : {A : Type ℓ} (xs : List A) → length xs ≡ 0 → xs ≡ []
eq-nil_of_length [] h = refl
eq-nil_of_length (x ∷ xs) h = absurd (omega arith)

-- Taking back the only mined transaction leaves no transaction and no count.
step-last_not_mined :
    (low : ErrorText) (s : SendState) (h : ℕ)
    → IsValid s
    → is_some (lookup h s.mined_txs) ≡ true
    → length s.mined_txs ≡ 1
    → step low s (not_mined h) ≡ record s { mined_txs = []; nonce_too_low_count = 0 }
unfolding step
step-last_not_mined low s h v w l =
    ground (arith, length-delete h s.mined_txs v.unique, eq-nil_of_length (delete h s.mined_txs))

-- A reorganisation that takes the last mined transaction back clears the count: in a valid state
-- whose only mined transaction is reported as not mined, the next calls abort exactly when they
-- alone bring as many nonce errors as the threshold says.
pub reorg_counts_afresh :
    (low : ErrorText) (s : SendState) (h : ℕ) (cs : List Call)
    → IsValid s
    → is_some (lookup h s.mined_txs) ≡ true
    → length s.mined_txs ≡ 1
    → none_mined cs ≡ true
    → length cs < 2 ^ 64
    → (should_abort_immediately (run low s (not_mined h ∷ cs)) ≡ true)
      ↔ (s.safe_abort_nonce_too_low_count ≤ nonce_errors low cs)
unfolding run
reorg_counts_afresh low s h cs v w l n b =
    let cleared = record s { mined_txs = []; nonce_too_low_count = 0 } in
    rw (step-last_not_mined low s h v w l)
      (ground (arith, abort_iff_threshold low cleared cs refl n))

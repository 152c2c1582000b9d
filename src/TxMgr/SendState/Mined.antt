-- ===== src/TxMgr/SendState/Mined.antt =====
-- txmgr/send_state.go: which transactions count as mined, against the history of calls.
use autopatch.Common.{
  ℕ, ◌≡◌, refl, Bool, true, false, List, [], ◌∷◌, length, ◌==◌, arith, if◌then◌else◌, none, some,
  Option, ◌<◌,
}
use autopatch.Common.GoMap.{nat_eq, lookup, is_some, lookup-insert, lookup-delete}
use autopatch.TxMgr.SendState.{
  SendState, Call, process, mined, not_mined, ErrorText, step, run, should_abort_immediately,
  is_waiting_for_confirmation,
}

-- Whether the last report about the hash said that it is mined, `b` before any report.
unfoldable pub last_report : ℕ → Bool → List Call → Bool
last_report h b [] = b
last_report h b (process err ∷ cs) = last_report h b cs
last_report h b (mined k ∷ cs) = last_report h (if k == h then true else b) cs
last_report h b (not_mined k ∷ cs) = last_report h (if k == h then false else b) cs

step-process :
    (low : ErrorText) (s : SendState) (err : Option ErrorText)
    → (step low s (process err)).mined_txs ≡ s.mined_txs
unfolding step
step-process low s none = refl
step-process low s (some e) = ground arith

step-mined :
    (low : ErrorText) (s : SendState) (h k : ℕ)
    → is_some (lookup h (step low s (mined k)).mined_txs)
      ≡ (if k == h then true else is_some (lookup h s.mined_txs))
unfolding step
step-mined low s h k = ground (arith, lookup-insert k h tt s.mined_txs)

step-not_mined :
    (low : ErrorText) (s : SendState) (h k : ℕ)
    → is_some (lookup h (step low s (not_mined k)).mined_txs)
      ≡ (if k == h then false else is_some (lookup h s.mined_txs))
unfolding step
step-not_mined low s h k = ground (arith, lookup-delete k h s.mined_txs)

-- After any calls the set of mined transactions holds exactly the hashes whose last report was
-- "mined" (and, of those never reported on, the ones that it held before).
pub run-last_report :
    (low : ErrorText) (s : SendState) (h : ℕ) (cs : List Call)
    → is_some (lookup h (run low s cs).mined_txs)
      ≡ last_report h (is_some (lookup h s.mined_txs)) cs
unfolding run last_report
run-last_report low s h [] = refl
run-last_report low s h (process err ∷ cs) =
    ground (arith, run-last_report low (step low s (process err)) h cs, step-process low s err)
run-last_report low s h (mined k ∷ cs) =
    ground (arith, run-last_report low (step low s (mined k)) h cs, step-mined low s h k)
run-last_report low s h (not_mined k ∷ cs) =
    ground (arith, run-last_report low (step low s (not_mined k)) h cs, step-not_mined low s h k)

pub length-pos_of_lookup :
    (h : ℕ) (m : List (ℕ × Unit {0})) → is_some (lookup h m) ≡ true → 0 < length m
length-pos_of_lookup h [] e = absurd (ground arith)
length-pos_of_lookup h (x ∷ m) e = omega arith

-- While the last report on some transaction says that it is mined, the manager waits for its
-- confirmation and never aborts, however many nonce errors came in.
pub mined_no_abort :
    (low : ErrorText) (s : SendState) (h : ℕ) (cs : List Call)
    → last_report h (is_some (lookup h s.mined_txs)) cs ≡ true
    → (should_abort_immediately (run low s cs) ≡ false)
      × (is_waiting_for_confirmation (run low s cs) ≡ true)
unfolding should_abort_immediately is_waiting_for_confirmation
mined_no_abort low s h cs e =
    ground (arith, run-last_report low s h cs, length-pos_of_lookup h (run low s cs).mined_txs)

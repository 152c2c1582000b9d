-- ===== src/TxMgr/SendState.antt =====
-- txmgr/send_state.go. Each method runs under the mutex, so it is one step on the record; a method
-- that changes the state returns the new one. A transaction hash is a number.
pub mod Mined
pub mod Abort
use autopatch.Common.{
  ℕ, ◌+◌, ◌%◌, ◌^◌, Bool, true, false, ◌&&◌, Option, none, some, List, [], ◌∷◌, length, ◌==◌, ltb,
  leb, not, if◌then◌else◌,
}
use autopatch.Common.GoMap.{nat_eq, lookup, insert, delete, is_some}
use autopatch.Common.Text.{contains_text}

-- A Go error is its message; `none` is nil.
abbrev pub ErrorText : Type 0
ErrorText = List ℕ

-- uint64 arithmetic wraps.
abbrev pub u64 : ℕ → ℕ
u64 n = n % 2 ^ 64

pub record SendState : Type 0 where
  pub mined_txs : List (ℕ × Unit {0})
  pub nonce_too_low_count : ℕ
  pub safe_abort_nonce_too_low_count : ℕ

-- `none` is the panic on a threshold of zero.
unfoldable pub new_send_state : ℕ → Option SendState
new_send_state threshold =
    if threshold == 0
    then none
    else some (record {
      mined_txs = [];
      nonce_too_low_count = 0;
      safe_abort_nonce_too_low_count = threshold;
    })

-- `nonce_too_low` is the text of go-ethereum's core.ErrNonceTooLow.
unfoldable pub process_send_error : ErrorText → SendState → Option ErrorText → SendState
process_send_error nonce_too_low s none = s
process_send_error nonce_too_low s (some err) =
    if contains_text err nonce_too_low
    then record s { nonce_too_low_count = u64 (s.nonce_too_low_count + 1) }
    else s

unfoldable pub tx_mined : SendState → ℕ → SendState
tx_mined s tx_hash = record s { mined_txs = insert tx_hash tt s.mined_txs }

unfoldable pub tx_not_mined : SendState → ℕ → SendState
tx_not_mined s tx_hash =
    let was_mined = is_some (lookup tx_hash s.mined_txs) in
    let t = record s { mined_txs = delete tx_hash s.mined_txs } in
    if length t.mined_txs == 0 && was_mined then record t { nonce_too_low_count = 0 } else t

unfoldable pub should_abort_immediately : SendState → Bool
should_abort_immediately s =
    if ltb 0 (length s.mined_txs)
    then false
    else leb s.safe_abort_nonce_too_low_count s.nonce_too_low_count

unfoldable pub is_waiting_for_confirmation : SendState → Bool
is_waiting_for_confirmation s = ltb 0 (length s.mined_txs)

-- The calls that change the state, in the order in which the mutex admits them.
pub data Call : Type 0 where
  process : Option ErrorText → Call
  mined : ℕ → Call
  not_mined : ℕ → Call

unfoldable pub step : ErrorText → SendState → Call → SendState
unfolding process_send_error tx_mined tx_not_mined
step nonce_too_low s (process err) = process_send_error nonce_too_low s err
step nonce_too_low s (mined h) = tx_mined s h
step nonce_too_low s (not_mined h) = tx_not_mined s h

unfoldable pub run : ErrorText → SendState → List Call → SendState
run nonce_too_low s [] = s
run nonce_too_low s (c ∷ cs) = run nonce_too_low (step nonce_too_low s c) cs

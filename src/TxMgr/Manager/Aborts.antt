-- ===== src/TxMgr/Manager/Aborts.antt =====
-- txmgr/txmgr.go: what makes Send give up.
use autopatch.Common.{
  ℕ, ◌+◌, ◌≤◌, ◌≡◌, refl, ◌⊎◌, Bool, true, false, ◌||◌, not, Option, none, some, List, [], ◌∷◌,
  arith, if◌then◌else◌,
}
use native.Mathlib.Nat.{add-zero, zero-add, add_assoc}
use autopatch.Common.Text.{contains_text}
use autopatch.TxMgr.SendState.{
  ErrorText, SendState, process_send_error, should_abort_immediately, new_send_state, tx_mined,
  tx_not_mined,
}
use autopatch.TxMgr.WaitMined.{Receipt, report}
use autopatch.TxMgr.Manager.{
  Config, Returned, receipt, canceled, Manager, Event, ticked, saw_done, received, parent_canceled,
  priced, price_failed, published, queried, woken, stopped, send, is_canceled_text, step, run,
}

-- The caller's context ended, or updateGasPrice failed for another reason than that.
unfoldable pub tells_to_stop : Event → Bool
tells_to_stop parent_canceled = true
tells_to_stop (price_failed i err) = not (is_canceled_text err)
tells_to_stop _ = false

unfoldable pub some_tells_to_stop : List Event → Bool
some_tells_to_stop [] = false
some_tells_to_stop (e ∷ es) = tells_to_stop e || some_tells_to_stop es

unfoldable pub nonce_failure : ErrorText → Event → ℕ
nonce_failure low (published i (some err)) = if contains_text err low then 1 else 0
nonce_failure low _ = 0

-- How many publications failed with a nonce that is too low.
unfoldable pub nonce_failures : ErrorText → List Event → ℕ
nonce_failures low [] = 0
nonce_failures low (e ∷ es) = nonce_failure low e + nonce_failures low es

abbrev HasReceipt : Option Returned → Type 0
HasReceipt (some (receipt r)) = Unit
HasReceipt _ = ⊥

-- A context that is done has a cause: the receipt, an event that tells to stop, enough nonce failures.
record Explained (m : Manager) (threshold : ℕ) (told : Bool) (failures : ℕ) : Type 0 where
  same : m.send_state.safe_abort_nonce_too_low_count ≡ threshold
  counted : m.send_state.nonce_too_low_count ≤ failures
  cause : m.done ≡ true → HasReceipt m.returned ⊎ (told ≡ true) ⊎ (threshold ≤ failures)
  gave_up : m.returned ≡ some canceled → (told ≡ true) ⊎ (threshold ≤ failures)

-- An abort needs the count at the threshold; a nonce failure adds at most one to it.
abort_count :
    (s : SendState)
    → should_abort_immediately s ≡ true
    → s.safe_abort_nonce_too_low_count ≤ s.nonce_too_low_count
unfolding should_abort_immediately
abort_count s h = ground arith

process-count-le :
    (low : ErrorText) (s : SendState) (err : ErrorText)
    → (process_send_error low s (some err)).nonce_too_low_count
      ≤ s.nonce_too_low_count + (if contains_text err low then 1 else 0)
unfolding process_send_error
process-count-le low s err = ground arith

process-threshold :
    (low : ErrorText) (s : SendState) (err : ErrorText)
    → (process_send_error low s (some err)).safe_abort_nonce_too_low_count
      ≡ s.safe_abort_nonce_too_low_count
unfolding process_send_error
process-threshold low s err = ground arith

-- Reports about receipts keep the threshold and never raise the count.
report-count-le :
    (tx : ℕ) (s t : SendState) (r : Option Receipt) (err : Option ErrorText)
    → report tx (some s) r err ≡ some t
    → (t.safe_abort_nonce_too_low_count ≡ s.safe_abort_nonce_too_low_count)
      × (t.nonce_too_low_count ≤ s.nonce_too_low_count)
unfolding report tx_mined tx_not_mined
report-count-le tx s t r err e = ground arith

module _ (low : ErrorText) (m : Manager) (n : ℕ) (b : Bool) (k : ℕ) where
  step-Explained :
      (e : Event)
      → Explained m n b k
      → Explained (step low m e) n (b || tells_to_stop e) (k + nonce_failure low e)
  unfolding step tells_to_stop nonce_failure
  step-Explained ticked x = ground arith
  step-Explained saw_done x = ground arith
  step-Explained received x = ground arith
  step-Explained parent_canceled x = ground arith
  step-Explained (priced i tx) x = ground arith
  step-Explained (price_failed i err) x = ground arith
  step-Explained (published i none) x = ground arith
  step-Explained (published i (some err)) x = ground (
    arith,
    process-count-le low m.send_state err,
    process-threshold low m.send_state err,
    abort_count (process_send_error low m.send_state (some err)),
  )
  step-Explained (queried i q) x = grind (arith, report-count-le)
  step-Explained (woken i) x = ground arith
  step-Explained (stopped i) x = ground arith

||_assoc : (a b c : Bool) → (a || b) || c ≡ a || (b || c)
||_assoc true b c = refl
||_assoc false b c = refl

||_false : (b : Bool) → b || false ≡ b
||_false true = refl
||_false false = refl

run-Explained :
    (low : ErrorText) (m : Manager) (n : ℕ) (b : Bool) (k : ℕ) (es : List Event)
    → Explained m n b k
    → Explained (run low m es) n (b || some_tells_to_stop es) (k + nonce_failures low es)
unfolding run some_tells_to_stop nonce_failures
run-Explained low m n b k [] x = rw (||_false, add-zero) x
run-Explained low m n b k (e ∷ es) x =
    rw
      (
        ← ||_assoc b (tells_to_stop e) (some_tells_to_stop es),
        ← add_assoc k (nonce_failure low e) (nonce_failures low es),
      )
      (run-Explained low (step low m e) n _ _ es (step-Explained low m n b k e x))

-- Send returns the context's error only if the caller's context ended, or a gas price update failed
-- for another reason than a cancelled context, or at least as many publications failed with a nonce
-- that is too low as the abort threshold says.
pub canceled_has_cause :
    (low : ErrorText) (c : Config) (m : Manager) (es : List Event)
    → send c ≡ some m
    → (run low m es).returned ≡ some canceled
    → (some_tells_to_stop es ≡ true) ⊎ (c.safe_abort_nonce_too_low_count ≤ nonce_failures low es)
unfolding send new_send_state
canceled_has_cause low c m es s e =
    rw zero-add at
      ((run-Explained low m c.safe_abort_nonce_too_low_count false 0 es (ground arith)).gave_up e)

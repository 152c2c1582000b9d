-- ===== src/TxMgr/Tests.antt =====
-- txmgr: the theorems at concrete inputs.
use autopatch.Common.{
  ◌+◌, ◌≤◌, ◌≡◌, refl, ◌↔◌, ◌⊎◌, inr, true, false, none, some, List, [], ◌∷◌, arith,
}
use autopatch.Common.GoMap.{nat_eq, lookup, is_some}
use autopatch.Common.Text.{codes}
use autopatch.TxMgr.SendState.{
  tx_mined, SendState, Call, process, mined, not_mined, ErrorText, run, should_abort_immediately,
  is_waiting_for_confirmation,
}
use autopatch.TxMgr.SendState.Mined.{last_report, run-last_report, mined_no_abort}
use autopatch.TxMgr.SendState.Abort.{
  nonce_errors, none_mined, abort_iff_threshold, reorg_counts_afresh,
}
use autopatch.TxMgr.WaitMined.{
  Receipt, Query, Wake, wait_mined, waiting, confirmed, Evidence, confirms, wait_mined-Evidence,
  wait_mined_returns,
}
use autopatch.TxMgr.WaitMined
use autopatch.TxMgr.Manager.{
  Config, Manager, Event, ticked, received, saw_done, priced, published, queried, woken,
  parent_canceled, receipt, canceled, send, pricing,
}
use autopatch.TxMgr.Manager
use autopatch.TxMgr.Manager.Receipts.{SomeConfirms, returned_was_confirmed}
use autopatch.TxMgr.Manager.Aborts.{some_tells_to_stop, nonce_failures, canceled_has_cause}

abbrev low : ErrorText
low = codes "nonce too low"

abbrev fresh : SendState
fresh = record { mined_txs = []; nonce_too_low_count = 0; safe_abort_nonce_too_low_count = 2 }

abbrev one_mined : SendState
one_mined = record fresh { mined_txs = (7, tt) ∷ []; nonce_too_low_count = 5 }

abbrev reports : List Call
reports = mined 7 ∷ process (some low) ∷ not_mined 8 ∷ process (some low) ∷ []

run-last_report_example : is_some (lookup 7 (run low fresh reports).mined_txs) ≡ true
unfolding last_report
run-last_report_example = run-last_report low fresh 7 reports

mined_no_abort_example :
    (should_abort_immediately (run low fresh reports) ≡ false)
    × (is_waiting_for_confirmation (run low fresh reports) ≡ true)
unfolding last_report
mined_no_abort_example = mined_no_abort low fresh 7 reports refl

abbrev failures : List Call
failures =
    process (some (codes "rpc: nonce too low"))
    ∷ not_mined 3
    ∷ process none
    ∷ process (some low)
    ∷ []

abort_iff_threshold_example :
    (should_abort_immediately (run low fresh failures) ≡ true) ↔ (2 ≤ 0 + nonce_errors low failures)
unfolding none_mined
abort_iff_threshold_example = abort_iff_threshold low fresh failures refl refl (omega arith)

two_failures : nonce_errors low failures ≡ 2
unfolding nonce_errors
two_failures = refl

reorg_counts_afresh_example :
    (should_abort_immediately (run low one_mined (not_mined 7 ∷ failures)) ≡ true)
    ↔ (2 ≤ nonce_errors low failures)
unfolding none_mined
reorg_counts_afresh_example =
    reorg_counts_afresh low one_mined 7 failures
      (record { unique = (refl, tt); counted = omega arith }) refl refl refl (omega arith)

abbrev mined_at : Receipt
mined_at = record { tx_hash = 7; block_number = 100 }

abbrev early : Query
early = record { receipt = some mined_at; err = none; tip_height = some 103 }

abbrev late : Query
late = record { receipt = some mined_at; err = none; tip_height = some 109 }

abbrev no_receipt : Query
no_receipt = record { receipt = none; err = some (codes "timeout"); tip_height = none }

abbrev rounds : List (Query × Wake)
rounds = (no_receipt, Wake.tick) ∷ (early, Wake.tick) ∷ (late, Wake.done) ∷ []

wait_mined-Evidence_example : Evidence 10 mined_at rounds
unfolding wait_mined confirms
wait_mined-Evidence_example = wait_mined-Evidence 7 10 (some fresh) rounds mined_at refl

wait_mined_returns_example : (wait_mined 7 10 (some fresh) rounds).0 ≡ confirmed mined_at
unfolding confirms
wait_mined_returns_example =
    wait_mined_returns 7 10 (some fresh) ((no_receipt, Wake.tick) ∷ (early, Wake.tick) ∷ []) late
      Wake.done [] mined_at (refl, refl, (refl, refl, tt)) refl

abbrev config : Config
config = record { num_confirmations = 10; safe_abort_nonce_too_low_count = 2 }

abbrev started : Manager
started = record {
  config = config;
  send_state = fresh;
  attempts = pricing ∷ [];
  done = false;
  receipt_chan = none;
  returned = none;
}

abbrev resubmitted : List Event
resubmitted =
    priced 0 7
    ∷ ticked
    ∷ published 0 none
    ∷ priced 1 8
    ∷ published 1 (some low)
    ∷ queried 0 early
    ∷ ticked
    ∷ woken 0
    ∷ queried 0 late
    ∷ received
    ∷ []

returned_was_confirmed_example : SomeConfirms 10 mined_at resubmitted
unfolding send Manager.run Manager.step WaitMined.confirms WaitMined.report
    is_waiting_for_confirmation should_abort_immediately tx_mined
returned_was_confirmed_example =
    returned_was_confirmed low config started resubmitted mined_at refl (inr refl)

abbrev aborted : List Event
aborted =
    priced 0 7
    ∷ ticked
    ∷ published 0 (some low)
    ∷ priced 1 8
    ∷ published 1 (some low)
    ∷ saw_done
    ∷ []

canceled_has_cause_example : (some_tells_to_stop aborted ≡ true) ⊎ (2 ≤ nonce_failures low aborted)
unfolding send Manager.run Manager.step is_waiting_for_confirmation should_abort_immediately
canceled_has_cause_example = canceled_has_cause low config started aborted refl refl

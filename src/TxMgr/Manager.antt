-- ===== src/TxMgr/Manager.antt =====
-- txmgr/txmgr.go, SimpleTxManager.Send: the resubmission loop and its goroutines as one step
-- function over what happens, in the order in which it happens. An event that is not enabled (of a
-- goroutine in another phase, or of the loop after its return) changes nothing. `defer cancel()` is
-- part of the loop's return; `defer wg.Wait()` only delays it, so it is not a step.
pub mod Receipts
pub mod Aborts
use autopatch.Common.{
  ℕ, Bool, true, false, Option, none, some, List, [], ◌∷◌, ◌++◌, get_elem?, set, if◌then◌else◌,
  ◌==◌,
}
use autopatch.Common.Text.{codes, contains_text}
use autopatch.TxMgr.SendState.{
  SendState, ErrorText, process_send_error, should_abort_immediately, is_waiting_for_confirmation,
  new_send_state,
}
use autopatch.TxMgr.WaitMined.{Receipt, Query, confirms, report}

pub record Config : Type 0 where
  pub num_confirmations : ℕ
  pub safe_abort_nonce_too_low_count : ℕ

-- Where the goroutine sendTxAsync stands: in updateGasPrice, in sendTx, in a query of waitMined, in
-- the select of waitMined, or returned.
pub data Phase : Type 0 where
  pricing : Phase
  publishing : ℕ → Phase
  querying : ℕ → Phase
  sleeping : ℕ → Phase
  finished : Phase

pub data Returned : Type 0 where
  receipt : Receipt → Returned
  canceled : Returned

pub record Manager : Type 0 where
  pub config : Config
  pub send_state : SendState
  pub attempts : List Phase
  pub done : Bool  -- ctxc is done
  pub receipt_chan : Option Receipt
  pub returned : Option Returned

pub data Event : Type 0 where
  ticked : Event
  saw_done : Event
  received : Event
  parent_canceled : Event
  priced : ℕ → ℕ → Event
  price_failed : ℕ → ErrorText → Event
  published : ℕ → Option ErrorText → Event
  queried : ℕ → Query → Event
  woken : ℕ → Event
  stopped : ℕ → Event

-- `none` is the panic of NewSimpleTxManager or of NewSendState.
unfoldable pub send : Config → Option Manager
unfolding new_send_state
send c =
    if c.num_confirmations == 0
    then none
    else elim (new_send_state c.safe_abort_nonce_too_low_count) [
      | none ↦ none
      | some s ↦ some (record {
        config = c;
        send_state = s;
        attempts = pricing ∷ [];
        done = false;
        receipt_chan = none;
        returned = none;
      })
    ]

unfoldable pub is_canceled_text : ErrorText → Bool
is_canceled_text err = contains_text err (codes "context canceled")

-- The three cases of the select in the loop of Send.
unfoldable pub on_tick : Manager → Manager
on_tick m =
    if is_waiting_for_confirmation m.send_state
    then m
    else record m { attempts = m.attempts ++ pricing ∷ [] }

unfoldable pub on_done : Manager → Manager
on_done m = if m.done then record m { returned = some canceled } else m

take_receipt : Option Receipt → Manager → Manager
take_receipt none m = m
take_receipt (some r) m = record m { receipt_chan = none; returned = some (receipt r); done = true }

unfoldable pub on_receipt : Manager → Manager
unfolding take_receipt
on_receipt m = take_receipt m.receipt_chan m

in_loop : Option Returned → Manager → Manager → Manager
in_loop none m m' = m'
in_loop (some x) m m' = m

move : ℕ → Phase → Manager → Manager
move i p m = record m { attempts = set m.attempts i p }

cancel : Manager → Manager
cancel m = record m { done = true }

-- updateGasPrice fails.
unfoldable pub on_price_failed : ℕ → ErrorText → Manager → Manager
unfolding is_canceled_text move cancel
on_price_failed i err m =
    if is_canceled_text err then move i finished m else cancel (move i finished m)

-- sendTx returns.
unfoldable pub on_published : ErrorText → ℕ → ℕ → Option ErrorText → Manager → Manager
unfolding is_canceled_text move cancel process_send_error
on_published low i tx none m =
    move i (querying tx) (record m { send_state = process_send_error low m.send_state none })
on_published low i tx (some err) m =
    let m' =
      move i finished (record m { send_state = process_send_error low m.send_state (some err) }) in
    if is_canceled_text err
    then m'
    else if should_abort_immediately m'.send_state
    then cancel m'
    else m'

reported : Option SendState → SendState → SendState
reported none s = s
reported (some t) s = t

-- A receipt is offered to the channel of capacity one.
deliver : Receipt → Option Receipt → Manager → Manager
deliver r none m = record m { receipt_chan = some r }
deliver r (some x) m = m

-- One query of waitMined; if it returns a receipt, the goroutine offers it and ends.
unfoldable pub on_queried : ℕ → ℕ → Query → Manager → Manager
unfolding move reported deliver
on_queried i tx q m =
    let m' = record m {
      send_state = reported (report tx (some m.send_state) q.receipt q.err) m.send_state;
    } in
    elim (confirms m.config.num_confirmations q.receipt q.tip_height) [
      | none ↦ move i (sleeping tx) m'
      | some r ↦ deliver r m'.receipt_chan (move i finished m')
    ]

-- What the goroutine in a phase does at an event of its own.
attempt : ErrorText → Option Phase → Event → Manager → Manager
unfolding move
attempt low (some pricing) (priced i tx) m = move i (publishing tx) m
attempt low (some pricing) (price_failed i err) m = on_price_failed i err m
attempt low (some (publishing tx)) (published i err) m = on_published low i tx err m
attempt low (some (querying tx)) (queried i q) m = on_queried i tx q m
attempt low (some (sleeping tx)) (woken i) m = move i (querying tx) m
attempt low (some (sleeping tx)) (stopped i) m = if m.done then move i finished m else m
attempt low _ _ m = m

unfoldable pub step : ErrorText → Manager → Event → Manager
unfolding attempt in_loop on_tick on_done on_receipt on_price_failed on_published on_queried cancel
step low m ticked = in_loop m.returned m (on_tick m)
step low m saw_done = in_loop m.returned m (on_done m)
step low m received = in_loop m.returned m (on_receipt m)
step low m parent_canceled = cancel m
step low m (priced i tx) = attempt low (get_elem? m.attempts i) (priced i tx) m
step low m (price_failed i err) = attempt low (get_elem? m.attempts i) (price_failed i err) m
step low m (published i err) = attempt low (get_elem? m.attempts i) (published i err) m
step low m (queried i q) = attempt low (get_elem? m.attempts i) (queried i q) m
step low m (woken i) = attempt low (get_elem? m.attempts i) (woken i) m
step low m (stopped i) = attempt low (get_elem? m.attempts i) (stopped i) m

unfoldable pub run : ErrorText → Manager → List Event → Manager
run low m [] = m
run low m (e ∷ es) = run low (step low m e) es

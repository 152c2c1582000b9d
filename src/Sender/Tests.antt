-- ===== src/Sender/Tests.antt =====
-- txmgr/ethereum/transaction.go, BatchTransactionSender, on concrete runs. A request is a number and its
-- response the next one; the sending of
-- request 0 panics.
use autopatch.Common.{
  ℕ, zero, suc, ◌+◌, ◌≡◌, ◌≢◌, refl, true, false, Option, none, some, List, [], ◌∷◌, replicate,
  arith,
}
use autopatch.Common.Move.{moved, panics}
use autopatch.Sender.Batch.{
  Batch, Event, start_call, stop_call, stop_waited, submit_call, take_request, leave, respond,
  new_batch, run,
}
use autopatch.Sender.Batch.Invariant.{StaysSafe}
use autopatch.Sender.Batch.Safe.{run-StaysSafe}
use autopatch.Sender.Batch.Stops.{
  Within, worker_steps_bounded, stopping, stop_schedule, stop_completes,
}

abbrev next : ℕ → Option ℕ
next zero = none
next (suc n) = some (suc n + 1)

abbrev events : List (Event ℕ)
events =
    start_call
    ∷ submit_call (some 7)
    ∷ submit_call (some 8)
    ∷ take_request
    ∷ stop_call
    ∷ submit_call (some 9)
    ∷ respond 0
    ∷ leave
    ∷ leave
    ∷ stop_waited
    ∷ submit_call (some 10)
    ∷ []

sendable : (n : ℕ) → next (suc n) ≢ none
sendable n e = ground (arith, e)

run-StaysSafe_example : StaysSafe (run next events (new_batch 2))
run-StaysSafe_example = run-StaysSafe next 2 events (
  tt,
  (sendable 6, (sendable 7, (tt, (tt, (sendable 8, (tt, (tt, (tt, (tt, (sendable 9, tt)))))))))),
)

abbrev stopped : Batch ℕ ℕ
stopped = record {
  request_chan = some 8 ∷ none ∷ [];
  response_chan = [];
  worker_count = 2;
  waiting = 1;
  working = 8 ∷ [];
  is_started = true;
  is_stopped = true;
  is_closed = false;
}

worker_steps_bounded_example : Within stopped 2 (run next (respond 0 ∷ take_request ∷ []) stopped)
worker_steps_bounded_example =
    worker_steps_bounded next stopped (respond 0 ∷ take_request ∷ []) (tt, (tt, tt))

stop_completes_example :
    run next (stop_schedule stopped) stopped ≡ moved (stopping stopped [] 0 true)
stop_completes_example = stop_completes next stopped refl refl

-- A nil request on a full channel, and a request whose sending panics.
abbrev full : Batch ℕ ℕ
full = record stopped { request_chan = replicate 100 (some 8); is_stopped = false }

nil_dropped : run next (submit_call none ∷ []) full ≡ panics
unfolding run
nil_dropped = refl

nil_package :
    run next (submit_call (some 0) ∷ start_call ∷ take_request ∷ []) (new_batch 1) ≡ panics
unfolding run new_batch
nil_package = refl

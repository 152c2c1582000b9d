-- ===== src/Sender/Batch/Safe.antt =====
-- txmgr/ethereum/transaction.go, BatchTransactionSender: what every run keeps.
use autopatch.Common.{ℕ, refl, All, Option, List, [], ◌∷◌, get_elem?}
use autopatch.Common.Move.{Move, moved, blocked, panics}
use autopatch.Sender.Batch.{
  Batch, new_batch, Event, start_call, stop_call, stop_waited, submit_call, take_request, leave,
  respond, quit, read_response, step, run, run_from,
}
use autopatch.Sender.Batch.Requests.{IsSendable, IsProper, StaysGood, step-StaysGood}
use autopatch.Sender.Batch.Invariant.{
  IsSafe, StaysSafe, new-IsSafe, start-StaysSafe, stop-StaysSafe, submit-StaysSafe, close-StaysSafe,
  take-StaysSafe, leave-StaysSafe, read-StaysSafe, quit-StaysSafe, answer-StaysSafe,
}

module _ {Req Resp : Type 0} (send : Req → Option Resp) where
  step-StaysSafe :
      (e : Event Req) (b : Batch Req Resp)
      → IsProper send e
      → All (IsSendable send) b.request_chan
      → IsSafe b
      → StaysSafe (step send e b)
  unfolding step
  step-StaysSafe start_call b p g h = start-StaysSafe b h
  step-StaysSafe stop_call b p g h = stop-StaysSafe b h
  step-StaysSafe stop_waited b p g h = close-StaysSafe b h
  step-StaysSafe (submit_call req) b p g h = submit-StaysSafe send req b p h
  step-StaysSafe take_request b p g h = take-StaysSafe send b b.request_chan refl g h
  step-StaysSafe leave b p g h = leave-StaysSafe b h
  step-StaysSafe (respond i) b p g h = answer-StaysSafe b i (get_elem? b.working i) refl h
  step-StaysSafe (quit i) b p g h = quit-StaysSafe b i (get_elem? b.working i) refl h
  step-StaysSafe read_response b p g h = read-StaysSafe b b.response_chan refl h

  then-StaysSafe :
      (es : List (Event Req)) (m : Move (Batch Req Resp))
      → All (IsProper send) es
      → StaysGood send m
      → StaysSafe m
      → StaysSafe (run_from send es m)
  unfolding run_from
  then-StaysSafe [] (moved b) ps g h = h
  then-StaysSafe (e ∷ es) (moved b) ps g h =
      then-StaysSafe es (step send e b) ps.1 (step-StaysGood send e b ps.0 g)
        (step-StaysSafe e b ps.0 g h)
  then-StaysSafe [] blocked ps g h = tt
  then-StaysSafe (e ∷ es) blocked ps g h = tt
  then-StaysSafe es panics ps g h = absurd h

  -- If no request that is submitted is nil and the sending of none panics, no run of a new sender panics,
  -- whatever is called and in whatever order the goroutines run, and every state that it reaches is safe:
  -- the channels are within their buffers, at most as many workers run as were asked for, and the
  -- channels are closed only after the stop, when no worker is left.
  pub run-StaysSafe :
      (workers : ℕ) (es : List (Event Req))
      → All (IsProper send) es
      → StaysSafe (run send es (new_batch workers))
  unfolding run new_batch
  run-StaysSafe workers es ps =
      then-StaysSafe es (moved (new_batch workers)) ps tt (new-IsSafe workers)

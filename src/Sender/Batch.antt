-- ===== src/Sender/Batch.antt =====
-- txmgr/ethereum/transaction.go, BatchTransactionSender. A step is what one goroutine does between two
-- points at which it may wait: the mutex makes Start, SubmitRequest and the first part of Stop one step
-- each. A request may be nil. Receiving a request and sending its transaction is one step, since the sending
-- does not touch what the goroutines share: `send` gives the response that the worker makes of
-- SendTransactionFromPackage, its error included, or none where that call panics, as it does for a nil
-- package.
pub mod Closed
pub mod Requests
pub mod Invariant
pub mod Safe
pub mod Stops
use autopatch.Common.Move.{Move, moved, blocked, panics}
use autopatch.Common.{
  ℕ, zero, suc, ◌+◌, ◌-◌, Bool, true, false, ◌&&◌, ◌||◌, not, Option, none, some, List, [], ◌∷◌,
  ◌++◌, length, get_elem?, ltb, leb, ◌==◌, if◌then◌else◌,
}

pub record Batch (Req Resp : Type 0) : Type 0 where
  pub request_chan : List (Option Req)
  pub response_chan : List Resp
  pub worker_count : ℕ
  pub waiting : ℕ  -- workers at the outer select
  pub working : List Resp  -- the responses of the other workers
  pub is_started : Bool
  pub is_stopped : Bool  -- stopChan is closed in the same critical section
  pub is_closed : Bool  -- requestChan and responseChan

-- The buffer size of both channels.
abbrev pub capacity : ℕ
capacity = 100

unfoldable pub new_batch : {Req Resp : Type 0} → ℕ → Batch Req Resp
new_batch workers = record {
  request_chan = [];
  response_chan = [];
  worker_count = workers;
  waiting = 0;
  working = [];
  is_started = false;
  is_stopped = false;
  is_closed = false;
}

pub data Event (Req : Type 0) : Type 0 where
  start_call stop_call stop_waited : Event Req
  submit_call : Option Req → Event Req
  take_request leave : Event Req  -- a waiting worker receives a request and sends it, or sees stopChan closed
  respond quit : ℕ → Event Req  -- the worker with the response at this place answers, or sees stopChan
  read_response : Event Req  -- by the client

abbrev pub remove_at : {A : Type 0} → List A → ℕ → List A
remove_at [] i = []
remove_at (x ∷ xs) zero = xs
remove_at (x ∷ xs) (suc i) = x ∷ remove_at xs i

module _ {Req Resp : Type 0} where
  unfoldable pub start : Batch Req Resp → Move (Batch Req Resp)
  start b =
      if b.is_started || b.is_stopped
      then moved b
      else moved (record b { is_started = true; waiting = b.waiting + b.worker_count })

  -- On a full channel the warning reads the request's ID, which panics for a nil request.
  abbrev pub drop_request : Option Req → Batch Req Resp → Move (Batch Req Resp)
  drop_request none b = panics
  drop_request (some req) b = moved b

  unfoldable pub submit : Option Req → Batch Req Resp → Move (Batch Req Resp)
  submit req b =
      if b.is_stopped
      then moved b
      else if b.is_closed
      then panics
      else if ltb (length b.request_chan) capacity
      then moved (record b { request_chan = b.request_chan ++ req ∷ [] })
      else drop_request req b

  -- The end of Stop, when the wait group is at zero.
  unfoldable pub close_channels : Batch Req Resp → Move (Batch Req Resp)
  close_channels b =
      if b.is_stopped && not b.is_closed && b.waiting + length b.working == 0
      then moved (record b { is_closed = true })
      else blocked

  abbrev pub sent : Option Resp → Batch Req Resp → Move (Batch Req Resp)
  sent none b = panics
  sent (some response) b = moved (record b { working = response ∷ b.working })

  -- A worker that receives nil, from the client or from the closed channel, returns.
  unfoldable pub take :
      (Req → Option Resp) → Batch Req Resp → List (Option Req) → Move (Batch Req Resp)
  take send b [] =
      if b.is_closed && not (b.waiting == 0)
      then moved (record b { waiting = b.waiting - 1 })
      else blocked
  take send b (none ∷ rest) =
      if b.waiting == 0
      then blocked
      else moved (record b { request_chan = rest; waiting = b.waiting - 1 })
  take send b (some req ∷ rest) =
      if b.waiting == 0
      then blocked
      else sent (send req) (record b { request_chan = rest; waiting = b.waiting - 1 })

  unfoldable pub leave_worker : Batch Req Resp → Move (Batch Req Resp)
  leave_worker b =
      if b.is_stopped && not (b.waiting == 0)
      then moved (record b { waiting = b.waiting - 1 })
      else blocked

  -- The inner select: the response is sent if there is room, and dropped if there is none and stopChan is
  -- open.
  unfoldable pub answer : Batch Req Resp → ℕ → Option Resp → Move (Batch Req Resp)
  answer b i none = blocked
  answer b i (some response) =
      let back = record b { waiting = b.waiting + 1; working = remove_at b.working i } in
      if b.is_closed
      then panics
      else if ltb (length b.response_chan) capacity
      then moved (record back { response_chan = b.response_chan ++ response ∷ [] })
      else if b.is_stopped
      then blocked
      else moved back

  unfoldable pub quit_worker : Batch Req Resp → ℕ → Option Resp → Move (Batch Req Resp)
  quit_worker b i none = blocked
  quit_worker b i (some response) =
      if b.is_stopped then moved (record b { working = remove_at b.working i }) else blocked

  unfoldable pub read : Batch Req Resp → List Resp → Move (Batch Req Resp)
  read b [] = blocked
  read b (r ∷ rest) = moved (record b { response_chan = rest })

  unfoldable pub step : (Req → Option Resp) → Event Req → Batch Req Resp → Move (Batch Req Resp)
  unfolding start submit close_channels take leave_worker answer quit_worker read
  step send start_call b = start b
  step send stop_call b = moved (record b { is_stopped = true })
  step send stop_waited b = close_channels b
  step send (submit_call req) b = submit req b
  step send take_request b = take send b b.request_chan
  step send leave b = leave_worker b
  step send (respond i) b = answer b i (get_elem? b.working i)
  step send (quit i) b = quit_worker b i (get_elem? b.working i)
  step send read_response b = read b b.response_chan

  -- A run ends early where a step is blocked or panics.
  unfoldable pub run_from :
      (Req → Option Resp) → List (Event Req) → Move (Batch Req Resp) → Move (Batch Req Resp)
  unfolding step
  run_from send [] m = m
  run_from send (e ∷ es) (moved b) = run_from send es (step send e b)
  run_from send (e ∷ es) blocked = blocked
  run_from send (e ∷ es) panics = panics

  unfoldable pub run :
      (Req → Option Resp) → List (Event Req) → Batch Req Resp → Move (Batch Req Resp)
  unfolding run_from
  run send es b = run_from send es (moved b)

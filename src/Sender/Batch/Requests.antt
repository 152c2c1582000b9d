-- ===== src/Sender/Batch/Requests.antt =====
-- txmgr/ethereum/transaction.go, BatchTransactionSender: the requests that wait in the channel.
use autopatch.Common.{
  ℕ, ◌+◌, ◌≢◌, All, Bool, true, false, not, ◌&&◌, ◌||◌, Option, none, some, List, [], ◌∷◌, length,
  get_elem?, ltb, ◌==◌, if◌then◌else◌,
}
use autopatch.Common.Members.{All-append}
use autopatch.Common.Move.{Move, moved, blocked, panics}
use autopatch.Sender.Batch.{
  drop_request, sent, Batch, capacity, Event, start_call, stop_call, stop_waited, submit_call,
  take_request, leave, respond, quit, read_response, start, submit, close_channels, take,
  leave_worker, answer, quit_worker, read, step,
}

-- A request that is not nil and whose sending does not panic.
abbrev pub IsSendable : {Req Resp : Type 0} → (Req → Option Resp) → Option Req → Type 0
IsSendable send none = ⊥
IsSendable send (some req) = send req ≢ none

-- A call that submits a request submits one of these.
abbrev pub IsProper : {Req Resp : Type 0} → (Req → Option Resp) → Event Req → Type 0
IsProper send (submit_call req) = IsSendable send req
IsProper send _ = Unit

module _ {Req Resp : Type 0} where
  -- The requests that wait in the channel stay good.
  abbrev pub StaysGood : (Req → Option Resp) → Move (Batch Req Resp) → Type 0
  StaysGood send (moved b) = All (IsSendable send) b.request_chan
  StaysGood send blocked = Unit
  StaysGood send panics = Unit

  if-StaysGood :
      (send : Req → Option Resp) (c : Bool) (x y : Move (Batch Req Resp))
      → StaysGood send x
      → StaysGood send y
      → StaysGood send (if c then x else y)
  if-StaysGood send true x y h g = h
  if-StaysGood send false x y h g = g

  module _ (send : Req → Option Resp) where
    drop-StaysGood :
        (req : Option Req) (b : Batch Req Resp)
        → All (IsSendable send) b.request_chan
        → StaysGood send (drop_request req b)
    drop-StaysGood none b g = tt
    drop-StaysGood (some req) b g = g

    submit-StaysGood :
        (req : Option Req) (b : Batch Req Resp)
        → IsSendable send req
        → All (IsSendable send) b.request_chan
        → StaysGood send (submit req b)
    unfolding submit
    submit-StaysGood req b p g = if-StaysGood send b.is_stopped _ _ g (
        if-StaysGood send b.is_closed _ _ tt (
          if-StaysGood send (ltb (length b.request_chan) capacity) _ _
            (All-append (IsSendable send) b.request_chan (req ∷ []) g (p, tt))
            (drop-StaysGood req b g)))

    sent-StaysGood :
        (o : Option Resp) (b : Batch Req Resp)
        → All (IsSendable send) b.request_chan
        → StaysGood send (sent o b)
    sent-StaysGood none b g = tt
    sent-StaysGood (some response) b g = g

    take-StaysGood :
        (b : Batch Req Resp) (reqs : List (Option Req))
        → All (IsSendable send) b.request_chan
        → All (IsSendable send) reqs
        → StaysGood send (take send b reqs)
    unfolding take
    take-StaysGood b [] g h = if-StaysGood send (b.is_closed && not (b.waiting == 0)) _ _ g tt
    take-StaysGood b (none ∷ rest) g h = absurd h.0
    take-StaysGood b (some req ∷ rest) g h =
        if-StaysGood send (b.waiting == 0) _ _ tt (sent-StaysGood (send req) _ h.1)

    answer-StaysGood :
        (b : Batch Req Resp) (i : ℕ) (o : Option Resp)
        → All (IsSendable send) b.request_chan
        → StaysGood send (answer b i o)
    unfolding answer
    answer-StaysGood b i none g = tt
    answer-StaysGood b i (some response) g = if-StaysGood send b.is_closed _ _ tt (
        if-StaysGood send (ltb (length b.response_chan) capacity) _ _ g
          (if-StaysGood send b.is_stopped _ _ tt g))

    quit-StaysGood :
        (b : Batch Req Resp) (i : ℕ) (o : Option Resp)
        → All (IsSendable send) b.request_chan
        → StaysGood send (quit_worker b i o)
    unfolding quit_worker
    quit-StaysGood b i none g = tt
    quit-StaysGood b i (some response) g = if-StaysGood send b.is_stopped _ _ g tt

    read-StaysGood :
        (b : Batch Req Resp) (rs : List Resp)
        → All (IsSendable send) b.request_chan
        → StaysGood send (read b rs)
    unfolding read
    read-StaysGood b [] g = tt
    read-StaysGood b (r ∷ rs) g = g

    pub step-StaysGood :
        (e : Event Req) (b : Batch Req Resp)
        → IsProper send e
        → All (IsSendable send) b.request_chan
        → StaysGood send (step send e b)
    unfolding step start close_channels leave_worker
    step-StaysGood start_call b p g = if-StaysGood send (b.is_started || b.is_stopped) _ _ g g
    step-StaysGood stop_call b p g = g
    step-StaysGood stop_waited b p g =
        if-StaysGood send (b.is_stopped && not b.is_closed && b.waiting + length b.working == 0) _ _
          g tt
    step-StaysGood (submit_call req) b p g = submit-StaysGood req b p g
    step-StaysGood take_request b p g = take-StaysGood b b.request_chan g g
    step-StaysGood leave b p g = if-StaysGood send (b.is_stopped && not (b.waiting == 0)) _ _ g tt
    step-StaysGood (respond i) b p g = answer-StaysGood b i (get_elem? b.working i) g
    step-StaysGood (quit i) b p g = quit-StaysGood b i (get_elem? b.working i) g
    step-StaysGood read_response b p g = read-StaysGood b b.response_chan g

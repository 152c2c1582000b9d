-- ===== src/Sender/Batch/Stops.antt =====
-- txmgr/ethereum/transaction.go, BatchTransactionSender.Stop: its wait for the workers ends.
use autopatch.Common.{
  ℕ, zero, suc, ◌+◌, ◌-◌, ◌*◌, ◌≤◌, ◌<◌, ◌≡◌, refl, sym, subst, ap, ◌∙◌, Bool, true, false, not,
  ◌&&◌, Option, none, some, List, [], ◌∷◌, ◌++◌, length, replicate, get_elem?, ltb, ◌==◌,
  if◌then◌else◌, arith, All,
}
use autopatch.Common.Move.{Move, moved, blocked, panics}
use autopatch.Sender.Batch.Closed.{length-remove_at}
use autopatch.Sender.Batch.{
  sent, Batch, capacity, Event, start_call, stop_call, stop_waited, submit_call, take_request,
  leave, respond, quit, read_response, close_channels, take, leave_worker, answer, quit_worker,
  step, run_from, run,
}

-- What a worker does by itself.
abbrev pub IsWorkerEvent : {Req : Type 0} → Event Req → Type 0
IsWorkerEvent take_request = Unit
IsWorkerEvent leave = Unit
IsWorkerEvent (respond i) = Unit
IsWorkerEvent (quit i) = Unit
IsWorkerEvent _ = ⊥

-- Two steps for each request that waits and each response that a worker has, and one for each waiting
-- worker.
abbrev pub work_left : {Req Resp : Type 0} → Batch Req Resp → ℕ
work_left b = 2 * (length b.request_chan + length b.working) + b.waiting

-- If the step is made, less work is left.
abbrev pub Shrinks : {Req Resp : Type 0} → Batch Req Resp → Move (Batch Req Resp) → Type 0
Shrinks b (moved c) = work_left c < work_left b
Shrinks b blocked = Unit
Shrinks b panics = Unit

waiting-pos : (s : Bool) (n : ℕ) → (s && not (n == 0)) ≡ true → 0 < n
waiting-pos true n e = ground (arith, e)
waiting-pos false n e = absurd (ground (arith, e))

module _ {Req Resp : Type 0} where
  if-Shrinks :
      (b : Batch Req Resp) (c : Bool) (x y : Move (Batch Req Resp))
      → (c ≡ true → Shrinks b x)
      → (c ≡ false → Shrinks b y)
      → Shrinks b (if c then x else y)
  if-Shrinks b true x y h g = h refl
  if-Shrinks b false x y h g = g refl

  sent-Shrinks :
      (b : Batch Req Resp) (rest : List (Option Req)) (o : Option Resp)
      → suc (length rest) ≡ length b.request_chan
      → 0 < b.waiting
      → Shrinks b (sent o (record b { request_chan = rest; waiting = b.waiting - 1 }))
  sent-Shrinks b rest none size p = tt
  sent-Shrinks b rest (some response) size p = omega (arith, size, p)

  take-Shrinks :
      (send : Req → Option Resp) (b : Batch Req Resp) (reqs : List (Option Req))
      → b.request_chan ≡ reqs
      → Shrinks b (take send b reqs)
  unfolding take
  take-Shrinks send b [] e =
      if-Shrinks b (b.is_closed && not (b.waiting == 0)) _ _
        (λ h. let p : 0 < b.waiting = waiting-pos b.is_closed b.waiting h in omega (arith, p))
        (λ h. tt)
  take-Shrinks send b (none ∷ rest) e =
      if-Shrinks b (b.waiting == 0) _ _ (λ none_waits. tt)
        (λ waits.
          let p : 0 < b.waiting = ground (arith, waits) in
          let size = ap length e in omega (arith, p, size))
  take-Shrinks send b (some req ∷ rest) e =
      if-Shrinks b (b.waiting == 0) _ _ (λ none_waits. tt)
        (λ waits. sent-Shrinks b rest (send req) (sym (ap length e)) (ground (arith, waits)))

  leave-Shrinks : (b : Batch Req Resp) → Shrinks b (leave_worker b)
  unfolding leave_worker
  leave-Shrinks b =
      if-Shrinks b (b.is_stopped && not (b.waiting == 0)) _ _
        (λ e. let p : 0 < b.waiting = waiting-pos b.is_stopped b.waiting e in omega (arith, p))
        (λ e. tt)

  quit-Shrinks :
      (b : Batch Req Resp) (i : ℕ) (o : Option Resp)
      → get_elem? b.working i ≡ o
      → Shrinks b (quit_worker b i o)
  unfolding quit_worker
  quit-Shrinks b i none e = tt
  quit-Shrinks b i (some response) e =
      let size = length-remove_at b.working i response e in
      if-Shrinks b b.is_stopped _ _ (λ stopped. omega (arith, size)) (λ running. tt)

  answer-Shrinks :
      (b : Batch Req Resp) (i : ℕ) (o : Option Resp)
      → get_elem? b.working i ≡ o
      → Shrinks b (answer b i o)
  unfolding answer
  answer-Shrinks b i none e = tt
  answer-Shrinks b i (some response) e =
      let size = length-remove_at b.working i response e in
      if-Shrinks b b.is_closed _ _ (λ closed. tt)
        (λ c.
          if-Shrinks b (ltb (length b.response_chan) capacity) _ _ (λ room. omega (arith, size))
            (λ full. if-Shrinks b b.is_stopped _ _ (λ s. tt) (λ r. omega (arith, size))))

  worker-Shrinks :
      (send : Req → Option Resp) (e : Event Req) (b : Batch Req Resp)
      → IsWorkerEvent e
      → Shrinks b (step send e b)
  unfolding step
  worker-Shrinks send take_request b w = take-Shrinks send b b.request_chan refl
  worker-Shrinks send leave b w = leave-Shrinks b
  worker-Shrinks send (respond i) b w = answer-Shrinks b i (get_elem? b.working i) refl
  worker-Shrinks send (quit i) b w = quit-Shrinks b i (get_elem? b.working i) refl
  worker-Shrinks send start_call b w = absurd w
  worker-Shrinks send stop_call b w = absurd w
  worker-Shrinks send stop_waited b w = absurd w
  worker-Shrinks send (submit_call req) b w = absurd w
  worker-Shrinks send read_response b w = absurd w

  -- A run from b of n steps, if it comes to an end.
  abbrev pub Within : Batch Req Resp → ℕ → Move (Batch Req Resp) → Type 0
  Within b n (moved c) = n + work_left c ≤ work_left b
  Within b n blocked = Unit
  Within b n panics = Unit

  carry :
      (b c : Batch Req Resp) (n : ℕ) (m : Move (Batch Req Resp))
      → n + work_left c ≤ work_left b
      → Shrinks c m
      → Within b (suc n) m
  carry b c n (moved d) h s = omega (arith, h, s)
  carry b c n blocked h s = tt
  carry b c n panics h s = tt

  run-Within :
      (send : Req → Option Resp) (es : List (Event Req)) (b : Batch Req Resp) (n : ℕ)
      (m : Move (Batch Req Resp))
      → All IsWorkerEvent es
      → Within b n m
      → Within b (n + length es) (run_from send es m)
  unfolding run_from
  run-Within send [] b n m w h = subst (λ (k : ℕ). Within b k m) (omega arith) h
  run-Within send (e ∷ es) b n (moved c) w h =
      subst (λ (k : ℕ). Within b k (run_from send es (step send e c))) (omega arith)
        (run-Within send es b (suc n) (step send e c) w.1
          (carry b c n (step send e c) h (worker-Shrinks send e c w.0)))
  run-Within send (e ∷ es) b n blocked w h = tt
  run-Within send (e ∷ es) b n panics w h = tt

  -- A stopped sender with these workers, whose channels are open or closed.
  abbrev pub stopping : Batch Req Resp → List Resp → ℕ → Bool → Batch Req Resp
  stopping b reqs n closed = record b {
    working = reqs;
    waiting = n;
    is_stopped = true;
    is_closed = closed;
  }

  drain_working :
      (send : Req → Option Resp) (b : Batch Req Resp) (reqs : List Resp) (n : ℕ)
      (es : List (Event Req))
      → run_from send (replicate (length reqs) (quit 0) ++ es) (moved (stopping b reqs n false))
        ≡ run_from send es (moved (stopping b [] n false))
  unfolding run_from step quit_worker
  drain_working send b [] n es = refl
  drain_working send b (r ∷ reqs) n es = drain_working send b reqs n es

  leave_one :
      (b : Batch Req Resp) (n : ℕ)
      → leave_worker (stopping b [] (suc n) false) ≡ moved (stopping b [] n false)
  unfolding leave_worker
  leave_one b n =
      let waits : (suc n == 0) ≡ false = ground arith in
      let one : suc n - 1 ≡ n = omega arith in rw (waits, one) refl

  drain_waiting :
      (send : Req → Option Resp) (b : Batch Req Resp) (n : ℕ) (es : List (Event Req))
      → run_from send (replicate n leave ++ es) (moved (stopping b [] n false))
        ≡ run_from send es (moved (stopping b [] 0 false))
  unfolding run_from step
  drain_waiting send b zero es = refl
  drain_waiting send b (suc n) es =
      ap (run_from send (replicate n leave ++ es)) (leave_one b n) ∙ drain_waiting send b n es

  as_stopping :
      (b : Batch Req Resp)
      → b.is_stopped ≡ true
      → b.is_closed ≡ false
      → b ≡ stopping b b.working b.waiting false
  as_stopping b s c = rw (s, c) refl

  -- Every worker sees that the sender is stopped, and the wait is over.
  abbrev pub stop_schedule : Batch Req Resp → List (Event Req)
  stop_schedule b =
      replicate (length b.working) (quit 0) ++ (replicate b.waiting leave ++ stop_waited ∷ [])

  -- A stopped sender whose channels are not closed yet can always finish its stop, with whatever there is
  -- in the channels: without any call of a client the workers leave, and the channels are closed.
  pub stop_completes :
      (send : Req → Option Resp) (b : Batch Req Resp)
      → b.is_stopped ≡ true
      → b.is_closed ≡ false
      → run send (stop_schedule b) b ≡ moved (stopping b [] 0 true)
  unfolding run run_from step close_channels
  stop_completes send b s c =
      ap (λ (d : Batch Req Resp). run_from send (stop_schedule b) (moved d)) (as_stopping b s c)
      ∙ drain_working send b b.working b.waiting (replicate b.waiting leave ++ stop_waited ∷ [])
      ∙ drain_waiting send b b.waiting (stop_waited ∷ [])

  -- The workers of a stopped sender can make at most two steps for each request that waits and for each
  -- response that a worker has, and one for each waiting worker, in whatever order they run.
  pub worker_steps_bounded :
      (send : Req → Option Resp) (b : Batch Req Resp) (es : List (Event Req))
      → All IsWorkerEvent es
      → Within b (length es) (run send es b)
  unfolding run
  worker_steps_bounded send b es w =
      subst (λ (k : ℕ). Within b k (run_from send es (moved b))) (omega arith)
        (run-Within send es b 0 (moved b) w (omega arith))

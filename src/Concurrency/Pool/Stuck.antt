-- ===== src/Concurrency/Pool/Stuck.antt =====
-- tracing/utils/concurrency.go, WorkerPool.Stop: the wait for a worker whose result nobody reads.
use autopatch.Common.{
  ℕ, ◌+◌, ◌≤◌, ◌<◌, ◌≡◌, refl, Bool, true, false, not, ◌&&◌, Option, none, some, List, [], ◌∷◌,
  length, get_elem?, ltb, ◌==◌, if◌then◌else◌, arith, All,
}
use autopatch.Common.Move.{Move, moved, blocked, panics}
use autopatch.Concurrency.Pool.{
  WorkerPool, PoolEvent, start_pool, cancel_pool, wait_over, submit_task, take_task, leave_pool,
  read_result, finish_task, start_workers, cancel_workers, close_pool, submit_to, take_from,
  leave_select, finish, pool_step, pool_run,
}

-- A worker runs a task, and the results fill their buffer.
pub record IsFull {Task Result : Type 0} (p : WorkerPool Task Result) : Type 0 where
  pub busy : 0 < length p.working
  pub no_room : p.buffer_size ≤ length p.result_chan
  pub still_open : p.is_closed ≡ false

abbrev pub IsRead : {Task : Type 0} → PoolEvent Task → Type 0
IsRead read_result = Unit
IsRead _ = ⊥

module _ {Task Result : Type 0} where
  abbrev pub StaysFull : Move (WorkerPool Task Result) → Type 0
  StaysFull (moved p) = IsFull p
  StaysFull blocked = Unit
  StaysFull panics = Unit

  if-StaysFull :
      (c : Bool) (x y : Move (WorkerPool Task Result))
      → (c ≡ true → StaysFull x)
      → (c ≡ false → StaysFull y)
      → StaysFull (if c then x else y)
  if-StaysFull true x y h g = h refl
  if-StaysFull false x y h g = g refl

  start-StaysFull : (p : WorkerPool Task Result) → IsFull p → StaysFull (start_workers p)
  unfolding start_workers
  start-StaysFull p h =
      if-StaysFull p.is_started _ _ (λ e. h)
        (λ e. record { busy = h.busy; no_room = h.no_room; still_open = h.still_open })

  close-StaysFull : (p : WorkerPool Task Result) → IsFull p → StaysFull (close_pool p)
  unfolding close_pool
  close-StaysFull p h =
      if-StaysFull (p.is_canceled && p.waiting + length p.working == 0) _ _
        (λ e. absurd (ground (arith, e, h.busy))) (λ e. tt)

  submit-StaysFull :
      (task : Task) (p : WorkerPool Task Result) → IsFull p → StaysFull (submit_to task p)
  unfolding submit_to
  submit-StaysFull task p h =
      if-StaysFull p.is_closed _ _ (λ e. tt)
        (λ e.
          if-StaysFull (ltb (length p.task_queue) p.buffer_size) _ _
            (λ room. record { busy = h.busy; no_room = h.no_room; still_open = h.still_open })
            (λ full. tt))

  take-StaysFull :
      (p : WorkerPool Task Result) (tasks : List Task) → IsFull p → StaysFull (take_from p tasks)
  unfolding take_from
  take-StaysFull p [] h =
      if-StaysFull (p.is_closed && not (p.waiting == 0)) panics blocked (λ e. tt) (λ e. tt)
  take-StaysFull p (task ∷ rest) h =
      if-StaysFull (p.waiting == 0) _ _ (λ e. tt)
        (λ e. record { busy = omega arith; no_room = h.no_room; still_open = h.still_open })

  leave-StaysFull : (p : WorkerPool Task Result) → IsFull p → StaysFull (leave_select p)
  unfolding leave_select
  leave-StaysFull p h =
      if-StaysFull (p.is_canceled && not (p.waiting == 0)) _ _
        (λ e. record { busy = h.busy; no_room = h.no_room; still_open = h.still_open }) (λ e. tt)

  finish-StaysFull :
      (result : Task → Result) (p : WorkerPool Task Result) (i : ℕ) (o : Option Task)
      → IsFull p
      → StaysFull (finish result p i o)
  unfolding finish
  finish-StaysFull result p i none h = tt
  finish-StaysFull result p i (some task) h =
      if-StaysFull p.is_closed _ _ (λ e. tt)
        (λ e.
          if-StaysFull (ltb (length p.result_chan) p.buffer_size) _ _
            (λ room. absurd (ground (arith, room, h.no_room))) (λ full. tt))

  step-StaysFull :
      (result : Task → Result) (e : PoolEvent Task) (p : WorkerPool Task Result)
      → ¬ IsRead e
      → IsFull p
      → StaysFull (pool_step result e p)
  unfolding pool_step cancel_workers
  step-StaysFull result start_pool p n h = start-StaysFull p h
  step-StaysFull result cancel_pool p n h = record {
    busy = h.busy;
    no_room = h.no_room;
    still_open = h.still_open;
  }
  step-StaysFull result wait_over p n h = close-StaysFull p h
  step-StaysFull result (submit_task task) p n h = submit-StaysFull task p h
  step-StaysFull result take_task p n h = take-StaysFull p p.task_queue h
  step-StaysFull result leave_pool p n h = leave-StaysFull p h
  step-StaysFull result read_result p n h = absurd (n tt)
  step-StaysFull result (finish_task i) p n h =
      finish-StaysFull result p i (get_elem? p.working i) h

  run-StaysFull :
      (result : Task → Result) (es : List (PoolEvent Task)) (m : Move (WorkerPool Task Result))
      → All (λ e. ¬ IsRead e) es
      → StaysFull m
      → StaysFull (pool_run result es m)
  unfolding pool_run
  run-StaysFull result [] m n h = h
  run-StaysFull result (e ∷ es) (moved p) n h =
      run-StaysFull result es (pool_step result e p) n.1 (step-StaysFull result e p n.0 h)
  run-StaysFull result (e ∷ es) blocked n h = tt
  run-StaysFull result (e ∷ es) panics n h = tt

  -- Once the results fill their buffer while a worker runs a task, a stop never gets past its wait as long
  -- as nobody reads a result, whatever else is called: every state that is reached still has the running
  -- task and open channels.
  pub stop_waits_for_reader :
      (result : Task → Result) (p : WorkerPool Task Result) (es : List (PoolEvent Task))
      → IsFull p
      → All (λ e. ¬ IsRead e) es
      → StaysFull (pool_run result es (moved p))
  stop_waits_for_reader result p es h n = run-StaysFull result es (moved p) n h

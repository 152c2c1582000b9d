-- ===== src/Concurrency/Pool.antt =====
-- tracing/utils/concurrency.go, WorkerPool. A step is what one goroutine does between two points at which
-- it may wait. A task's result, made by client code, is the parameter `result`. The buffers hold at least
-- one entry.
pub mod Counted
pub mod Stuck
use autopatch.Common.{
  ℕ, zero, suc, ◌+◌, ◌-◌, Bool, true, false, ◌&&◌, not, Option, none, some, List, [], ◌∷◌, ◌++◌,
  length, get_elem?, ltb, ◌==◌, if◌then◌else◌,
}
use autopatch.Common.Move.{Move, moved, blocked, panics}

pub record WorkerPool (Task Result : Type 0) : Type 0 where
  pub task_queue : List Task
  pub result_chan : List Result
  pub buffer_size : ℕ
  pub workers : ℕ
  pub waiting : ℕ  -- workers at the select
  pub working : List Task  -- the tasks of the other workers
  pub is_started : Bool
  pub is_canceled : Bool
  pub is_closed : Bool

unfoldable pub new_worker_pool : {Task Result : Type 0} → ℕ → ℕ → WorkerPool Task Result
new_worker_pool workers buffer_size = record {
  task_queue = [];
  result_chan = [];
  buffer_size = buffer_size;
  workers = workers;
  waiting = 0;
  working = [];
  is_started = false;
  is_canceled = false;
  is_closed = false;
}

pub data PoolEvent (Task : Type 0) : Type 0 where
  start_pool cancel_pool wait_over : PoolEvent Task
  submit_task : Task → PoolEvent Task
  take_task leave_pool read_result : PoolEvent Task
  finish_task : ℕ → PoolEvent Task  -- the worker with the task at this place sends its result

abbrev pub without : {A : Type 0} → List A → ℕ → List A
without [] i = []
without (x ∷ xs) zero = xs
without (x ∷ xs) (suc i) = x ∷ without xs i

module _ {Task Result : Type 0} where
  unfoldable pub start_workers : WorkerPool Task Result → Move (WorkerPool Task Result)
  start_workers p =
      if p.is_started
      then moved p
      else moved (record p { is_started = true; waiting = p.waiting + p.workers })

  -- Stop up to its wait for the workers, and after it.
  unfoldable pub cancel_workers : WorkerPool Task Result → Move (WorkerPool Task Result)
  cancel_workers p = moved (record p { is_canceled = true })

  unfoldable pub close_pool : WorkerPool Task Result → Move (WorkerPool Task Result)
  close_pool p =
      if p.is_canceled && p.waiting + length p.working == 0
      then (if p.is_closed then panics else moved (record p { is_closed = true }))
      else blocked

  unfoldable pub submit_to : Task → WorkerPool Task Result → Move (WorkerPool Task Result)
  submit_to task p =
      if p.is_closed
      then panics
      else if ltb (length p.task_queue) p.buffer_size
      then moved (record p { task_queue = p.task_queue ++ task ∷ [] })
      else blocked

  -- A closed queue that is empty gives a nil function, whose call panics.
  unfoldable pub take_from : WorkerPool Task Result → List Task → Move (WorkerPool Task Result)
  take_from p [] = if p.is_closed && not (p.waiting == 0) then panics else blocked
  take_from p (task ∷ rest) =
      if p.waiting == 0
      then blocked
      else moved
          (record p { task_queue = rest; waiting = p.waiting - 1; working = task ∷ p.working })

  unfoldable pub leave_select : WorkerPool Task Result → Move (WorkerPool Task Result)
  leave_select p =
      if p.is_canceled && not (p.waiting == 0)
      then moved (record p { waiting = p.waiting - 1 })
      else blocked

  unfoldable pub finish :
      (Task → Result) → WorkerPool Task Result → ℕ → Option Task → Move (WorkerPool Task Result)
  finish result p i none = blocked
  finish result p i (some task) =
      if p.is_closed
      then panics
      else if ltb (length p.result_chan) p.buffer_size
      then moved (record p {
        result_chan = p.result_chan ++ result task ∷ [];
        waiting = p.waiting + 1;
        working = without p.working i;
      })
      else blocked

  unfoldable pub read_from : WorkerPool Task Result → List Result → Move (WorkerPool Task Result)
  read_from p [] = blocked
  read_from p (r ∷ rest) = moved (record p { result_chan = rest })

  unfoldable pub pool_step :
      (Task → Result) → PoolEvent Task → WorkerPool Task Result → Move (WorkerPool Task Result)
  unfolding start_workers cancel_workers close_pool submit_to take_from leave_select finish
      read_from
  pool_step result start_pool p = start_workers p
  pool_step result cancel_pool p = cancel_workers p
  pool_step result wait_over p = close_pool p
  pool_step result (submit_task task) p = submit_to task p
  pool_step result take_task p = take_from p p.task_queue
  pool_step result leave_pool p = leave_select p
  pool_step result read_result p = read_from p p.result_chan
  pool_step result (finish_task i) p = finish result p i (get_elem? p.working i)

  -- A run ends early where a step is blocked or panics.
  unfoldable pub pool_run :
      (Task → Result)
      → List (PoolEvent Task)
      → Move (WorkerPool Task Result)
      → Move (WorkerPool Task Result)
  unfolding pool_step
  pool_run result [] m = m
  pool_run result (e ∷ es) (moved p) = pool_run result es (pool_step result e p)
  pool_run result (e ∷ es) blocked = blocked
  pool_run result (e ∷ es) panics = panics

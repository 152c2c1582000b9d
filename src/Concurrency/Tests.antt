-- ===== src/Concurrency/Tests.antt =====
-- tracing/utils/concurrency.go on concrete runs.
use autopatch.Common.{ℕ, ◌+◌, ◌==◌, Bool, none, some, true, false, List, [], ◌∷◌, ◌≡◌, refl, arith}
use autopatch.Common.GoMap.{nat_eq}
use autopatch.Common.Int.{pos, ◌+ℤ◌}
use autopatch.Concurrency.Cache.{
  CacheOp, set_op, clean_op, new_safe_cache, get, live, apply_all, is_expired,
}
use autopatch.Concurrency.Cache.Latest.{last_set, get-last_set}
use autopatch.Concurrency.Manager.{
  ConcurrencyManager, new_concurrency_manager, send_token, add_active, add_total, wg_add,
  receive_token, sends, activates, totals, joins, receives, cancels, waits, Steps, stays, then_step,
}
use autopatch.Concurrency.Manager.Slots.{IsConsistent, Steps-IsConsistent}
use autopatch.Concurrency.Manager.Abandoned.{IsOver, wait_group_empties}
use autopatch.Concurrency.Pool.{
  WorkerPool, new_worker_pool, PoolEvent, start_pool, cancel_pool, submit_task, take_task,
  leave_pool, finish_task, pool_run,
}
use autopatch.Concurrency.Pool.Counted.{count, submits, reads, tasks_counted}
use autopatch.Concurrency.Pool.Stuck.{StaysFull, stop_waits_for_reader}
use autopatch.Common.Move.{moved}

abbrev writes : List (CacheOp ℕ ℕ)
writes = set_op 1 70 (pos 0) ∷ set_op 2 80 (pos 6) ∷ clean_op (pos 11) ∷ []

get-last_set_example :
    get (apply_all (new_safe_cache (pos 10)) writes) 2 (pos 12)
    ≡ live (pos 12) (last_set (pos 10) 2 none writes)
get-last_set_example = get-last_set (pos 10) writes 2 (pos 12) (omega arith, tt)

still_live : live (pos 12) (last_set (pos 10) 2 none writes) ≡ some 80
unfolding live last_set ◌+ℤ◌ is_expired
still_live = refl

-- One goroutine is in the middle of AcquireOperation.
abbrev acquiring : ConcurrencyManager
acquiring = add_active (send_token (new_concurrency_manager 2))

half_way : Steps (new_concurrency_manager 2) acquiring
unfolding new_concurrency_manager send_token
half_way =
    then_step (then_step (stays _) (sends (new_concurrency_manager 2) (omega arith)))
      (activates (send_token (new_concurrency_manager 2)) (omega arith))

Steps-IsConsistent_example : IsConsistent 2 acquiring
Steps-IsConsistent_example = Steps-IsConsistent 2 acquiring half_way

wait_group_empties_example : (cm : ConcurrencyManager) × Steps acquiring cm × IsOver cm
wait_group_empties_example = wait_group_empties 2 acquiring half_way

-- With a limit of one, two operations are counted as active while the first is being released.
more_active :
    (cm : ConcurrencyManager) × Steps (new_concurrency_manager 1) cm × (cm.active_operations ≡ 2)
unfolding new_concurrency_manager send_token add_active add_total wg_add receive_token
more_active =
    let s1 = then_step (stays (new_concurrency_manager 1)) (sends _ (omega arith)) in
    let s2 = then_step (then_step s1 (activates _ (omega arith))) (totals _ (omega arith)) in
    let s3 =
      then_step (then_step s2 (joins _ (omega arith))) (receives _ (omega arith) (omega arith)) in
    (_, then_step (then_step s3 (sends _ (omega arith))) (activates _ (omega arith)), refl)

-- Shutdown gets past its wait although a goroutine has a token: it is not in the wait group yet.
early_wait :
    (cm : ConcurrencyManager) × Steps (new_concurrency_manager 1) cm
    × (cm.wait_is_over ≡ true)
    × (cm.rate_limiter ≡ 1)
unfolding new_concurrency_manager send_token
early_wait =
    let s1 = then_step (stays (new_concurrency_manager 1)) (sends _ (omega arith)) in
    (_, then_step (then_step s1 (cancels _)) (waits _ refl refl), refl, refl)

abbrev double : ℕ → ℕ
double n = n + n

abbrev pool_events : List (PoolEvent ℕ)
pool_events =
    start_pool
    ∷ submit_task 4
    ∷ take_task
    ∷ submit_task 5
    ∷ finish_task 0
    ∷ take_task
    ∷ cancel_pool
    ∷ []

-- The second task still runs, and the first one's result fills the buffer.
abbrev full_pool : WorkerPool ℕ ℕ
full_pool = record {
  task_queue = [];
  result_chan = 8 ∷ [];
  buffer_size = 1;
  workers = 2;
  waiting = 1;
  working = 5 ∷ [];
  is_started = true;
  is_canceled = true;
  is_closed = false;
}

pool_run_full : pool_run double pool_events (moved (new_worker_pool 2 1)) ≡ moved full_pool
unfolding pool_run new_worker_pool
pool_run_full = refl

abbrev is_ten : ℕ → Bool
is_ten n = n == 10

-- The task 5, which still runs, is the one that comes to 10.
tasks_counted_example :
    count (λ t. is_ten (double t)) (submits pool_events)
    ≡ count (λ t. is_ten (double t)) full_pool.task_queue
      + count (λ t. is_ten (double t)) full_pool.working
      + count is_ten full_pool.result_chan
      + count is_ten (reads double pool_events (moved (new_worker_pool 2 1)))
tasks_counted_example = tasks_counted double is_ten 2 1 pool_events full_pool pool_run_full

stop_waits_for_reader_example :
    StaysFull (pool_run double (leave_pool ∷ finish_task 0 ∷ []) (moved full_pool))
stop_waits_for_reader_example =
    stop_waits_for_reader double full_pool (leave_pool ∷ finish_task 0 ∷ [])
      (record { busy = omega arith; no_room = omega arith; still_open = refl })
      ((λ h. h), ((λ h. h), tt))

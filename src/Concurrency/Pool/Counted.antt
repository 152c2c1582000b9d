-- ===== src/Concurrency/Pool/Counted.antt =====
-- tracing/utils/concurrency.go, WorkerPool: every task that is submitted comes to one result.
use mathlib.Core.Option.{some_inj}
use autopatch.Common.{
  ℕ, zero, suc, ◌+◌, ◌-◌, ◌≡◌, refl, sym, subst, ap, Bool, true, false, not, ◌&&◌, Option, none,
  some, List, [], ◌∷◌, ◌++◌, length, take, get_elem?, ltb, ◌==◌, if◌then◌else◌, arith,
}
use autopatch.Common.Move.{Move, moved, blocked, panics}
use autopatch.Concurrency.Pool.{
  WorkerPool, new_worker_pool, PoolEvent, start_pool, cancel_pool, wait_over, submit_task,
  take_task, leave_pool, read_result, finish_task, without, start_workers, cancel_workers,
  close_pool, submit_to, take_from, leave_select, finish, read_from, pool_step, pool_run,
}

-- 1 where a test holds.
abbrev pub one_if : Bool → ℕ
one_if b = if b then 1 else 0

-- How many entries pass a test.
abbrev pub count : {A : Type 0} → (A → Bool) → List A → ℕ
count test [] = 0
count test (x ∷ xs) = one_if (test x) + count test xs

count-append :
    {A : Type 0} (test : A → Bool) (xs ys : List A)
    → count test (xs ++ ys) ≡ count test xs + count test ys
count-append test [] ys = omega arith
count-append test (x ∷ xs) ys = omega (arith, count-append test xs ys)

count-without :
    {A : Type 0} (test : A → Bool) (xs : List A) (i : ℕ) (x : A)
    → get_elem? xs i ≡ some x
    → one_if (test x) + count test (without xs i) ≡ count test xs
count-without test [] i x h = absurd (ground (arith, h))
count-without test (y ∷ xs) zero x h =
    ap (λ a. one_if (test a) + count test xs) (sym (some_inj.0 h))
count-without test (y ∷ xs) (suc i) x h = omega (arith, count-without test xs i x h)

-- The tasks that are submitted, in order.
abbrev pub submitted : {Task : Type 0} → PoolEvent Task → List Task
submitted (submit_task t) = t ∷ []
submitted _ = []

abbrev pub submits : {Task : Type 0} → List (PoolEvent Task) → List Task
submits [] = []
submits (e ∷ es) = submitted e ++ submits es

module _ {Task Result : Type 0} (result : Task → Result) where
  -- The result that a step gives to the reader, and those that a run gives to it.
  abbrev pub read_by : PoolEvent Task → WorkerPool Task Result → List Result
  read_by read_result p = take 1 p.result_chan
  read_by _ p = []

  unfoldable pub reads : List (PoolEvent Task) → Move (WorkerPool Task Result) → List Result
  reads [] m = []
  reads (e ∷ es) (moved p) = read_by e p ++ reads es (pool_step result e p)
  reads (e ∷ es) blocked = []
  reads (e ∷ es) panics = []

  module _ (test : Result → Bool) where
    abbrev tested : Task → Bool
    tested t = test (result t)

    -- The tasks that wait and that run, by the results that they come to, and the results that wait.
    abbrev pub in_pool : WorkerPool Task Result → ℕ
    in_pool p = count tested p.task_queue + count tested p.working + count test p.result_chan

    -- The step leaves n of them in the pool, and k were taken out.
    abbrev pub Leaves : ℕ → ℕ → Move (WorkerPool Task Result) → Type 0
    Leaves n k (moved p) = in_pool p + k ≡ n
    Leaves n k blocked = Unit
    Leaves n k panics = Unit

    if-Leaves :
        (n k : ℕ) (c : Bool) (x y : Move (WorkerPool Task Result))
        → Leaves n k x
        → Leaves n k y
        → Leaves n k (if c then x else y)
    if-Leaves n k true x y h g = h
    if-Leaves n k false x y h g = g

    close-Leaves : (p : WorkerPool Task Result) → Leaves (in_pool p + 0) 0 (close_pool p)
    unfolding close_pool
    close-Leaves p =
        let n = in_pool p + 0 in
        let closed : WorkerPool Task Result = record p { is_closed = true } in
        if-Leaves n 0 (p.is_canceled && p.waiting + length p.working == 0)
          (if p.is_closed then panics else moved closed) blocked
          (if-Leaves n 0 p.is_closed panics (moved closed) tt refl) tt

    submit-Leaves :
        (task : Task) (p : WorkerPool Task Result)
        → Leaves (in_pool p + count tested (task ∷ [])) 0 (submit_to task p)
    unfolding submit_to
    submit-Leaves task p =
        let n = in_pool p + count tested (task ∷ []) in
        let longer : WorkerPool Task Result = record p { task_queue = p.task_queue ++ task ∷ [] } in
        if-Leaves n 0 p.is_closed panics
          (if ltb (length p.task_queue) p.buffer_size then moved longer else blocked) tt
          (if-Leaves n 0 (ltb (length p.task_queue) p.buffer_size) (moved longer) blocked
            (omega (arith, count-append tested p.task_queue (task ∷ []))) tt)

    take-Leaves :
        (p : WorkerPool Task Result) (tasks : List Task)
        → p.task_queue ≡ tasks
        → Leaves (in_pool p + 0) 0 (take_from p tasks)
    unfolding take_from
    take-Leaves p [] e =
        if-Leaves (in_pool p + 0) 0 (p.is_closed && not (p.waiting == 0)) panics blocked tt tt
    take-Leaves p (task ∷ rest) e =
        let size = ap (count tested) e in
        let taken : WorkerPool Task Result = record p {
          task_queue = rest;
          waiting = p.waiting - 1;
          working = task ∷ p.working;
        } in
        if-Leaves (in_pool p + 0) 0 (p.waiting == 0) blocked (moved taken) tt (omega (arith, size))

    leave-Leaves : (p : WorkerPool Task Result) → Leaves (in_pool p + 0) 0 (leave_select p)
    unfolding leave_select
    leave-Leaves p =
        let left : WorkerPool Task Result = record p { waiting = p.waiting - 1 } in
        if-Leaves (in_pool p + 0) 0 (p.is_canceled && not (p.waiting == 0)) (moved left) blocked
          refl tt

    read-Leaves :
        (p : WorkerPool Task Result) (rs : List Result)
        → p.result_chan ≡ rs
        → Leaves (in_pool p + 0) (count test (take 1 rs)) (read_from p rs)
    unfolding read_from
    read-Leaves p [] e = tt
    read-Leaves p (r ∷ rest) e = omega (arith, ap (count test) e)

    finish-Leaves :
        (p : WorkerPool Task Result) (i : ℕ) (o : Option Task)
        → get_elem? p.working i ≡ o
        → Leaves (in_pool p + 0) 0 (finish result p i o)
    unfolding finish
    finish-Leaves p i none e = tt
    finish-Leaves p i (some task) e =
        let n = in_pool p + 0 in
        let finished : WorkerPool Task Result = record p {
          result_chan = p.result_chan ++ result task ∷ [];
          waiting = p.waiting + 1;
          working = without p.working i;
        } in
        let room = ltb (length p.result_chan) p.buffer_size in
        if-Leaves n 0 p.is_closed panics (if room then moved finished else blocked) tt (
          if-Leaves n 0 room (moved finished) blocked
            (omega (
              arith,
              count-append test p.result_chan (result task ∷ []),
              count-without tested p.working i task e,
            ))
            tt)

    start-Leaves : (p : WorkerPool Task Result) → Leaves (in_pool p + 0) 0 (start_workers p)
    unfolding start_workers
    start-Leaves p =
        let started : WorkerPool Task Result = record p {
          is_started = true;
          waiting = p.waiting + p.workers;
        } in
        if-Leaves (in_pool p + 0) 0 p.is_started (moved p) (moved started) refl refl

    step-Leaves :
        (e : PoolEvent Task) (p : WorkerPool Task Result)
        → Leaves
            (in_pool p + count tested (submitted e))
            (count test (read_by e p))
            (pool_step result e p)
    unfolding pool_step cancel_workers
    step-Leaves start_pool p = start-Leaves p
    step-Leaves cancel_pool p = refl
    step-Leaves wait_over p = close-Leaves p
    step-Leaves (submit_task task) p = submit-Leaves task p
    step-Leaves take_task p = take-Leaves p p.task_queue refl
    step-Leaves leave_pool p = leave-Leaves p
    step-Leaves read_result p = read-Leaves p p.result_chan refl
    step-Leaves (finish_task i) p = finish-Leaves p i (get_elem? p.working i) refl

    shift :
        (n k a n₂ k₂ : ℕ) (m : Move (WorkerPool Task Result))
        → n + a ≡ n₂
        → k + a ≡ k₂
        → Leaves n k m
        → Leaves n₂ k₂ m
    shift n k a n₂ k₂ (moved p) e f h = omega (arith, e, f, h)
    shift n k a n₂ k₂ blocked e f h = tt
    shift n k a n₂ k₂ panics e f h = tt

    run-Leaves :
        (es : List (PoolEvent Task)) (n k : ℕ) (m : Move (WorkerPool Task Result))
        → Leaves n k m
        → Leaves
            (n + count tested (submits es))
            (k + count test (reads es m))
            (pool_run result es m)
    unfolding pool_run reads
    run-Leaves [] n k m h = shift n k 0 (n + 0) (k + 0) m refl refl h
    run-Leaves (e ∷ es) n k (moved p) h =
        let next = pool_step result e p in
        let new = count tested (submitted e) in
        let out = count test (read_by e p) in
        let moved_on =
          shift (in_pool p + new) out k (n + new) (k + out) next (omega (arith, h)) (omega arith)
            (step-Leaves e p) in
        let later = run-Leaves es (n + new) (k + out) next moved_on in
        shift (n + new + count tested (submits es)) (k + out + count test (reads es next)) 0
          (n + count tested (submitted e ++ submits es))
          (k + count test (read_by e p ++ reads es next)) (pool_run result es next)
          (omega (arith, count-append tested (submitted e) (submits es)))
          (omega (arith, count-append test (read_by e p) (reads es next))) later
    run-Leaves (e ∷ es) n k blocked h = tt
    run-Leaves (e ∷ es) n k panics h = tt

    -- In every run of a new pool, and for every test of a result: of the tasks that were submitted, as many
    -- come to a result that passes the test as there are tasks that wait or run and will come to one, results
    -- that wait and pass it, and results that were read and pass it. So no task is lost or changed, none is
    -- run twice, and every result is that of a task.
    pub tasks_counted :
        (workers buffer_size : ℕ) (es : List (PoolEvent Task)) (p : WorkerPool Task Result)
        → pool_run result es (moved (new_worker_pool workers buffer_size)) ≡ moved p
        → count tested (submits es)
          ≡ count tested p.task_queue
            + count tested p.working
            + count test p.result_chan
            + count test (reads es (moved (new_worker_pool workers buffer_size)))
    unfolding new_worker_pool
    tasks_counted workers buffer_size es p e =
        let fresh : WorkerPool Task Result = new_worker_pool workers buffer_size in
        let n = count tested (submits es) in
        let k = count test (reads es (moved fresh)) in
        let done = run-Leaves es 0 0 (moved fresh) refl in
        let ended : Leaves (0 + n) (0 + k) (moved p) = subst (Leaves (0 + n) (0 + k)) e done in
        omega (arith, ended)

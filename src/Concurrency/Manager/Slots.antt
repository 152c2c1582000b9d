-- ===== src/Concurrency/Manager/Slots.antt =====
-- tracing/utils/concurrency.go, ConcurrencyManager: the counters and the goroutines agree.
use autopatch.Common.{ℕ, ◌+◌, ◌-◌, ◌%◌, ◌^◌, ◌<◌, ◌≤◌, ◌≡◌, true, false, arith}
use autopatch.Concurrency.Manager.{
  add64, ConcurrencyManager, new_concurrency_manager, send_token, add_active, add_total, wg_add,
  receive_token, subtract_active, wg_done, with_lock, start_function, end_function, time_out, Step,
  sends, activates, totals, joins, receives, deactivates, leaves, locks, starts, ends, times_out,
  drains, cancels, waits, Steps, stays, then_step,
}

-- The goroutines that hold a token, that are counted as active, and that are in the wait group.
abbrev pub with_token : ConcurrencyManager → ℕ
with_token cm = cm.sent + cm.activated + cm.totaled + cm.holders + cm.executing

abbrev pub counted : ConcurrencyManager → ℕ
counted cm = cm.activated + cm.totaled + cm.holders + cm.executing + cm.received

abbrev pub in_group : ConcurrencyManager → ℕ
in_group cm = cm.holders + cm.executing + cm.received + cm.deactivated

-- Every token of the rate limiter belongs to one goroutine, and the count of active operations and the
-- wait group are the numbers of the goroutines that were added and not yet subtracted.
pub record IsConsistent (max : ℕ) (cm : ConcurrencyManager) : Type 0 where
  pub capacity : cm.max_concurrent ≡ max
  pub tokens : cm.rate_limiter ≡ with_token cm
  pub bounded : cm.rate_limiter ≤ max
  pub active : cm.active_operations ≡ counted cm % 2 ^ 64
  pub waited : cm.wg ≡ in_group cm

-- int64 addition of 1 and of -1 on a count.
one_more : (a n : ℕ) → a ≡ n % 2 ^ 64 → add64 a 1 ≡ (n + 1) % 2 ^ 64
one_more a n e = omega (arith, e)

one_less : (a n : ℕ) → a ≡ n % 2 ^ 64 → 0 < n → add64 a (2 ^ 64 - 1) ≡ (n - 1) % 2 ^ 64
one_less a n e h = omega (arith, e, h)

pub Step-IsConsistent :
    (max : ℕ) (a b : ConcurrencyManager) → IsConsistent max a → Step a b → IsConsistent max b
unfolding send_token add_active add_total wg_add receive_token subtract_active wg_done with_lock
    start_function end_function time_out
Step-IsConsistent max a b v (sends cm h) = ground arith
Step-IsConsistent max a b v (activates cm h) =
    ground (arith, one_more cm.active_operations (counted cm))
Step-IsConsistent max a b v (totals cm h) = ground arith
Step-IsConsistent max a b v (joins cm h) = ground arith
Step-IsConsistent max a b v (receives cm h k) = ground arith
Step-IsConsistent max a b v (deactivates cm h) =
    ground (arith, one_less cm.active_operations (counted cm))
Step-IsConsistent max a b v (leaves cm h) = ground arith
Step-IsConsistent max a b v (locks cm true) = ground arith
Step-IsConsistent max a b v (locks cm false) = v
Step-IsConsistent max a b v (starts cm h) = ground arith
Step-IsConsistent max a b v (ends cm h) = ground arith
Step-IsConsistent max a b v (times_out cm h) = ground arith
Step-IsConsistent max a b v (drains cm h) = ground arith
Step-IsConsistent max a b v (cancels cm) = ground arith
Step-IsConsistent max a b v (waits cm c e) = ground arith

-- After any steps from a new manager, in which a caller releases only a slot that it acquired: at most
-- `max` tokens are in the rate limiter, and each belongs to one goroutine; the count of active operations
-- is, as an int64, the number of the goroutines that were added to it and not yet subtracted, and the wait
-- group likewise. The goroutines between the operations of AcquireOperation and ReleaseOperation are those
-- in which the three counts differ.
pub Steps-IsConsistent :
    (max : ℕ) (cm : ConcurrencyManager)
    → Steps (new_concurrency_manager max) cm
    → IsConsistent max cm
unfolding new_concurrency_manager
Steps-IsConsistent max cm (stays a) = ground arith
Steps-IsConsistent max cm (then_step s t) =
    Step-IsConsistent max _ cm (Steps-IsConsistent max _ s) t

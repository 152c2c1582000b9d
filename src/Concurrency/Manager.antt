-- ===== src/Concurrency/Manager.antt =====
-- tracing/utils/concurrency.go, ConcurrencyManager: the rate limiter, the counters and the goroutines
-- of ExecuteWithTimeout as a step relation. A step is one operation on shared state, a channel operation,
-- an atomic addition or a call on the wait group, since no lock holds them together; a call that blocks
-- makes no step until it can. The error that a refused AcquireOperation returns changes nothing, so it is
-- not a step.
pub mod Slots
pub mod Abandoned
use autopatch.Common.{ℕ, ◌+◌, ◌-◌, ◌%◌, ◌^◌, ◌<◌, ◌≡◌, Bool, true, false, if◌then◌else◌}

-- An int64 counter is its bit pattern.
abbrev pub add64 : ℕ → ℕ → ℕ
add64 n d = (n + d) % 2 ^ 64

-- `rate_limiter` is the number of tokens in the channel, `wg` the count of the wait group, and
-- `wait_is_over` whether the goroutine of Shutdown got past its Wait. The other fields from `sent` on count
-- goroutines by where they are. In AcquireOperation: sent has sent its token, activated has also added to
-- activeOperations, and totaled to totalOperations. Holders are between AcquireOperation and
-- ReleaseOperation, executing are in the select of ExecuteWithTimeout. In ReleaseOperation: received has
-- its token back, deactivated has also subtracted from activeOperations. Abandoned are functions that
-- still run after their timeout. A caller of AcquireOperation and a call of ExecuteWithTimeout are both
-- holders; the relation does not tell them apart, so that it has more runs than the code and none less.
pub record ConcurrencyManager : Type 0 where
  pub rate_limiter : ℕ
  pub max_concurrent : ℕ
  pub active_operations : ℕ
  pub total_operations : ℕ
  pub error_count : ℕ
  pub wg : ℕ
  pub is_canceled : Bool
  pub wait_is_over : Bool
  pub sent : ℕ
  pub activated : ℕ
  pub totaled : ℕ
  pub holders : ℕ
  pub executing : ℕ
  pub received : ℕ
  pub deactivated : ℕ
  pub abandoned : ℕ

unfoldable pub new_concurrency_manager : ℕ → ConcurrencyManager
new_concurrency_manager max_concurrent = record {
  rate_limiter = 0;
  max_concurrent = max_concurrent;
  active_operations = 0;
  total_operations = 0;
  error_count = 0;
  wg = 0;
  is_canceled = false;
  wait_is_over = false;
  sent = 0;
  activated = 0;
  totaled = 0;
  holders = 0;
  executing = 0;
  received = 0;
  deactivated = 0;
  abandoned = 0;
}

-- AcquireOperation: the first case of its select, the two additions, and wg.Add(1).
unfoldable pub send_token : ConcurrencyManager → ConcurrencyManager
send_token cm = record cm { rate_limiter = cm.rate_limiter + 1; sent = cm.sent + 1 }

unfoldable pub add_active : ConcurrencyManager → ConcurrencyManager
add_active cm = record cm {
  active_operations = add64 cm.active_operations 1;
  sent = cm.sent - 1;
  activated = cm.activated + 1;
}

unfoldable pub add_total : ConcurrencyManager → ConcurrencyManager
add_total cm = record cm {
  total_operations = add64 cm.total_operations 1;
  activated = cm.activated - 1;
  totaled = cm.totaled + 1;
}

unfoldable pub wg_add : ConcurrencyManager → ConcurrencyManager
wg_add cm = record cm { wg = cm.wg + 1; totaled = cm.totaled - 1; holders = cm.holders + 1 }

-- ReleaseOperation: the receive, the subtraction, and wg.Done().
unfoldable pub receive_token : ConcurrencyManager → ConcurrencyManager
receive_token cm = record cm {
  rate_limiter = cm.rate_limiter - 1;
  holders = cm.holders - 1;
  received = cm.received + 1;
}

unfoldable pub subtract_active : ConcurrencyManager → ConcurrencyManager
subtract_active cm = record cm {
  active_operations = add64 cm.active_operations (2 ^ 64 - 1);
  received = cm.received - 1;
  deactivated = cm.deactivated + 1;
}

unfoldable pub wg_done : ConcurrencyManager → ConcurrencyManager
wg_done cm = record cm { wg = cm.wg - 1; deactivated = cm.deactivated - 1 }

-- What WithABILock and its three kin leave behind, by whether the function fails.
unfoldable pub with_lock : Bool → ConcurrencyManager → ConcurrencyManager
with_lock fails cm = if fails then record cm { error_count = add64 cm.error_count 1 } else cm

-- ExecuteWithTimeout between its AcquireOperation and its deferred ReleaseOperation: the function is
-- started; it ends in time; the timeout ends the call first; the function that was left behind ends.
unfoldable pub start_function : ConcurrencyManager → ConcurrencyManager
start_function cm = record cm { holders = cm.holders - 1; executing = cm.executing + 1 }

unfoldable pub end_function : ConcurrencyManager → ConcurrencyManager
end_function cm = record cm { holders = cm.holders + 1; executing = cm.executing - 1 }

unfoldable pub time_out : ConcurrencyManager → ConcurrencyManager
time_out cm = record cm {
  holders = cm.holders + 1;
  executing = cm.executing - 1;
  abandoned = cm.abandoned + 1;
}

-- A step. The channel has room below its capacity, and Go's select may take that case also when the
-- context is done. Shutdown cancels the context before it waits.
pub data Step : ConcurrencyManager → ConcurrencyManager → Type 0 where
  sends : (cm : ConcurrencyManager) → cm.rate_limiter < cm.max_concurrent → Step cm (send_token cm)
  activates : (cm : ConcurrencyManager) → 0 < cm.sent → Step cm (add_active cm)
  totals : (cm : ConcurrencyManager) → 0 < cm.activated → Step cm (add_total cm)
  joins : (cm : ConcurrencyManager) → 0 < cm.totaled → Step cm (wg_add cm)
  receives :
      (cm : ConcurrencyManager) → 0 < cm.holders → 0 < cm.rate_limiter → Step cm (receive_token cm)
  deactivates : (cm : ConcurrencyManager) → 0 < cm.received → Step cm (subtract_active cm)
  leaves : (cm : ConcurrencyManager) → 0 < cm.deactivated → Step cm (wg_done cm)
  locks : (cm : ConcurrencyManager) (fails : Bool) → Step cm (with_lock fails cm)
  starts : (cm : ConcurrencyManager) → 0 < cm.holders → Step cm (start_function cm)
  ends : (cm : ConcurrencyManager) → 0 < cm.executing → Step cm (end_function cm)
  times_out : (cm : ConcurrencyManager) → 0 < cm.executing → Step cm (time_out cm)
  drains :
      (cm : ConcurrencyManager)
      → 0 < cm.abandoned
      → Step cm (record cm { abandoned = cm.abandoned - 1 })
  cancels : (cm : ConcurrencyManager) → Step cm (record cm { is_canceled = true })
  waits :
      (cm : ConcurrencyManager)
      → cm.is_canceled ≡ true
      → cm.wg ≡ 0
      → Step cm (record cm { wait_is_over = true })

pub data Steps : ConcurrencyManager → ConcurrencyManager → Type 0 where
  stays : (cm : ConcurrencyManager) → Steps cm cm
  then_step : {a b c : ConcurrencyManager} → Steps a b → Step b c → Steps a c

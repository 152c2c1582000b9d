-- ===== src/Concurrency/Manager/Abandoned.antt =====
-- tracing/utils/concurrency.go, ConcurrencyManager: what Shutdown can wait for, and what it cannot.
use autopatch.Common.{ℕ, zero, suc, ◌+◌, ◌*◌, ◌<◌, ◌≡◌, refl, true, ◌⊎◌, inl, inr, arith}
use autopatch.Concurrency.Manager.{
  ConcurrencyManager, new_concurrency_manager, send_token, add_active, add_total, wg_add,
  receive_token, subtract_active, wg_done, start_function, end_function, time_out, Step, sends,
  activates, totals, joins, receives, deactivates, leaves, starts, ends, times_out, cancels, waits,
  Steps, stays, then_step,
}
use autopatch.Concurrency.Manager.Slots.{IsConsistent, Steps-IsConsistent, Step-IsConsistent}

-- The operations that the goroutines have left to do: six after the token is sent, and so on.
abbrev pub operations_left : ConcurrencyManager → ℕ
operations_left cm =
    6 * cm.sent
    + 5 * cm.activated
    + 4 * (cm.totaled + cm.executing)
    + 3 * cm.holders
    + 2 * cm.received
    + cm.deactivated

some_positive : (a b : ℕ) → 0 < a + b → (0 < a) ⊎ (0 < b)
some_positive zero b h = inr (omega (arith, h))
some_positive (suc a) b h = inl (omega arith)

-- The next operation of some goroutine.
next_operation :
    (max : ℕ) (cm : ConcurrencyManager)
    → IsConsistent max cm
    → 0 < operations_left cm
    → (cm' : ConcurrencyManager) × Step cm cm' × (operations_left cm' + 1 ≡ operations_left cm)
unfolding add_active add_total wg_add receive_token subtract_active wg_done end_function
next_operation max cm v h = elim (some_positive cm.sent _ (spread cm h)) [
  | inl p ↦ (_, activates cm p, omega (arith, p))
  | inr q ↦ elim (some_positive cm.activated _ q) [
    | inl p ↦ (_, totals cm p, omega (arith, p))
    | inr q ↦ elim (some_positive cm.totaled _ q) [
      | inl p ↦ (_, joins cm p, omega (arith, p))
      | inr q ↦ elim (some_positive cm.executing _ q) [
        | inl p ↦ (_, ends cm p, omega (arith, p))
        | inr q ↦ elim (some_positive cm.holders _ q) [
          | inl p ↦ (_, receives cm p (omega (arith, p, v.tokens)), omega (arith, p))
          | inr q ↦ elim (some_positive cm.received cm.deactivated q) [
            | inl p ↦ (_, deactivates cm p, omega (arith, p))
            | inr p ↦ (_, leaves cm p, omega (arith, p))
          ]
        ]
      ]
    ]
  ]
]
  where
    spread :
        (c : ConcurrencyManager)
        → 0 < operations_left c
        → 0
          < c.sent
            + (c.activated
                + (c.totaled + (c.executing + (c.holders + (c.received + c.deactivated)))))
    spread c k = omega (arith, k)

-- All goroutines are out of the manager, and Shutdown is past its wait.
pub record IsOver (cm : ConcurrencyManager) : Type 0 where
  pub no_token : cm.rate_limiter ≡ 0
  pub none_active : cm.active_operations ≡ 0
  pub empty_group : cm.wg ≡ 0
  pub waited : cm.wait_is_over ≡ true

IsOver-from :
    (max n : ℕ) (start cm : ConcurrencyManager)
    → IsConsistent max cm
    → operations_left cm ≡ n
    → Steps start cm
    → (cm' : ConcurrencyManager) × Steps start cm' × IsOver cm'
IsOver-from max zero start cm v e s =
    let canceled : ConcurrencyManager = record cm { is_canceled = true } in
    let empty : cm.wg ≡ 0 = omega (arith, v.waited, e) in
    (
      record canceled { wait_is_over = true },
      then_step (then_step s (cancels cm)) (waits canceled refl empty),
      record {
        no_token = omega (arith, v.tokens, e);
        none_active = omega (arith, v.active, e);
        empty_group = empty;
        waited = refl;
      },
    )
IsOver-from max (suc n) start cm v e s =
    let (cm', t, less) = next_operation max cm v (omega (arith, e)) in
    IsOver-from max n start cm' (Step-IsConsistent max cm cm' v t) (omega (arith, less, e))
      (then_step s t)

-- From every state that can be reached, one in the middle of an acquire or a release included, the
-- operations in flight can all end: the wait group, the count of active operations and the rate limiter
-- reach zero, and Shutdown gets past its wait. No deadlock is built in.
pub wait_group_empties :
    (max : ℕ) (cm : ConcurrencyManager)
    → Steps (new_concurrency_manager max) cm
    → (cm' : ConcurrencyManager) × Steps cm cm' × IsOver cm'
wait_group_empties max cm s =
    IsOver-from max (operations_left cm) cm cm (Steps-IsConsistent max cm s) refl (stays cm)

-- With a limit of one operation, any number of functions can still be running at once, with every
-- slot free and nothing in the wait group: a function that timed out runs on without its slot.
pub timeouts_pile_up :
    (n : ℕ)
    → (cm : ConcurrencyManager) × Steps (new_concurrency_manager 1) cm
      × (cm.abandoned ≡ n)
      × (operations_left cm ≡ 0)
unfolding new_concurrency_manager send_token add_active add_total wg_add receive_token
    subtract_active wg_done start_function time_out
timeouts_pile_up zero = (new_concurrency_manager 1, stays _, refl, refl)
timeouts_pile_up (suc n) =
    let (cm, s, a, w) = timeouts_pile_up n in
    let v = Steps-IsConsistent 1 cm s in
    let s1 = then_step s (sends cm (omega (arith, v.capacity, v.tokens, w))) in
    let s2 = then_step s1 (activates _ (omega arith)) in
    let s3 = then_step s2 (totals _ (omega arith)) in
    let s4 = then_step s3 (joins _ (omega arith)) in
    let s5 = then_step s4 (starts _ (omega arith)) in
    let s6 = then_step s5 (times_out _ (omega arith)) in
    let s7 = then_step s6 (receives _ (omega arith) (omega arith)) in
    let s8 = then_step s7 (deactivates _ (omega arith)) in
    (_, then_step s8 (leaves _ (omega arith)), omega (arith, a), omega (arith, w))

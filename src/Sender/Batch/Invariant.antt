-- ===== src/Sender/Batch/Invariant.antt =====
-- txmgr/ethereum/transaction.go, BatchTransactionSender: what each step keeps.
use autopatch.Common.{
  ℕ, suc, ◌+◌, ◌-◌, ◌≤◌, ◌<◌, ◌≡◌, refl, ◌≢◌, sym, ap, All, Bool, true, false, not, ◌&&◌, ◌||◌,
  Option, none, some, List, [], ◌∷◌, length, get_elem?, ltb, ◌==◌, if◌then◌else◌, arith,
  length-append, ltb→lt,
}
use autopatch.Common.Move.{Move, moved, blocked, panics}
use autopatch.Sender.Batch.{
  drop_request, sent, Batch, capacity, new_batch, start, submit, close_channels, take, leave_worker,
  answer, quit_worker, read,
}
use autopatch.Sender.Batch.Closed.{
  ClosedAfter, length-remove_at, open_unstopped, open_working, still_open, both, unstarted,
  true-false, closing, fewer,
}
use autopatch.Sender.Batch.Requests.{IsSendable}

-- Both channels are within their buffers, there are at most as many workers as were asked for, none
-- before the start, and the channels are closed only after the stop, when no worker is left.
pub record IsSafe {Req Resp : Type 0} (b : Batch Req Resp) : Type 0 where
  pub requests_fit : length b.request_chan ≤ capacity
  pub responses_fit : length b.response_chan ≤ capacity
  pub few_workers : b.waiting + length b.working ≤ (if b.is_started then b.worker_count else 0)
  pub closed_after : ClosedAfter b.is_closed b.is_stopped (b.waiting + length b.working)

-- A step that stays safe: no panic, and a safe state if there is one.
abbrev pub StaysSafe : {Req Resp : Type 0} → Move (Batch Req Resp) → Type 0
StaysSafe (moved b) = IsSafe b
StaysSafe blocked = Unit
StaysSafe panics = ⊥

module _ {Req Resp : Type 0} where
  pub new-IsSafe : (workers : ℕ) → IsSafe {Req = Req} {Resp = Resp} (new_batch workers)
  unfolding new_batch
  new-IsSafe workers = record {
    requests_fit = omega arith;
    responses_fit = omega arith;
    few_workers = omega arith;
    closed_after = tt;
  }

  pub if-StaysSafe :
      (c : Bool) (x y : Move (Batch Req Resp))
      → (c ≡ true → StaysSafe x)
      → (c ≡ false → StaysSafe y)
      → StaysSafe (if c then x else y)
  if-StaysSafe true x y h g = h refl
  if-StaysSafe false x y h g = g refl

  pub start-StaysSafe : (b : Batch Req Resp) → IsSafe b → StaysSafe (start b)
  unfolding start
  start-StaysSafe b h =
      if-StaysSafe (b.is_started || b.is_stopped) _ _ (λ e. h)
        (λ e.
          let (fresh, running) = both b.is_started b.is_stopped e in
          let none_yet =
            unstarted b.is_started b.worker_count (b.waiting + length b.working) fresh
              h.few_workers in
          record {
            requests_fit = h.requests_fit;
            responses_fit = h.responses_fit;
            few_workers = omega (arith, none_yet);
            closed_after =
                still_open b.is_closed b.is_stopped _
                  (open_unstopped b.is_closed b.is_stopped _ h.closed_after running);
          })

  pub stop-StaysSafe : (b : Batch Req Resp) → IsSafe b → IsSafe (record b { is_stopped = true })
  stop-StaysSafe b h = record {
    requests_fit = h.requests_fit;
    responses_fit = h.responses_fit;
    few_workers = h.few_workers;
    closed_after =
        stopped_later b.is_closed b.is_stopped (b.waiting + length b.working) h.closed_after;
  }
    where
      stopped_later : (c s : Bool) (n : ℕ) → ClosedAfter c s n → ClosedAfter c true n
      stopped_later false s n k = tt
      stopped_later true true n k = k
      stopped_later true false n k = absurd k

  pub drop-StaysSafe :
      (send : Req → Option Resp) (req : Option Req) (b : Batch Req Resp)
      → IsSendable send req
      → IsSafe b
      → StaysSafe (drop_request req b)
  drop-StaysSafe send none b p h = absurd p
  drop-StaysSafe send (some req) b p h = h

  pub submit-StaysSafe :
      (send : Req → Option Resp) (req : Option Req) (b : Batch Req Resp)
      → IsSendable send req
      → IsSafe b
      → StaysSafe (submit req b)
  unfolding submit
  submit-StaysSafe send req b p h =
      if-StaysSafe b.is_stopped _ _ (λ e. h)
        (λ running.
          let still = open_unstopped b.is_closed b.is_stopped _ h.closed_after running in
          if-StaysSafe b.is_closed _ _ (λ closed. absurd (true-false closed still))
            (λ e.
              if-StaysSafe (ltb (length b.request_chan) capacity) _ _
                (λ room.
                  let size = length-append b.request_chan (req ∷ []) in
                  record {
                    requests_fit =
                        omega (arith, size, ltb→lt (length b.request_chan) capacity room);
                    responses_fit = h.responses_fit;
                    few_workers = h.few_workers;
                    closed_after = h.closed_after;
                  })
                (λ full. drop-StaysSafe send req b p h)))

  pub close-StaysSafe : (b : Batch Req Resp) → IsSafe b → StaysSafe (close_channels b)
  unfolding close_channels
  close-StaysSafe b h =
      if-StaysSafe (b.is_stopped && not b.is_closed && b.waiting + length b.working == 0) _ _
        (λ e. record {
          requests_fit = h.requests_fit;
          responses_fit = h.responses_fit;
          few_workers = h.few_workers;
          closed_after = closing b.is_stopped b.is_closed (b.waiting + length b.working) e;
        })
        (λ e. tt)

  pub sent-StaysSafe :
      (b : Batch Req Resp) (rest : List (Option Req)) (o : Option Resp)
      → suc (length rest) ≡ length b.request_chan
      → 0 < b.waiting
      → o ≢ none
      → IsSafe b
      → StaysSafe (sent o (record b { request_chan = rest; waiting = b.waiting - 1 }))
  sent-StaysSafe b rest none size p ne h = absurd (ne refl)
  sent-StaysSafe b rest (some response) size p ne h = record {
    requests_fit = omega (arith, size, h.requests_fit);
    responses_fit = h.responses_fit;
    few_workers = omega (arith, p, h.few_workers);
    closed_after =
        still_open b.is_closed b.is_stopped _
          (open_working b.is_closed b.is_stopped _ h.closed_after (omega (arith, p)));
  }

  pub fewer_waiting :
      (b : Batch Req Resp) (rest : List (Option Req))
      → length rest ≤ length b.request_chan
      → IsSafe b
      → IsSafe (record b { request_chan = rest; waiting = b.waiting - 1 })
  fewer_waiting b rest size h = record {
    requests_fit = omega (arith, size, h.requests_fit);
    responses_fit = h.responses_fit;
    few_workers = omega (arith, h.few_workers);
    closed_after =
        fewer b.is_closed b.is_stopped (b.waiting + length b.working) _ (omega arith)
          h.closed_after;
  }

  pub take-StaysSafe :
      (send : Req → Option Resp) (b : Batch Req Resp) (reqs : List (Option Req))
      → b.request_chan ≡ reqs
      → All (IsSendable send) reqs
      → IsSafe b
      → StaysSafe (take send b reqs)
  unfolding take
  take-StaysSafe send b [] e good h =
      if-StaysSafe (b.is_closed && not (b.waiting == 0)) _ _
        (λ closed. fewer_waiting b b.request_chan (omega arith) h) (λ open_. tt)
  take-StaysSafe send b (none ∷ rest) e good h = absurd good.0
  take-StaysSafe send b (some req ∷ rest) e good h =
      if-StaysSafe (b.waiting == 0) _ _ (λ none_waits. tt)
        (λ waits.
          sent-StaysSafe b rest (send req) (sym (ap length e)) (ground (arith, waits)) good.0 h)

  pub leave-StaysSafe : (b : Batch Req Resp) → IsSafe b → StaysSafe (leave_worker b)
  unfolding leave_worker
  leave-StaysSafe b h =
      if-StaysSafe (b.is_stopped && not (b.waiting == 0)) _ _
        (λ e. record {
          requests_fit = h.requests_fit;
          responses_fit = h.responses_fit;
          few_workers = omega (arith, h.few_workers);
          closed_after =
              fewer b.is_closed b.is_stopped (b.waiting + length b.working) _ (omega arith)
                h.closed_after;
        })
        (λ e. tt)

  pub read-StaysSafe :
      (b : Batch Req Resp) (rs : List Resp)
      → b.response_chan ≡ rs
      → IsSafe b
      → StaysSafe (read b rs)
  unfolding read
  read-StaysSafe b [] e h = tt
  read-StaysSafe b (r ∷ rest) e h =
      let size = ap length e in
      record {
        requests_fit = h.requests_fit;
        responses_fit = omega (arith, size, h.responses_fit);
        few_workers = h.few_workers;
        closed_after = h.closed_after;
      }

  pub quit-StaysSafe :
      (b : Batch Req Resp) (i : ℕ) (o : Option Resp)
      → get_elem? b.working i ≡ o
      → IsSafe b
      → StaysSafe (quit_worker b i o)
  unfolding quit_worker
  quit-StaysSafe b i none e h = tt
  quit-StaysSafe b i (some response) e h =
      let size = length-remove_at b.working i response e in
      if-StaysSafe b.is_stopped _ _
        (λ stopped. record {
          requests_fit = h.requests_fit;
          responses_fit = h.responses_fit;
          few_workers = omega (arith, size, h.few_workers);
          closed_after =
              fewer b.is_closed b.is_stopped (b.waiting + length b.working) _ (omega (arith, size))
                h.closed_after;
        })
        (λ running. tt)

  pub answer-StaysSafe :
      (b : Batch Req Resp) (i : ℕ) (o : Option Resp)
      → get_elem? b.working i ≡ o
      → IsSafe b
      → StaysSafe (answer b i o)
  unfolding answer
  answer-StaysSafe b i none e h = tt
  answer-StaysSafe b i (some response) e h =
      let size = length-remove_at b.working i response e in
      let still = open_working b.is_closed b.is_stopped _ h.closed_after (omega (arith, size)) in
      if-StaysSafe b.is_closed _ _ (λ closed. absurd (true-false closed still))
        (λ c.
          if-StaysSafe (ltb (length b.response_chan) capacity) _ _
            (λ room.
              let longer = length-append b.response_chan (response ∷ []) in
              record {
                requests_fit = h.requests_fit;
                responses_fit =
                    omega (arith, longer, ltb→lt (length b.response_chan) capacity room);
                few_workers = omega (arith, size, h.few_workers);
                closed_after = still_open b.is_closed b.is_stopped _ still;
              })
            (λ full.
              if-StaysSafe b.is_stopped _ _ (λ stopped. tt)
                (λ running. record {
                  requests_fit = h.requests_fit;
                  responses_fit = h.responses_fit;
                  few_workers = omega (arith, size, h.few_workers);
                  closed_after = still_open b.is_closed b.is_stopped _ still;
                })))

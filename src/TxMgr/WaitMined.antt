-- ===== src/TxMgr/WaitMined.antt =====
-- txmgr/txmgr.go, WaitMined and waitMined: poll for the receipt until it is confirmed or the context
-- ends. A round is what the backend answers to one query and how the select under it wakes; a list
-- of rounds that ends leaves the loop waiting.
use autopatch.Common.{
  ℕ, ◌+◌, ◌≤◌, ◌≡◌, refl, ◌⊎◌, inl, inr, Bool, Option, none, some, List, [], ◌∷◌, ◌++◌, leb, arith,
  if◌then◌else◌, Option-cases,
}
use autopatch.TxMgr.SendState.{SendState, ErrorText, u64, tx_mined, tx_not_mined}

-- The fields of types.Receipt that are read; block_number is BlockNumber.Uint64().
pub record Receipt : Type 0 where
  pub tx_hash : ℕ
  pub block_number : ℕ

-- The answers of TransactionReceipt (receipt and error) and of BlockNumber (`none` on an error).
pub record Query : Type 0 where
  pub receipt : Option Receipt
  pub err : Option ErrorText
  pub tip_height : Option ℕ

pub data Wake : Type 0 where
  tick done : Wake

pub data Outcome : Type 0 where
  waiting : Outcome
  confirmed : Receipt → Outcome
  ended : Outcome

-- txHeight+numConfirmations <= tipHeight+1, on uint64.
unfoldable pub has_confirmations : ℕ → Receipt → ℕ → Bool
has_confirmations num_confirmations r tip_height =
    leb (u64 (r.block_number + num_confirmations)) (u64 (tip_height + 1))

-- The receipt that a query leads to returning, if any.
unfoldable pub confirms : ℕ → Option Receipt → Option ℕ → Option Receipt
unfolding has_confirmations
confirms num_confirmations none tip = none
confirms num_confirmations (some r) none = none
confirms num_confirmations (some r) (some tip) =
    if has_confirmations num_confirmations r tip then some r else none

-- The calls on the send state, if there is one: TxMined on a receipt, TxNotMined on neither a receipt
-- nor an error.
unfoldable pub report : ℕ → Option SendState → Option Receipt → Option ErrorText → Option SendState
report tx_hash none receipt err = none
report tx_hash (some s) (some r) err = some (tx_mined s tx_hash)
report tx_hash (some s) none (some e) = some s
report tx_hash (some s) none none = some (tx_not_mined s tx_hash)

unfoldable pub wait_mined :
    ℕ → ℕ → Option SendState → List (Query × Wake) → Outcome × Option SendState
wait_mined tx_hash n s [] = (waiting, s)
wait_mined tx_hash n s ((q, wake) ∷ rounds) =
    let s' = report tx_hash s q.receipt q.err in
    let rest : Outcome × Option SendState = elim wake [
      | tick ↦ wait_mined tx_hash n s' rounds
      | done ↦ (ended, s')
    ] in
    elim (confirms n q.receipt q.tip_height) [ some r ↦ (confirmed r, s') | none ↦ rest ]

-- The receipt was answered and had its confirmations in some round.
abbrev pub Evidence : ℕ → Receipt → List (Query × Wake) → Type 0
Evidence n r [] = ⊥
Evidence n r ((q, wake) ∷ rounds) =
    ((t : ℕ) × (q.receipt ≡ some r)
      × (q.tip_height ≡ some t)
      × (u64 (r.block_number + n) ≤ u64 (t + 1)))
    ⊎ Evidence n r rounds

confirms-Evidence :
    (n : ℕ) (r : Receipt) (receipt : Option Receipt) (tip : Option ℕ)
    → confirms n receipt tip ≡ some r
    → (t : ℕ) × (receipt ≡ some r) × (tip ≡ some t) × (u64 (r.block_number + n) ≤ u64 (t + 1))
unfolding confirms
confirms-Evidence n r none tip e = absurd (ground arith)
confirms-Evidence n r (some x) none e = absurd (ground arith)
confirms-Evidence n r (some x) (some t) e = (t, ground arith, refl, ground arith)

-- A receipt that waitMined returns was answered by the backend in some round, in which its height
-- and the confirmations asked for did not pass the tip's successor (uint64 sums).
pub wait_mined-Evidence :
    (tx_hash n : ℕ) (s : Option SendState) (rounds : List (Query × Wake)) (r : Receipt)
    → (wait_mined tx_hash n s rounds).0 ≡ confirmed r
    → Evidence n r rounds
unfolding wait_mined
wait_mined-Evidence tx_hash n s [] r e = absurd (ground arith)
wait_mined-Evidence tx_hash n s ((q, tick) ∷ rounds) r e =
    elim (Option-cases (confirms n q.receipt q.tip_height)) [
      | inl c ↦
          inr (
            wait_mined-Evidence tx_hash n (report tx_hash s q.receipt q.err) rounds r
              (ground arith))
      | inr (x, c) ↦ inl (confirms-Evidence n r q.receipt q.tip_height (ground arith))
    ]
wait_mined-Evidence tx_hash n s ((q, done) ∷ rounds) r e =
    inl (confirms-Evidence n r q.receipt q.tip_height (ground arith))

-- Rounds that end by the ticker with no confirmed receipt.
abbrev pub Unconfirmed : ℕ → List (Query × Wake) → Type 0
Unconfirmed n [] = Unit
Unconfirmed n ((q, wake) ∷ rounds) =
    (confirms n q.receipt q.tip_height ≡ none) × (wake ≡ tick) × Unconfirmed n rounds

-- The first query that finds the receipt confirmed ends the loop with that receipt, whatever errors
-- and missing receipts came before, and whatever follows.
pub wait_mined_returns :
    (tx_hash n : ℕ) (s : Option SendState) (before : List (Query × Wake)) (q : Query) (wake : Wake)
    (after : List (Query × Wake)) (r : Receipt)
    → Unconfirmed n before
    → confirms n q.receipt q.tip_height ≡ some r
    → (wait_mined tx_hash n s (before ++ (q, wake) ∷ after)).0 ≡ confirmed r
unfolding wait_mined
wait_mined_returns tx_hash n s [] q wake after r u c = ground arith
wait_mined_returns tx_hash n s ((p, w) ∷ before) q wake after r u c = ground (
  arith,
  wait_mined_returns tx_hash n (report tx_hash s p.receipt p.err) before q wake after r u.2 c,
)

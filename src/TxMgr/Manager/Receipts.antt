-- ===== src/TxMgr/Manager/Receipts.antt =====
-- txmgr/txmgr.go: where the receipt that Send returns comes from.
use autopatch.Common.{ℕ, ◌≡◌, ◌⊎◌, inl, none, some, List, [], ◌∷◌, arith}
use autopatch.TxMgr.SendState.{ErrorText}
use autopatch.TxMgr.WaitMined.{Receipt, confirms}
use autopatch.TxMgr.Manager.{
  Config, receipt, Manager, Event, ticked, saw_done, received, parent_canceled, priced,
  price_failed, published, queried, woken, stopped, send, step, run,
}

-- The event is a query that finds the receipt with its confirmations.
abbrev pub Confirms : ℕ → Receipt → Event → Type 0
Confirms n r (queried i q) = confirms n q.receipt q.tip_height ≡ some r
Confirms n r _ = ⊥

abbrev pub SomeConfirms : ℕ → Receipt → List Event → Type 0
SomeConfirms n r [] = ⊥
SomeConfirms n r (e ∷ es) = Confirms n r e ⊎ SomeConfirms n r es

-- The receipt is in the channel, or was returned.
abbrev Holds : Receipt → Manager → Type 0
Holds r m = (m.receipt_chan ≡ some r) ⊎ (m.returned ≡ some (receipt r))

step-Holds :
    (low : ErrorText) (m : Manager) (e : Event) (r : Receipt)
    → Holds r (step low m e)
    → Holds r m ⊎ Confirms m.config.num_confirmations r e
unfolding step
step-Holds low m ticked r h = ground arith
step-Holds low m saw_done r h = ground arith
step-Holds low m received r h = ground arith
step-Holds low m parent_canceled r h = ground arith
step-Holds low m (priced i tx) r h = ground arith
step-Holds low m (price_failed i err) r h = ground arith
step-Holds low m (published i none) r h = ground arith
step-Holds low m (published i (some err)) r h = ground arith
step-Holds low m (queried i q) r h = ground arith
step-Holds low m (woken i) r h = ground arith
step-Holds low m (stopped i) r h = ground arith

step-config : (low : ErrorText) (m : Manager) (e : Event) → (step low m e).config ≡ m.config
unfolding step
step-config low m ticked = ground arith
step-config low m saw_done = ground arith
step-config low m received = ground arith
step-config low m parent_canceled = ground arith
step-config low m (priced i tx) = ground arith
step-config low m (price_failed i err) = ground arith
step-config low m (published i none) = ground arith
step-config low m (published i (some err)) = ground arith
step-config low m (queried i q) = ground arith
step-config low m (woken i) = ground arith
step-config low m (stopped i) = ground arith

run-Holds :
    (low : ErrorText) (m : Manager) (es : List Event) (r : Receipt)
    → Holds r (run low m es)
    → Holds r m ⊎ SomeConfirms m.config.num_confirmations r es
unfolding run
run-Holds low m [] r h = inl h
run-Holds low m (e ∷ es) r h =
    ground (arith, run-Holds low (step low m e) es r h, step-Holds low m e r, step-config low m e)

-- A receipt that Send returns was answered, in some query of some attempt, with as many
-- confirmations as the configuration asks for; and so was one that waits in the channel.
pub returned_was_confirmed :
    (low : ErrorText) (c : Config) (m : Manager) (es : List Event) (r : Receipt)
    → send c ≡ some m
    → ((run low m es).receipt_chan ≡ some r) ⊎ ((run low m es).returned ≡ some (receipt r))
    → SomeConfirms c.num_confirmations r es
unfolding send
returned_was_confirmed low c m es r s h = ground (arith, run-Holds low m es r h)

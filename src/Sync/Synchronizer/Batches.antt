-- ===== src/Sync/Synchronizer/Batches.antt =====
-- synchronizer/synchronizer.go: what becomes of a batch of headers.
use autopatch.Common.{ℕ, ◌≡◌, refl, Option, none, some, List, [], ◌∷◌, ◌++◌, arith}
use autopatch.Sync.Headers.{Header}
use autopatch.Sync.Traversal.{Client, headers, next_headers}
use autopatch.Sync.Synchronizer.{
  Work, parse_storage, parse_tx, store_block_headers, error, Backend, process_batch, batch_loop,
  start_header, with_addresses, Synchronizer, tick,
}

-- Headers without a number, which the loop skips.
abbrev pub Unnumbered : List Header → Type 0
Unnumbered [] = Unit
Unnumbered (h ∷ hs) = (h.number ≡ none) × Unnumbered hs

batch_loop_first :
    (b : Backend) (addrs : List ℕ) (skipped : List Header) (h : Header) (hs collected : List Header)
    (n : ℕ)
    → Unnumbered skipped
    → h.number ≡ some n
    → batch_loop b addrs (skipped ++ h ∷ hs) collected ≡ start_header b addrs h
unfolding batch_loop
batch_loop_first b addrs [] h hs collected n u e = ground arith
batch_loop_first b addrs (x ∷ skipped) h hs collected n u e =
    rw u.0 (batch_loop_first b addrs skipped h hs collected n u.1 e)

-- The `return g.Wait()` stands inside the loop: a batch ends at its first header that has a number.
-- With an address to protect, its storage and its transactions are parsed, the headers behind it are
-- not looked at, and no block header is stored.
pub batch_stops_at_first :
    (b : Backend) (a : ℕ) (addrs : List ℕ) (skipped : List Header) (h : Header) (hs : List Header)
    (n : ℕ)
    → b.addresses ≡ some (a ∷ addrs)
    → Unnumbered skipped
    → h.number ≡ some n
    → (process_batch b (skipped ++ h ∷ hs)).0 ≡ parse_storage h ∷ parse_tx a h ∷ []
unfolding process_batch with_addresses start_header
batch_stops_at_first b a addrs [] h hs n l u e = ground arith
batch_stops_at_first b a addrs (x ∷ skipped) h hs n l u e =
    ground (arith, batch_loop_first b (a ∷ addrs) (x ∷ skipped) h hs [] n u e)

-- Of the calls of a batch, the stores of block headers store none.
abbrev pub StoresNothing : List Work → Type 0
StoresNothing [] = Unit
StoresNothing (parse_storage h ∷ ws) = StoresNothing ws
StoresNothing (parse_tx a h ∷ ws) = StoresNothing ws
StoresNothing (store_block_headers hs ∷ ws) = (hs ≡ []) × StoresNothing ws

start_header-StoresNothing :
    (b : Backend) (addrs : List ℕ) (h : Header) → StoresNothing (start_header b addrs h).0
unfolding start_header
start_header-StoresNothing b [] h = tt
start_header-StoresNothing b (a ∷ addrs) h = tt

batch_loop-StoresNothing :
    (b : Backend) (addrs : List ℕ) (hs : List Header) → StoresNothing (batch_loop b addrs hs []).0
unfolding batch_loop
batch_loop-StoresNothing b addrs [] = (refl, tt)
batch_loop-StoresNothing b addrs (h ∷ hs) =
    ground (arith, start_header-StoresNothing b addrs h, batch_loop-StoresNothing b addrs hs)

with_addresses-StoresNothing :
    (b : Backend) (addrs : Option (List ℕ)) (hs : List Header)
    → StoresNothing (with_addresses b addrs hs).0
unfolding with_addresses
with_addresses-StoresNothing b none hs = tt
with_addresses-StoresNothing b (some addrs) hs = batch_loop-StoresNothing b addrs hs

-- No batch ever stores a block header, although the comment over the last step says so.
pub process_batch-StoresNothing :
    (b : Backend) (hs : List Header) → StoresNothing (process_batch b hs).0
unfolding process_batch
process_batch-StoresNothing b [] = tt
process_batch-StoresNothing b (h ∷ hs) = with_addresses-StoresNothing b b.addresses (h ∷ hs)

-- A batch that fails is kept: when the next tick finds no newer headers, it makes the calls of that
-- same batch again.
pub failed_batch_retried :
    (hash : Header → ℕ) (s : Synchronizer) (c c' : Client) (step step' : ℕ) (b b' : Backend)
    (h : Header) (hs : List Header)
    → (next_headers hash s.header_traversal c step).1 ≡ headers (h ∷ hs)
    → (process_batch b (h ∷ hs)).1 ≡ error
    → (next_headers hash (tick hash s c step b).0.header_traversal c' step').1 ≡ headers []
    → (tick hash (tick hash s c step b).0 c' step' b').1 ≡ (process_batch b' (h ∷ hs)).0
unfolding tick
failed_batch_retried hash s c c' step step' b b' h hs e f n = ground arith

-- ===== src/Sync/Synchronizer.antt =====
-- synchronizer/synchronizer.go: where the traversal starts, one tick of the loop, and processBatch.
-- The database and the two parsers are parameters: they say which calls fail. A batch answers the
-- calls that it makes, the two goroutines of a header in the order in which they are started.
pub mod Batches
use autopatch.Common.{ℕ, Bool, true, false, Option, none, some, List, [], ◌∷◌, ltb, if◌then◌else◌}
use autopatch.Common.Int.{ℤ, pos}
use autopatch.Sync.Headers.{Header, Result, ok, err}
use autopatch.Sync.Traversal.{
  Client, HeaderTraversal, Answer, headers, failed, panicked, next_headers, new_header_traversal,
}

pub data Work : Type 0 where
  parse_storage : Header → Work
  parse_tx : ℕ → Header → Work
  store_block_headers : List Header → Work

pub data Outcome : Type 0 where
  done : Outcome
  error : Outcome
  crashed : Outcome

-- QueryProtectedAddAddressList (`none` on an error), and whether a piece of work fails.
pub record Backend : Type 0 where
  pub addresses : Option (List ℕ)
  pub fails : Work → Bool

abbrev pub outcome_of : Bool → Outcome
outcome_of true = error
outcome_of false = done

-- errgroup's Wait over two goroutines.
wait_both : Bool → Bool → Outcome
wait_both true b = error
wait_both false b = outcome_of b

-- The body of the loop for a header that has a number: it starts both goroutines and returns their
-- Wait. addressList[0] of an empty list panics in a goroutine, which ends the program.
start_header : Backend → List ℕ → Header → List Work × Outcome
unfolding wait_both
start_header b [] h = (parse_storage h ∷ [], crashed)
start_header b (a ∷ addrs) h = (
  parse_storage h ∷ parse_tx a h ∷ [],
  wait_both (b.fails (parse_storage h)) (b.fails (parse_tx a h)),
)

-- The loop over the headers, with the block headers collected so far.
batch_loop : Backend → List ℕ → List Header → List Header → List Work × Outcome
unfolding start_header
batch_loop b addrs [] collected =
    (store_block_headers collected ∷ [], outcome_of (b.fails (store_block_headers collected)))
batch_loop b addrs (h ∷ hs) collected =
    let rest = batch_loop b addrs hs collected in
    elim h.number [ none ↦ rest | some n ↦ start_header b addrs h ]

with_addresses : Backend → Option (List ℕ) → List Header → List Work × Outcome
unfolding batch_loop
with_addresses b none hs = ([], error)
with_addresses b (some addrs) hs = batch_loop b addrs hs []

unfoldable pub process_batch : Backend → List Header → List Work × Outcome
unfolding with_addresses
process_batch b [] = ([], done)
process_batch b (h ∷ hs) = with_addresses b b.addresses (h ∷ hs)

pub record Synchronizer : Type 0 where
  pub headers : List Header
  pub header_traversal : HeaderTraversal

-- A header taken from the database, else from the chain at a starting height, else none. `stored` is
-- LatestBlockHeader, `at` the client's BlockHeaderByNumber; `none` is the error that is returned.
unfoldable pub starting_header :
    Result (Option Header) → ℕ → (ℕ → Result Header) → Option (Option Header)
starting_header (err e) height at = none
starting_header (ok (some h)) height at = some (some h)
starting_header (ok none) height at =
    if ltb 0 height then elim (at height) [ ok h ↦ some (some h) | err e ↦ none ] else some none

unfoldable pub new_synchronizer :
    Result (Option Header) → ℕ → (ℕ → Result Header) → Option Synchronizer
unfolding starting_header new_header_traversal
new_synchronizer stored height at = elim (starting_header stored height at) [
  | none ↦ none
  | some from ↦ some (record { headers = []; header_traversal = new_header_traversal from (pos 0) })
]

-- What a tick does after NextHeaders: the headers to process, or `none` where it goes on to the
-- next tick (an error) or the process ends (a panic).
to_process : List Header → Answer → Option (List Header)
to_process old (headers []) = some old
to_process old (headers (h ∷ hs)) = some (h ∷ hs)
to_process old (failed e) = none
to_process old panicked = none

-- syncer.headers after processBatch.
kept : List Header → Outcome → List Header
kept hs done = []
kept hs error = hs
kept hs crashed = hs

finish : Backend → HeaderTraversal → List Header → Option (List Header) → Synchronizer × List Work
unfolding kept
finish b f old none = (record { headers = old; header_traversal = f }, [])
finish b f old (some hs) =
    let (work, out) = process_batch b hs in
    (record { headers = kept hs out; header_traversal = f }, work)

-- One tick of Start, and the calls that it makes.
unfoldable pub tick : (Header → ℕ) → Synchronizer → Client → ℕ → Backend → Synchronizer × List Work
unfolding to_process finish
tick hash s c block_step b =
    let (f, a) = next_headers hash s.header_traversal c block_step in
    finish b f s.headers (to_process s.headers a)

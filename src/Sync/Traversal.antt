-- ===== src/Sync/Traversal.antt =====
-- synchronizer/node/header_traversal.go. The client is an interface, as in the source; Headers has
-- the queries of node.go that implement it. A method returns the new state and its answer.
pub mod Inversion
pub mod Chains
pub mod Bounds
use autopatch.Common.{ℕ, Option, none, some, List, [], ◌∷◌, if◌then◌else◌, ◌==◌}
use autopatch.Common.Int.{ℤ, pos, negsuc, ◌+ℤ◌, ◌-ℤ◌, ltb_ℤ}
use autopatch.Sync.Bigint.{clamp}
use autopatch.Sync.Headers.{Header, Result, ok, err}

pub record Client : Type 0 where
  pub latest : Result (Option Header)
  pub by_range : ℤ → ℤ → Result (List Header)

pub record HeaderTraversal : Type 0 where
  pub latest_header : Option Header
  pub last_traversed_header : Option Header
  pub block_confirmation_depth : ℤ

pub data TraversalError : Type 0 where
  latest_query_failed latest_unreported ahead_of_provider range_query_failed mismatched_state :
      TraversalError

-- `panicked` is a nil pointer dereference.
pub data Answer : Type 0 where
  headers : List Header → Answer
  failed : TraversalError → Answer
  panicked : Answer

unfoldable pub new_header_traversal : Option Header → ℤ → HeaderTraversal
new_header_traversal from depth = record {
  latest_header = none;
  last_traversed_header = from;
  block_confirmation_depth = depth;
}

-- The headers of an answer.
abbrev pub new_of : Answer → List Header
new_of (headers hs) = hs
new_of (failed e) = []
new_of panicked = []

abbrev pub last_of : Header → List Header → Header
last_of h [] = h
last_of h (k ∷ hs) = last_of k hs

-- `hash` is go-ethereum's Header.Hash.
module _ (hash : Header → ℕ) where
  -- From the answer of BlockHeadersByRange on.
  advance : HeaderTraversal → Header → Result (List Header) → HeaderTraversal × Answer
  advance f last (err e) = (f, failed range_query_failed)
  advance f last (ok []) = (f, headers [])
  advance f last (ok (h ∷ hs)) =
      if h.parent_hash == hash last
      then (record f { last_traversed_header = some (last_of h hs) }, headers (h ∷ hs))
      else (f, failed mismatched_state)

  -- From the comparison with the last traversed header on.
  compare_last : HeaderTraversal → Client → ℕ → ℤ → Header → Option ℕ → HeaderTraversal × Answer
  unfolding advance
  compare_last f c max_size end last none = (f, panicked)
  compare_last f c max_size end last (some n) =
      if ltb_ℤ (pos n) end
      then advance f last (c.by_range (pos n +ℤ pos 1) (clamp (pos n +ℤ pos 1) end max_size))
      else if ltb_ℤ end (pos n)
      then (f, failed ahead_of_provider)
      else (f, headers [])

  -- From the subtraction of the confirmation depth on. The log line under it reads the number of the
  -- last traversed header, which panics where there is none.
  below_depth : HeaderTraversal → Client → ℕ → Option ℕ → Option Header → HeaderTraversal × Answer
  unfolding compare_last
  below_depth f c max_size none last = (f, panicked)
  below_depth f c max_size (some n) none = (f, panicked)
  below_depth f c max_size (some n) (some last) =
      let end = pos n -ℤ f.block_confirmation_depth in
      if ltb_ℤ end (pos 0) then (f, headers []) else compare_last f c max_size end last last.number

  from_latest : HeaderTraversal → Client → ℕ → Result (Option Header) → HeaderTraversal × Answer
  unfolding below_depth
  from_latest f c max_size (err e) = (f, failed latest_query_failed)
  from_latest f c max_size (ok none) = (f, failed latest_unreported)
  from_latest f c max_size (ok (some h)) =
      below_depth (record f { latest_header = some h }) c max_size h.number f.last_traversed_header

  unfoldable pub next_headers : HeaderTraversal → Client → ℕ → HeaderTraversal × Answer
  unfolding from_latest
  next_headers f c max_size = from_latest f c max_size c.latest

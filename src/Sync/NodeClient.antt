-- ===== src/Sync/NodeClient.antt =====
-- synchronizer/node/node.go: the queries of Headers fill the interface of the traversal and meet
-- what it asks of a client.
use autopatch.Common.{
  ℕ, zero, suc, ◌+◌, ◌%◌, ◌^◌, ◌≡◌, refl, Option, none, some, List, [], ◌∷◌, length, arith, ap,
  subst,
}
use autopatch.Common.Int.{ℤ, pos, ◌+ℤ◌, ◌-ℤ◌, ◌≤ℤ◌, +ℤ_parts}
use autopatch.Sync.Bigint.{uint64}
use autopatch.Sync.Headers.{
  Header, Result, ok, err, Rpc, block_header_by_number, batch, block_headers_by_range, found,
  filled, one_header,
}
use autopatch.Sync.Traversal.{Client}
use autopatch.Sync.Traversal.Chains.{Follows, pos-suc}

some_header : Result Header → Result (Option Header)
some_header (err e) = err e
some_header (ok h) = ok (some h)

unfoldable pub client_of : Rpc → Client
unfolding some_header
client_of rpc = record {
  latest = some_header (block_header_by_number rpc none);
  by_range = block_headers_by_range rpc;
}

length-batch : (rpc : Rpc) (n : ℕ) (z : ℤ) → length (batch rpc n z) ≡ n
unfolding batch
length-batch rpc zero z = refl
length-batch rpc (suc n) z = ap suc (length-batch rpc n (z +ℤ pos 1))

uint64_diff_le :
    (start end : ℤ)
    → start ≤ℤ end
    → start +ℤ pos ((uint64 (end -ℤ start) + 1) % 2 ^ 64) ≤ℤ end +ℤ pos 1
unfolding ◌+ℤ◌ ◌-ℤ◌
uint64_diff_le start end h = ground arith

one_header-length : (r : Result Header) (hs : List Header) → one_header r ≡ ok hs → length hs ≡ 1
unfolding one_header
one_header-length (err e) hs p = absurd (ground arith)
one_header-length (ok h) hs p = ground arith

-- The client over an RPC connection never answers more headers than the range has blocks, whatever
-- the node answers.
pub client_of-IsBounded :
    (rpc : Rpc) (start end : ℤ) (hs : List Header)
    → start ≤ℤ end
    → (client_of rpc).by_range start end ≡ ok hs
    → start +ℤ pos (length hs) ≤ℤ end +ℤ pos 1
unfolding client_of block_headers_by_range
client_of-IsBounded rpc start end hs le e = ground (
  arith,
  one_header-length (block_header_by_number rpc (some start)) hs,
  length-batch rpc ((uint64 (end -ℤ start) + 1) % 2 ^ 64) start,
  uint64_diff_le start end le,
  +ℤ_parts start (pos 1),
  +ℤ_parts end (pos 1),
)

-- The node answers every element of a batch from one chain of linked blocks, and answers single
-- requests from the same chain.
pub record OneChain (hash : Header → ℕ) (rpc : Rpc) : Type 0 where
  pub block : ℕ → Header
  pub numbered : (n : ℕ) → (block n).number ≡ some n
  pub linked : (n : ℕ) → (block (suc n)).parent_hash ≡ hash (block n)
  pub elements : (n : ℕ) → rpc.element (pos n) ≡ some (block n)
  pub singles : (n : ℕ) → rpc.single (some (pos n)) ≡ ok (some (block n))

module _ (hash : Header → ℕ) (rpc : Rpc) (chain : OneChain hash rpc) where
  batch-Follows : (count n : ℕ) → Follows hash (chain.block n) (batch rpc count (pos n +ℤ pos 1))
  unfolding batch filled
  batch-Follows zero n = tt
  batch-Follows (suc count) n =
      rw (pos-suc n, chain.elements (suc n))
        (
          chain.linked n,
          λ m p. ground (arith, chain.numbered (suc n), chain.numbered n, p),
          batch-Follows count (suc n),
        )

  abbrev StartsAt : ℕ → List Header → Type 0
  StartsAt n [] = Unit
  StartsAt n (h ∷ hs) = (h.number ≡ some n) × Follows hash h hs

  batch-OneChain :
      (count n : ℕ) (h : Header) (hs : List Header)
      → batch rpc count (pos n) ≡ h ∷ hs
      → (h.number ≡ some n) × Follows hash h hs
  unfolding batch filled
  batch-OneChain zero n h hs e = absurd (ground arith)
  batch-OneChain (suc count) n h hs e =
      let whole : chain.block n ∷ batch rpc count (pos n +ℤ pos 1) ≡ h ∷ hs =
        ground (arith, chain.elements n) in
      subst (StartsAt n) whole (chain.numbered n, batch-Follows count n)

  one_header-OneChain :
      (n : ℕ) (h : Header) (hs : List Header)
      → one_header (block_header_by_number rpc (some (pos n))) ≡ ok (h ∷ hs)
      → (h.number ≡ some n) × Follows hash h hs
  unfolding one_header block_header_by_number found
  one_header-OneChain n h hs e =
      let whole : chain.block n ∷ [] ≡ h ∷ hs = ground (arith, chain.singles n) in
      subst (StartsAt n) whole (chain.numbered n, tt)

  -- With a node that answers from one chain, the headers of a range start at the range's start and
  -- are linked, which is what the traversal asks of an orderly client.
  pub client_of-IsOrderly :
      (n : ℕ) (end : ℤ) (h : Header) (hs : List Header)
      → (client_of rpc).by_range (pos n) end ≡ ok (h ∷ hs)
      → (h.number ≡ some n) × Follows hash h hs
  unfolding client_of block_headers_by_range
  client_of-IsOrderly n end h hs e = ground (
    arith,
    one_header-OneChain n h hs,
    batch-OneChain ((uint64 (end -ℤ pos n) + 1) % 2 ^ 64) n h hs,
  )

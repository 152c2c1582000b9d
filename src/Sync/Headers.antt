-- ===== src/Sync/Headers.antt =====
-- synchronizer/node/node.go: block headers and the two queries that the traversal makes. The answers
-- of the node behind the RPC connection are parameters.
use autopatch.Common.{
  ℕ, zero, suc, ◌+◌, ◌%◌, ◌^◌, Option, none, some, List, [], ◌∷◌, if◌then◌else◌, ◌==◌, Bool, false,
}
use autopatch.Common.Int.{ℤ, pos, negsuc, ◌+ℤ◌, ◌-ℤ◌}
use autopatch.Sync.Bigint.{uint64}

-- The fields of types.Header that are read; a nil Number is `none`, as in a header that no answer
-- has filled.
pub record Header : Type 0 where
  pub parent_hash : ℕ
  pub number : Option ℕ
  pub time : ℕ

abbrev pub empty_header : Header
empty_header = record { parent_hash = 0; number = none; time = 0 }

-- The error of a call, by where it comes from.
pub data ClientError : Type 0 where
  call_failed : ClientError
  not_found : ClientError

pub data Result {ℓ} (A : Type ℓ) : Type ℓ where
  ok : A → Result A
  err : ClientError → Result A

-- What the node answers: to a single request (`none` is JSON null), whether a batch goes through,
-- and to each element of a batch (`none` is an error or null, which leaves the header empty).
pub record Rpc : Type 0 where
  pub single : Option ℤ → Result (Option Header)
  pub batch_fails : Bool
  pub element : ℤ → Option Header

unfoldable pub found : Result (Option Header) → Result Header
found (err e) = err e
found (ok none) = err not_found
found (ok (some h)) = ok h

-- BlockHeaderByNumber; a nil number asks for the latest block.
unfoldable pub block_header_by_number : Rpc → Option ℤ → Result Header
unfolding found
block_header_by_number rpc b = found (rpc.single b)

unfoldable pub one_header : Result Header → Result (List Header)
one_header (err e) = err e
one_header (ok h) = ok (h ∷ [])

unfoldable pub filled : Option Header → Header
filled none = empty_header
filled (some h) = h

-- The results of a batch of `count` requests from `height` upwards. The code does not read the
-- error of an element.
unfoldable pub batch : Rpc → ℕ → ℤ → List Header
unfolding filled
batch rpc zero height = []
batch rpc (suc count) height = filled (rpc.element height) ∷ batch rpc count (height +ℤ pos 1)

unfoldable pub same_height : ℤ → ℤ → Bool
same_height (pos a) (pos b) = a == b
same_height (negsuc a) (negsuc b) = a == b
same_height _ _ = false

unfoldable pub block_headers_by_range : Rpc → ℤ → ℤ → Result (List Header)
unfolding one_header block_header_by_number same_height
block_headers_by_range rpc start end =
    if same_height start end
    then one_header (block_header_by_number rpc (some start))
    else if rpc.batch_fails
    then err call_failed
    else ok (batch rpc ((uint64 (end -ℤ start) + 1) % 2 ^ 64) start)

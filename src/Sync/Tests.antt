-- ===== src/Sync/Tests.antt =====
-- The header traversal and the batch loop: the theorems at concrete inputs.
use autopatch.Common.{ℕ, suc, ◌≡◌, refl, Bool, true, false, Option, none, some, [], ◌∷◌}
use autopatch.Common.Int.{ℤ, pos, negsuc, ◌+ℤ◌, ◌-ℤ◌}
use autopatch.Sync.Bigint.{clamp}
use autopatch.Sync.Headers.{
  Header, empty_header, Result, ok, Rpc, batch, block_headers_by_range, block_header_by_number,
}
use autopatch.Sync.NodeClient.{client_of, OneChain, client_of-IsOrderly}
use autopatch.Sync.Traversal.{Client, HeaderTraversal, last_of, next_headers}
use autopatch.Sync.Traversal.Chains.{Follows, IsOrderly, polls, polls-Follows}
use autopatch.Sync.Synchronizer.{
  Work, parse_storage, parse_tx, store_block_headers, Backend, process_batch, Synchronizer, tick,
}
use autopatch.Sync.Synchronizer.Batches.{failed_batch_retried}

-- Block n of a chain whose hashes are the numbers plus one.
abbrev block : ℕ → Header
block n = record { parent_hash = n; number = some n; time = n }

abbrev hash : Header → ℕ
hash h = suc h.parent_hash

abbrev block_at : ℤ → Option Header
block_at (pos n) = some (block n)
block_at (negsuc n) = none

abbrev answer_single : Option ℤ → Result (Option Header)
answer_single none = ok (some (block 9))
answer_single (some z) = ok (block_at z)

abbrev node : Rpc
node = record { single = answer_single; batch_fails = false; element = block_at }

abbrev chain : OneChain hash node
chain = record {
  block = block;
  numbered = λ n. refl;
  linked = λ n. refl;
  elements = λ n. refl;
  singles = λ n. refl;
}

abbrev at_three : HeaderTraversal
at_three = record {
  latest_header = none;
  last_traversed_header = some (block 3);
  block_confirmation_depth = pos 1;
}

orderly : IsOrderly hash (client_of node)
orderly = client_of-IsOrderly hash node chain

polls-Follows_example :
    Follows hash (block 3) (polls hash at_three ((client_of node, 2) ∷ (client_of node, 9) ∷ [])).1
    × ((polls hash at_three
          ((client_of node, 2) ∷ (client_of node, 9) ∷ [])).0.last_traversed_header
        ≡ some (
            last_of
              (block 3)
              (polls hash at_three ((client_of node, 2) ∷ (client_of node, 9) ∷ [])).1))
polls-Follows_example = polls-Follows hash at_three _ (block 3) (orderly, (orderly, tt)) refl

-- The two calls answer all of the blocks 4 to 8.
all_blocks :
    (polls hash at_three ((client_of node, 2) ∷ (client_of node, 9) ∷ [])).1
    ≡ block 4 ∷ block 5 ∷ block 6 ∷ block 7 ∷ block 8 ∷ []
unfolding polls next_headers clamp client_of block_header_by_number block_headers_by_range batch
    ◌+ℤ◌ ◌-ℤ◌
all_blocks = refl

abbrev forked : Client
forked = record { latest = ok (some (block 9)); by_range = λ a b. ok (empty_header ∷ []) }

abbrev nowhere : HeaderTraversal
nowhere = record at_three { last_traversed_header = none }

abbrev fails_tx : Work → Bool
fails_tx (parse_storage h) = false
fails_tx (parse_tx a h) = true
fails_tx (store_block_headers hs) = false

abbrev backend : Backend
backend = record { addresses = some (20 ∷ []); fails = fails_tx }

abbrev syncer : Synchronizer
syncer = record { headers = []; header_traversal = at_three }

abbrev at_head : Client
at_head = record forked { latest = ok (some (block 6)) }

failed_batch_retried_example :
    (tick hash (tick hash syncer (client_of node) 2 backend).0 at_head 2 backend).1
    ≡ (process_batch backend (block 4 ∷ block 5 ∷ [])).0
unfolding tick process_batch next_headers clamp client_of block_header_by_number
    block_headers_by_range batch ◌+ℤ◌ ◌-ℤ◌
failed_batch_retried_example =
    failed_batch_retried hash syncer (client_of node) at_head 2 2 backend backend (block 4)
      (block 5 ∷ []) refl refl refl

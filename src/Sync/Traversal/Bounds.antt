-- ===== src/Sync/Traversal/Bounds.antt =====
-- synchronizer/node/header_traversal.go: how far one call goes.
use autopatch.Common.{◌≡◌, List, length}
use autopatch.Common.Int.{ℤ, pos, ◌+ℤ◌, ◌≤ℤ◌}
use autopatch.Sync.Headers.{Header, ok}
use autopatch.Sync.Traversal.{Client}

-- What is asked of a node: it answers no more headers than the range has blocks.
abbrev pub IsBounded : Client → Type 0
IsBounded c =
    (start end : ℤ) (hs : List Header)
    → start ≤ℤ end
    → c.by_range start end ≡ ok hs
    → start +ℤ pos (length hs) ≤ℤ end +ℤ pos 1

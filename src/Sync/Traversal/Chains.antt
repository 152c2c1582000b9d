-- ===== src/Sync/Traversal/Chains.antt =====
-- synchronizer/node/header_traversal.go: the headers of all answers form one chain.
use autopatch.Common.{ℕ, suc, ◌≡◌, refl, some, List, [], ◌∷◌, ◌++◌, arith, sym, ap, ◌∙◌}
use autopatch.Common.Int.{ℤ, pos, ◌+ℤ◌}
use autopatch.Sync.Headers.{Header, ok}
use autopatch.Sync.Traversal.{
  Client, HeaderTraversal, Answer, headers, failed, panicked, last_of, new_of, next_headers,
}
use autopatch.Sync.Traversal.Inversion.{next_headers-Moved, next_headers_unmoved}

-- Headers that follow `prev` block by block: each names its predecessor's hash, and counts one up.
abbrev pub Follows : (Header → ℕ) → Header → List Header → Type 0
Follows hash prev [] = Unit
Follows hash prev (h ∷ hs) =
    (h.parent_hash ≡ hash prev)
    × ((n : ℕ) → prev.number ≡ some n → h.number ≡ some (suc n))
    × Follows hash h hs

-- What is asked of a node: the headers that it answers for a range start at the range's start and
-- are linked among themselves. It may answer fewer, and on another fork than before.
abbrev pub IsOrderly : (Header → ℕ) → Client → Type 0
IsOrderly hash c =
    (n : ℕ) (end : ℤ) (h : Header) (hs : List Header)
    → c.by_range (pos n) end ≡ ok (h ∷ hs)
    → (h.number ≡ some n) × Follows hash h hs

pub pos-suc : (n : ℕ) → pos n +ℤ pos 1 ≡ pos (suc n)
unfolding ◌+ℤ◌
pos-suc n = ground arith

headers_of-new :
    (a : Answer) (h : Header) (hs : List Header) → new_of a ≡ h ∷ hs → a ≡ headers (h ∷ hs)
headers_of-new (headers ks) h hs e = ap headers e
headers_of-new (failed x) h hs e = absurd (ground arith)
headers_of-new panicked h hs e = absurd (ground arith)

module _ (hash : Header → ℕ) where
  Follows-append :
      (prev : Header) (h : Header) (hs ks : List Header)
      → Follows hash prev (h ∷ hs)
      → Follows hash (last_of h hs) ks
      → Follows hash prev (h ∷ hs ++ ks)
  Follows-append prev h [] ks a b = (a.0, a.1, b)
  Follows-append prev h (k ∷ hs) ks a b = (a.0, a.1, Follows-append h k hs ks a.2 b)

  -- One call: the new headers follow the last traversed one, and their last is the new position.
  next_headers-Follows :
      (f : HeaderTraversal) (c : Client) (max_size : ℕ) (start : Header)
      → IsOrderly hash c
      → f.last_traversed_header ≡ some start
      → (hs : List Header) → new_of (next_headers hash f c max_size).1 ≡ hs
      → Follows hash start hs
        × ((next_headers hash f c max_size).0.last_traversed_header ≡ some (last_of start hs))
  next_headers-Follows f c max_size start o l [] e =
      (tt, next_headers_unmoved hash f c max_size e ∙ l)
  next_headers-Follows f c max_size start o l (h ∷ hs) e =
      let (tip, _, m) = next_headers-Moved hash f c max_size h hs (headers_of-new _ h hs e) in
      let same : m.last ≡ start = cc (m.was_last, l) in
      let from = o (suc m.n) _ h hs (rw (pos-suc m.n) at m.fetched) in
      (
        (m.linked ∙ ap hash same, λ n p. ground (arith, from.0, m.last_number, same, p), from.1),
        m.now_last,
      )

  -- Repeated calls, each with the client as it is then: the last state and all headers answered.
  unfoldable pub polls : HeaderTraversal → List (Client × ℕ) → HeaderTraversal × List Header
  polls f [] = (f, [])
  polls f ((c, max_size) ∷ cs) =
      let (f', a) = next_headers hash f c max_size in
      let (f'', hs) = polls f' cs in (f'', new_of a ++ hs)

  abbrev pub AllOrderly : List (Client × ℕ) → Type 0
  AllOrderly [] = Unit
  AllOrderly ((c, max_size) ∷ cs) = IsOrderly hash c × AllOrderly cs

  Follows-join :
      (start : Header) (hs ks : List Header)
      → Follows hash start hs
      → Follows hash (last_of start hs) ks
      → Follows hash start (hs ++ ks)
  Follows-join start [] ks a b = b
  Follows-join start (h ∷ hs) ks a b = Follows-append start h hs ks a b

  last_of-join :
      (start : Header) (hs ks : List Header)
      → last_of start (hs ++ ks) ≡ last_of (last_of start hs) ks
  last_of-join start [] ks = refl
  last_of-join start (h ∷ hs) ks = last_of-join h hs ks

  -- Whatever the sizes asked for, the errors and the reorganisations between the calls, with orderly
  -- clients the headers that all calls answer form one chain from the starting header, block by
  -- block, and the traversal stands at its last header.
  pub polls-Follows :
      (f : HeaderTraversal) (cs : List (Client × ℕ)) (start : Header)
      → AllOrderly cs
      → f.last_traversed_header ≡ some start
      → Follows hash start (polls f cs).1
        × ((polls f cs).0.last_traversed_header ≡ some (last_of start (polls f cs).1))
  unfolding polls
  polls-Follows f [] start o l = (tt, l)
  polls-Follows f ((c, m) ∷ cs) start o l =
      let hs = new_of (next_headers hash f c m).1 in
      let (fol, now) = next_headers-Follows f c m start o.0 l hs refl in
      let (fol', now') = polls-Follows (next_headers hash f c m).0 cs (last_of start hs) o.1 now in
      (Follows-join start hs _ fol fol', now' ∙ ap some (sym (last_of-join start hs _)))

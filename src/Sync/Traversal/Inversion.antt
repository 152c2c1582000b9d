-- ===== src/Sync/Traversal/Inversion.antt =====
-- synchronizer/node/header_traversal.go: what a call of NextHeaders that answers
-- headers has checked and fetched, and that any other call stays where it was.
use autopatch.Common.{ℕ, ◌≡◌, refl, inl, inr, Option, none, some, List, [], ◌∷◌, Bool-cases, arith}
use autopatch.Common.Int.{ℤ, pos, ◌+ℤ◌, ◌-ℤ◌, ltb_ℤ, +ℤ_parts, ◌≤ℤ◌}
use autopatch.Sync.Bigint.{clamp}
use autopatch.Sync.Headers.{Header, Result, ok, err}
use autopatch.Sync.Traversal.{
  Client, HeaderTraversal, advance, compare_last, below_depth, from_latest, headers, panicked,
  last_of, new_of, next_headers,
}

module _ (hash : Header → ℕ) where
  advance-Moved :
      (f : HeaderTraversal) (last : Header) (r : Result (List Header)) (h : Header)
      (hs : List Header)
      → (advance hash f last r).1 ≡ headers (h ∷ hs)
      → (r ≡ ok (h ∷ hs))
        × (h.parent_hash ≡ hash last)
        × ((advance hash f last r).0.last_traversed_header ≡ some (last_of h hs))
  unfolding advance
  advance-Moved f last (err x) h hs e = absurd (ground arith)
  advance-Moved f last (ok []) h hs e = absurd (ground arith)
  advance-Moved f last (ok (x ∷ xs)) h hs e = ground arith

  -- What a call that answers headers has checked and fetched, from a tip of number `k` on.
  pub record Moved (was : Option Header) (depth : ℤ) (c : Client) (max_size : ℕ) (tip : Option ℕ)
      (h : Header) (hs : List Header) (f' : HeaderTraversal) : Type 0 where
    pub last : Header
    pub n : ℕ
    pub k : ℕ
    pub was_last : was ≡ some last
    pub last_number : last.number ≡ some n
    pub tip_number : tip ≡ some k
    pub below : pos n +ℤ pos 1 ≤ℤ pos k -ℤ depth
    pub fetched :
        c.by_range (pos n +ℤ pos 1) (clamp (pos n +ℤ pos 1) (pos k -ℤ depth) max_size) ≡ ok (h ∷ hs)
    pub linked : h.parent_hash ≡ hash last
    pub now_last : f'.last_traversed_header ≡ some (last_of h hs)

  compare_last-Moved :
      (f : HeaderTraversal) (c : Client) (max_size k : ℕ) (last : Header) (num : Option ℕ)
      (h : Header) (hs : List Header)
      → let end = pos k -ℤ f.block_confirmation_depth in
        f.last_traversed_header ≡ some last
        → last.number ≡ num
        → (compare_last hash f c max_size end last num).1 ≡ headers (h ∷ hs)
        → Moved f.last_traversed_header f.block_confirmation_depth c max_size
            (some k)
            h
            hs
            (compare_last hash f c max_size end last num).0
  unfolding compare_last
  compare_last-Moved f c max_size k last none h hs l n e = absurd (ground arith)
  compare_last-Moved f c max_size k last (some m) h hs l n e =
      let end = pos k -ℤ f.block_confirmation_depth in
      let r = c.by_range (pos m +ℤ pos 1) (clamp (pos m +ℤ pos 1) end max_size) in
      record {
        last = last;
        n = m;
        k = k;
        was_last = l;
        last_number = n;
        tip_number = refl;
        below = ground (arith, +ℤ_parts (pos m) (pos 1));
        fetched = ground (arith, advance-Moved f last r h hs);
        linked = ground (arith, advance-Moved f last r h hs);
        now_last = ground (arith, advance-Moved f last r h hs);
      }

  below_depth-Moved :
      (f : HeaderTraversal) (c : Client) (max_size : ℕ) (tip : Option ℕ) (last : Option Header)
      (h : Header) (hs : List Header)
      → f.last_traversed_header ≡ last
      → (below_depth hash f c max_size tip last).1 ≡ headers (h ∷ hs)
      → Moved f.last_traversed_header f.block_confirmation_depth c max_size tip h hs
          (below_depth hash f c max_size tip last).0
  unfolding below_depth
  below_depth-Moved f c max_size none last h hs l e = absurd (ground arith)
  below_depth-Moved f c max_size (some k) none h hs l e = absurd (ground arith)
  below_depth-Moved f c max_size (some k) (some last) h hs l e =
      elim (Bool-cases (ltb_ℤ (pos k -ℤ f.block_confirmation_depth) (pos 0))) [
        | inl low ↦ absurd (ground arith)
        | inr high ↦
            rw high (compare_last-Moved f c max_size k last last.number h hs l refl (rw high at e))
      ]

  from_latest-Moved :
      (f : HeaderTraversal) (c : Client) (max_size : ℕ) (r : Result (Option Header)) (h : Header)
      (hs : List Header)
      → (from_latest hash f c max_size r).1 ≡ headers (h ∷ hs)
      → (tip : Header) × (r ≡ ok (some tip))
        × Moved f.last_traversed_header f.block_confirmation_depth c max_size tip.number h hs
            (from_latest hash f c max_size r).0
  unfolding from_latest
  from_latest-Moved f c max_size (err x) h hs e = absurd (ground arith)
  from_latest-Moved f c max_size (ok none) h hs e = absurd (ground arith)
  from_latest-Moved f c max_size (ok (some tip)) h hs e = (
    tip,
    refl,
    below_depth-Moved (record f { latest_header = some tip }) c max_size tip.number
        f.last_traversed_header h hs refl e,
  )

  pub next_headers-Moved :
      (f : HeaderTraversal) (c : Client) (max_size : ℕ) (h : Header) (hs : List Header)
      → (next_headers hash f c max_size).1 ≡ headers (h ∷ hs)
      → (tip : Header) × (c.latest ≡ ok (some tip))
        × Moved f.last_traversed_header f.block_confirmation_depth c max_size tip.number h hs
            (next_headers hash f c max_size).0
  unfolding next_headers
  next_headers-Moved f c max_size h hs e = from_latest-Moved f c max_size c.latest h hs e

  advance-unmoved :
      (f : HeaderTraversal) (last : Header) (r : Result (List Header))
      → new_of (advance hash f last r).1 ≡ []
      → (advance hash f last r).0.last_traversed_header ≡ f.last_traversed_header
  unfolding advance
  advance-unmoved f last (err x) e = refl
  advance-unmoved f last (ok []) e = refl
  advance-unmoved f last (ok (x ∷ xs)) e = ground arith

  compare_last-unmoved :
      (f : HeaderTraversal) (c : Client) (max_size : ℕ) (end : ℤ) (last : Header) (num : Option ℕ)
      → new_of (compare_last hash f c max_size end last num).1 ≡ []
      → (compare_last hash f c max_size end last num).0.last_traversed_header
        ≡ f.last_traversed_header
  unfolding compare_last
  compare_last-unmoved f c max_size end last none e = refl
  compare_last-unmoved f c max_size end last (some m) e = ground (
    arith,
    advance-unmoved f last (c.by_range (pos m +ℤ pos 1) (clamp (pos m +ℤ pos 1) end max_size)),
  )

  -- A call that answers no headers, with an error or without, leaves the position as it was, so that
  -- the next call starts from the same header.
  pub next_headers_unmoved :
      (f : HeaderTraversal) (c : Client) (max_size : ℕ)
      → new_of (next_headers hash f c max_size).1 ≡ []
      → (next_headers hash f c max_size).0.last_traversed_header ≡ f.last_traversed_header
  unfolding next_headers from_latest below_depth
  next_headers_unmoved f c max_size e = grind (arith, compare_last-unmoved)

  -- The panic: without a header to start from, every call that gets a latest header dereferences nil.
  pub next_headers_panics :
      (f : HeaderTraversal) (c : Client) (max_size : ℕ) (tip : Header)
      → f.last_traversed_header ≡ none
      → c.latest ≡ ok (some tip)
      → (next_headers hash f c max_size).1 ≡ panicked
  unfolding next_headers from_latest below_depth
  next_headers_panics f c max_size tip l t = ground arith

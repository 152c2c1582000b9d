-- ===== src/Config/Patterns.antt =====
-- tracing/config/config_validation.go: the regular expressions, which are literals of the source, and
-- strings.ToLower. A text is the list of its characters.
use autopatch.Common.{
  ℕ, ◌+◌, Bool, true, false, ◌&&◌, ◌||◌, not, List, [], ◌∷◌, length, map, drop, leb, ◌==◌,
  if◌then◌else◌,
}
use autopatch.Common.Text.{codes, has_prefix}

abbrev pub is_hex_digit : ℕ → Bool
is_hex_digit c = (leb 97 c && leb c 102) || (leb 65 c && leb c 70) || (leb 48 c && leb c 57)

abbrev pub all_of : (ℕ → Bool) → List ℕ → Bool
all_of p [] = true
all_of p (c ∷ cs) = p c && all_of p cs

-- ^0x[a-fA-F0-9]{40}$
unfoldable pub matches_address : List ℕ → Bool
matches_address s =
    has_prefix s (codes "0x") && length (drop 2 s) == 40 && all_of is_hex_digit (drop 2 s)

-- \s
abbrev pub is_space : ℕ → Bool
is_space c = c == 9 || c == 10 || c == 12 || c == 13 || c == 32

-- [^\s/$.?#]
abbrev pub is_host_start : ℕ → Bool
is_host_start c = not (is_space c || c == b'/' || c == b'$' || c == b'.' || c == b'?' || c == b'#')

-- ://[^\s/$.?#].[^\s]*$, where the dot is any character but a line feed.
unfoldable pub matches_host : List ℕ → Bool
matches_host (a ∷ b ∷ c ∷ host ∷ any ∷ rest) =
    has_prefix (a ∷ b ∷ c ∷ []) (codes "://")
    && is_host_start host
    && not (any == 10)
    && all_of (λ x. not (is_space x)) rest
matches_host _ = false

-- ^https?://[^\s/$.?#].[^\s]*$
unfoldable pub matches_url : List ℕ → Bool
unfolding matches_host
matches_url s =
    if has_prefix s (codes "https")
    then matches_host (drop 5 s)
    else has_prefix s (codes "http") && matches_host (drop 4 s)

-- strings.ToLower, which is called on texts that match an address only.
unfoldable pub to_lower : List ℕ → List ℕ
to_lower s = map (λ c. if leb 65 c && leb c 90 then c + 32 else c) s

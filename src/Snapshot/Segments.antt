-- ===== src/Snapshot/Segments.antt =====
-- internal/snapshot/downloader.go and server.go: the paths that a request takes to the handler as they are written. `net/http` is
-- not part of the program; it cuts an address at `?` and `#`, decodes `%` and redirects a path with a segment `..`, `.` or none.
use Prim.Native.Char.{code}
use Prim.Native.String.{[], ◌∷◌}
use eth_node_operator.Common.{
  ℕ, String, ◌<>◌, ◌≡◌, refl, Bool, true, false, not, ◌&&◌, ◌||◌, List, eqb, leb, ◌==◌, arith,
}
use eth_node_operator.Common.Text.Cut.{Lacks, has_char}
use eth_node_operator.Common.Text.Split.{Lacks-has_char}

abbrev pub within : ℕ → ℕ → ℕ → Bool
within low high c = leb low c && leb c high

-- Letters, digits, `-`, `.` and `_`.
abbrev pub is_plain : ℕ → Bool
is_plain c =
    within b'a' b'z' c
    || within b'A' b'Z' c
    || within b'0' b'9' c
    || within b'-' b'.' c
    || eqb c b'_'

abbrev pub plain_chars : String → Bool
plain_chars [] = true
plain_chars (c ∷ s) = is_plain (code c) && plain_chars s

abbrev pub is_segment : String → Bool
is_segment s = not (s == "") && not (s == ".") && not (s == "..") && plain_chars s

abbrev pub path_of : List String → String
path_of List.[] = ""
path_of (List.◌∷◌ s ss) = "/" <> s <> path_of ss

plain_lem : (c : ℕ) → is_plain c ≡ true → eqb c b'/' ≡ false
plain_lem c h = ground (arith, h)

plain_chars-has_char : (s : String) → plain_chars s ≡ true → has_char b'/' s ≡ false
plain_chars-has_char [] h = refl
plain_chars-has_char (c ∷ s) h = ground (arith, h, plain_lem (code c), plain_chars-has_char s)

pub segment-Lacks : (s : String) → is_segment s ≡ true → Lacks b'/' s
segment-Lacks s h = Lacks-has_char b'/' s (plain_chars-has_char s (ground (arith, h)))

-- ===== src/Jwt/Hex.antt =====
-- Go's package encoding/hex, as internal/jwt/manager.go uses it, and the length of a text in bytes.
use Prim.Native.Char.{Char, code}
use Prim.Native.Nat.{ℕ, ◌+◌, ◌/◌, ◌%◌}
use Prim.Native.String.{String, [], ◌∷◌, char_at}
use mathlib.Core.Bool.{Bool, true, ◌&&◌, ◌||◌}
use mathlib.Core.List.{List}
use eth_node_operator.Common.{ltb, leb, if◌then◌else◌}

-- The bytes of a character in UTF-8.
char_width : ℕ → ℕ
char_width c = if ltb c 0x80 then 1 else if ltb c 0x800 then 2 else if ltb c 0x10000 then 3 else 4

-- `len(s)`
unfoldable pub byte_length : String → ℕ
unfolding char_width
byte_length [] = 0
byte_length (c ∷ s) = char_width (code c) + byte_length s

-- A digit, of either case.
abbrev pub is_hex : ℕ → Bool
is_hex c = (leb b'0' c && leb c b'9') || (leb b'a' c && leb c b'f') || (leb b'A' c && leb c b'F')

-- Whether `hex.DecodeString` takes a text of an even length.
unfoldable pub all_hex : String → Bool
all_hex [] = true
all_hex (c ∷ s) = is_hex (code c) && all_hex s

unfoldable pub hex_digit : ℕ → Char
hex_digit n = char_at "0123456789abcdef" n

-- `hex.EncodeToString`
unfoldable pub hex_encode : List ℕ → String
unfolding hex_digit
hex_encode List.[] = []
hex_encode (List.◌∷◌ b bs) = hex_digit (b / 16) ∷ hex_digit (b % 16) ∷ hex_encode bs

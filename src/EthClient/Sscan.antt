-- ===== src/EthClient/Sscan.antt =====
-- Go's `fmt.Sscanf` with the formats `0x%x` and `%d`, as pkg/ethclient/client.go uses it: `none` where it leaves the variable as it is.
use Prim.Native.Char.{Char, code}
use Prim.Native.Nat.{◌^◌}
use Prim.Native.String.{[], ◌∷◌}
use eth_node_operator.Common.{
  ℕ, zero, suc, ◌+◌, ◌-◌, ◌*◌, String, ◌&&◌, Option, none, some, if◌then◌else◌, ltb, leb, eqb,
}
use eth_node_operator.Common.Int.{ℤ, pos, negsuc}
use eth_node_operator.Common.Text.{strip_prefix, is_space}

abbrev pub decimal_digit : Char → Option ℕ
decimal_digit c = if leb b'0' (code c) && leb (code c) b'9' then some (code c - b'0') else none

abbrev pub hex_value : Char → Option ℕ
hex_value c =
    if leb b'0' (code c) && leb (code c) b'9'
    then some (code c - b'0')
    else if leb b'a' (code c) && leb (code c) b'f'
    then some (code c - b'a' + 10)
    else if leb b'A' (code c) && leb (code c) b'F'
    then some (code c - b'A' + 10)
    else none

-- The value of the digits that come next, up to the first other character.
unfoldable pub digits_value : (Char → Option ℕ) → ℕ → ℕ → String → ℕ
digits_value digit base n [] = n
digits_value digit base n (c ∷ s) = elim (digit c) [
  | none ↦ n
  | some d ↦ digits_value digit base (n * base + d) s
]

-- A number has a digit.
abbrev pub number : (Char → Option ℕ) → ℕ → String → Option ℕ
number digit base [] = none
number digit base (c ∷ s) = elim (digit c) [
  | none ↦ none
  | some d ↦ some (digits_value digit base d s)
]

-- Spaces are passed over, but not a line's end.
unfoldable pub skip_space : String → String
skip_space [] = []
skip_space (c ∷ s) =
    let rest = skip_space s in if eqb (code c) b'\n' then [] else if is_space c then rest else c ∷ s

abbrev pub under : ℕ → Option ℕ → Option ℕ
under bound none = none
under bound (some n) = if ltb n bound then some n else none

abbrev pub to_pos : Option ℕ → Option ℤ
to_pos none = none
to_pos (some n) = some (pos n)

abbrev pub to_neg : Option ℕ → Option ℤ
to_neg none = none
to_neg (some zero) = some (pos 0)
to_neg (some (suc n)) = some (negsuc n)

abbrev pub unsigned : (Char → Option ℕ) → ℕ → String → Option ℕ
unsigned digit base s = under (2 ^ 64) (number digit base (skip_space s))

abbrev pub signed_from : (Char → Option ℕ) → ℕ → String → Option ℤ
signed_from digit base [] = none
signed_from digit base (c ∷ s) =
    if eqb (code c) b'-'
    then to_neg (under (2 ^ 63 + 1) (number digit base s))
    else if eqb (code c) b'+'
    then to_pos (under (2 ^ 63) (number digit base s))
    else to_pos (under (2 ^ 63) (number digit base (c ∷ s)))

abbrev pub signed : (Char → Option ℕ) → ℕ → String → Option ℤ
signed digit base s = signed_from digit base (skip_space s)

unfoldable pub scan_hex_uint : String → Option ℕ
unfolding digits_value skip_space
scan_hex_uint s = elim (strip_prefix "0x" s) [
  | none ↦ none
  | some rest ↦ unsigned hex_value 16 rest
]

unfoldable pub scan_hex_int : String → Option ℤ
unfolding digits_value skip_space
scan_hex_int s = elim (strip_prefix "0x" s) [ none ↦ none | some rest ↦ signed hex_value 16 rest ]

unfoldable pub scan_uint : String → Option ℕ
unfolding digits_value skip_space
scan_uint s = unsigned decimal_digit 10 s

unfoldable pub scan_int : String → Option ℤ
unfolding digits_value skip_space
scan_int s = signed decimal_digit 10 s

abbrev pub or_zero : Option ℕ → ℕ
or_zero none = 0
or_zero (some n) = n

abbrev pub or_int_zero : Option ℤ → ℤ
or_int_zero none = pos 0
or_int_zero (some n) = n

-- ===== src/Common/Int.antt =====
-- Go's `int`, as a mathematical integer: the program compares and prints its integers, and adds to
-- none of them.
use Prim.Native.Char.{code}
use Prim.Native.Nat.{ℕ, zero, suc, ◌+◌, ◌-◌, ◌*◌, ◌^◌}
use Prim.Native.String.{String, [], ◌∷◌, ◌++◌}
use mathlib.Core.Path.{◌≡◌, refl}
use mathlib.Core.Logic.{◌↔◌}
use mathlib.Core.Bool.{Bool, true, false, not, ◌&&◌}
use mathlib.Core.Option.{Option, none, some}
use native.Mathlib.Omega.{arith}
use eth_node_operator.Common.Tests.{ltb, leb, eqb, if◌then◌else◌}
use eth_node_operator.Common.Text.{decimal}

-- `negsuc n` is -(n + 1).
pub data ℤ : Type 0 where
  pos : ℕ → ℤ
  negsuc : ℕ → ℤ

abbrev pub int_eq : ℤ → ℤ → Bool
int_eq (pos a) (pos b) = eqb a b
int_eq (negsuc a) (negsuc b) = eqb a b
int_eq (pos a) (negsuc b) = false
int_eq (negsuc a) (pos b) = false

abbrev pub int_ltb : ℤ → ℤ → Bool
int_ltb (pos a) (pos b) = ltb a b
int_ltb (negsuc a) (negsuc b) = ltb b a
int_ltb (pos a) (negsuc b) = false
int_ltb (negsuc a) (pos b) = true

-- `%d`
unfoldable pub show_int : ℤ → String
unfolding decimal
show_int (pos n) = decimal n
show_int (negsuc n) = "-" ++ decimal (suc n)

-- `a <= b`
abbrev pub int_leb : ℤ → ℤ → Bool
int_leb a b = not (int_ltb b a)

-- The value of a text of decimal digits, after a value that is read.
digits_from : ℕ → String → Option ℕ
digits_from n [] = some n
digits_from n (c ∷ s) =
    let rest = digits_from (n * 10 + (code c - b'0')) s in
    if leb b'0' (code c) && leb (code c) b'9' then rest else none

-- A number has a digit.
unsigned : String → Option ℕ
unfolding digits_from
unsigned [] = none
unsigned (c ∷ s) = digits_from 0 (c ∷ s)

-- `-n`, in the range of a 64-bit `int`.
negative : Option ℕ → Option ℤ
negative none = none
negative (some zero) = some (pos 0)
negative (some (suc n)) = if ltb n (2 ^ 63) then some (negsuc n) else none

positive : Option ℕ → Option ℤ
positive none = none
positive (some n) = if ltb n (2 ^ 63) then some (pos n) else none

-- `strconv.Atoi`
unfoldable pub atoi : String → Option ℤ
unfolding unsigned negative positive
atoi [] = none
atoi (c ∷ s) =
    if eqb (code c) b'-'
    then negative (unsigned s)
    else if eqb (code c) b'+'
    then positive (unsigned s)
    else positive (unsigned (c ∷ s))

-- `strconv.ParseUint(s, 10, 64)`
abbrev in_uint64 : Option ℕ → Option ℕ
in_uint64 none = none
in_uint64 (some n) = if ltb n (2 ^ 64) then some n else none

unfoldable pub parse_uint : String → Option ℕ
unfolding unsigned
parse_uint s = in_uint64 (unsigned s)

atoi_test : atoi "-059" ≡ some (negsuc 58)
unfolding atoi
atoi_test = refl

pub int_eq_iff : (a b : ℤ) → (int_eq a b ≡ true) ↔ (a ≡ b)
int_eq_iff a b = ground arith

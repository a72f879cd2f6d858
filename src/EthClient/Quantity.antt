-- ===== src/EthClient/Quantity.antt =====
-- pkg/ethclient/client.go: the reading of a quantity that a node writes, hexadecimal digits after `0x`.
use Prim.Native.Char.{Char, code}
use Prim.Native.Nat.{◌^◌, ◌<◌, ◌/◌, ◌%◌}
use Prim.Native.String.{[], ◌∷◌}
use eth_node_operator.Common.{
  ℕ, zero, suc, ◌+◌, ◌*◌, String, ◌<>◌, ◌≡◌, refl, sym, ap, ◌∙◌, not, ◌&&◌, both, Bool, true, false,
  Bool-cases, inl, inr, Option, none, some, if◌then◌else◌, ltb, eqb, ok, arith, eqb_iff, ltb→lt,
  all_below-true,
}
use eth_node_operator.Common.Text.{is_space}
use eth_node_operator.Common.Text.Cut.{strip_prefix_self}
use eth_node_operator.Jwt.Hex.{hex_digit}
use eth_node_operator.EthClient.{Wire, Client, call, el_block_number}
use eth_node_operator.EthClient.Sscan.{
  hex_value, digits_value, number, skip_space, scan_hex_uint, under, or_zero,
}

-- The digits of a number, in front of those that are already written.
hex_from : ℕ → ℕ → String → String
hex_from zero n acc = acc
hex_from (suc fuel) n acc =
    let rest = hex_from fuel (n / 16) (hex_digit (n % 16) ∷ acc) in
    if ltb n 16 then hex_digit n ∷ acc else rest

-- The hexadecimal digits of a number; each round divides by sixteen.
unfoldable pub hex : ℕ → String
unfolding hex_from
hex n = hex_from (suc n) n []

is_value : Option ℕ → ℕ → Bool
is_value none n = false
is_value (some m) n = eqb m n

is_value-some : (o : Option ℕ) (n : ℕ) → is_value o n ≡ true → o ≡ some n
unfolding is_value
is_value-some none n h = cc
is_value-some (some m) n h = ap some ((eqb_iff m n).0 h)

hex_value-hex_digit : (n : ℕ) → n < 16 → hex_value (hex_digit n) ≡ some n
unfolding hex_digit is_value
hex_value-hex_digit n lt =
    is_value-some _ n (all_below-true (λ k. is_value (hex_value (hex_digit k)) k) 16 refl n lt)

digits_value-cons :
    (digit : Char → Option ℕ) (base n : ℕ) (c : Char) (s : String) (d : ℕ)
    → digit c ≡ some d
    → digits_value digit base n (c ∷ s) ≡ digits_value digit base (n * base + d) s
unfolding digits_value
digits_value-cons digit base n c s d e = rw (digits_value, e) refl

digits-hex_from :
    (fuel n : ℕ) (acc : String)
    → n < fuel
    → digits_value hex_value 16 0 (hex_from fuel n acc) ≡ digits_value hex_value 16 n acc
unfolding hex_from
digits-hex_from zero n acc lt = absurd (omega (arith, lt))
digits-hex_from (suc fuel) n acc lt = elim (Bool-cases (ltb n 16)) [
  | inl small ↦ rw small (
      digits_value-cons hex_value 16 0 (hex_digit n) acc n
        (hex_value-hex_digit n (ltb→lt n 16 small))
      ∙ ap (λ m. digits_value hex_value 16 m acc) (omega arith))
  | inr large ↦ rw large (
      digits-hex_from fuel (n / 16) (hex_digit (n % 16) ∷ acc) (ground (arith, lt, large))
      ∙ digits_value-cons hex_value 16 (n / 16) (hex_digit (n % 16)) acc (n % 16)
          (hex_value-hex_digit (n % 16) (omega arith))
      ∙ ap (λ m. digits_value hex_value 16 m acc) (omega arith))
]

-- A text that starts with a hexadecimal digit.
record Digits (s : String) : Type 0 where
  first : ℕ
  small : first < 16
  rest : String
  shape : s ≡ hex_digit first ∷ rest

hex_from-Digits :
    (fuel n : ℕ) (d : ℕ) (acc : String) → d < 16 → Digits (hex_from fuel n (hex_digit d ∷ acc))
unfolding hex_from
hex_from-Digits zero n d acc lt = record { first = d; small = lt; rest = acc; shape = refl }
hex_from-Digits (suc fuel) n d acc lt = elim (Bool-cases (ltb n 16)) [
  | inl small ↦
      rw small
        (record { first = n; small = ltb→lt n 16 small; rest = hex_digit d ∷ acc; shape = refl })
  | inr large ↦ rw large (hex_from-Digits fuel (n / 16) (n % 16) (hex_digit d ∷ acc) (omega arith))
]

hex-Digits : (n : ℕ) → Digits (hex n)
unfolding hex hex_from
hex-Digits n = elim (Bool-cases (ltb n 16)) [
  | inl small ↦ rw small (record { first = n; small = ltb→lt n 16 small; rest = []; shape = refl })
  | inr large ↦ rw large (hex_from-Digits n (n / 16) (n % 16) [] (omega arith))
]

is_solid : ℕ → Bool
is_solid n = not (eqb (code (hex_digit n)) b'\n') && not (is_space (hex_digit n))

skip_space-cons :
    (c : Char) (s : String)
    → eqb (code c) b'\n' ≡ false
    → is_space c ≡ false
    → skip_space (c ∷ s) ≡ c ∷ s
unfolding skip_space
skip_space-cons c s l h = rw (l, h) refl

skip_space-digit : (n : ℕ) (s : String) → n < 16 → skip_space (hex_digit n ∷ s) ≡ hex_digit n ∷ s
unfolding is_solid hex_digit is_space
skip_space-digit n s lt =
    let (l, h) =
      both (not (eqb (code (hex_digit n)) b'\n')) (not (is_space (hex_digit n)))
        (all_below-true is_solid 16 refl n lt) in
    skip_space-cons (hex_digit n) s (ground (arith, l)) (ground (arith, h))

number-cons :
    (digit : Char → Option ℕ) (base : ℕ) (c : Char) (s : String) (d : ℕ)
    → digit c ≡ some d
    → number digit base (c ∷ s) ≡ some (digits_value digit base d s)
number-cons digit base c s d e = rw (number, e) refl

number-Digits :
    (s : String)
    → Digits s
    → number hex_value 16 (skip_space s) ≡ some (digits_value hex_value 16 0 s)
number-Digits s ds =
    let known = hex_value-hex_digit ds.first ds.small in
    rw ds.shape (
      ap (number hex_value 16) (skip_space-digit ds.first ds.rest ds.small)
      ∙ number-cons hex_value 16 (hex_digit ds.first) ds.rest ds.first known
      ∙ ap some (
          ap (λ m. digits_value hex_value 16 m ds.rest) (omega arith)
          ∙ sym (digits_value-cons hex_value 16 0 (hex_digit ds.first) ds.rest ds.first known)))

number-hex : (n : ℕ) → number hex_value 16 (skip_space (hex n)) ≡ some n
unfolding hex digits_value
number-hex n =
    number-Digits (hex n) (hex-Digits n) ∙ ap some (digits-hex_from (suc n) n [] (omega arith))

scan_hex_uint-hex : (n : ℕ) → scan_hex_uint ("0x" <> hex n) ≡ under (2 ^ 64) (some n)
unfolding scan_hex_uint
scan_hex_uint-hex n =
    rw (scan_hex_uint, strip_prefix_self "0x" (hex n)) (ap (under (2 ^ 64)) (number-hex n))

clamped : (n : ℕ) → or_zero (under (2 ^ 64) (some n)) ≡ (if ltb n (2 ^ 64) then n else 0)
clamped n = ground arith

-- If the call for the block number gives the text `0x` and the hexadecimal digits of a number, then `ELBlockNumber` returns that number
-- if it is below 2^64, and 0 without an error if it is not.
pub el_block_number-hex :
    {W : Type 0} (wire : Wire W) (c : Client) (n : ℕ) (w w' : W)
    → call wire c c.el_url "eth_blockNumber" wire.decode_text w ≡ (ok ("0x" <> hex n), w')
    → el_block_number wire c w ≡ (ok (if ltb n (2 ^ 64) then n else 0), w')
unfolding el_block_number
el_block_number-hex wire c n w w' e =
    rw e (ap (λ k. (ok k, w')) (ap or_zero (scan_hex_uint-hex n) ∙ clamped n))

-- ===== src/Jwt/Encoding.antt =====
-- internal/jwt/manager.go: the texts that `Generate` writes.
use Prim.Native.Char.{code}
use Prim.Native.Nat.{ℕ, ◌+◌, ◌/◌, ◌%◌, ◌<◌}
use Prim.Native.String.{String, ◌++◌, char_at}
use text.Mathlib.TextLemmas.{nil-append, cons-append}
use eth_node_operator.Common.{
  ◌≡◌, refl, subst, sym, ap, ◌∙◌, Bool, true, false, not, ◌&&◌, both, all_below-true, List, [], ◌∷◌,
  All, length, ltb, ltb→lt, eqb_iff, arith, none, some, ok, err,
}
use eth_node_operator.Common.Text.{is_space, strip_prefix, trim_space}
use eth_node_operator.Common.Text.Trim.{NoSpace, trim_space-append}
use eth_node_operator.Jwt.{Host, validate, validate_hex}
use eth_node_operator.Jwt.Hex.{is_hex, all_hex, hex_digit, hex_encode, byte_length}

and-true : (a b : Bool) → a ≡ true → b ≡ true → a && b ≡ true
and-true true b h k = k
and-true false b h k = cc

abbrev is_plain : ℕ → Bool
is_plain n =
    ltb (code (hex_digit n)) 0x80 && (is_hex (code (hex_digit n)) && not (is_space (hex_digit n)))

hex_digit-plain : (n : ℕ) → n < 16 → is_plain n ≡ true
unfolding hex_digit is_space
hex_digit-plain = all_below-true is_plain 16 refl

not-false : (b : Bool) → not b ≡ true → b ≡ false
not-false true h = cc
not-false false h = refl

record Plain (n : ℕ) : Type 0 where
  width : code (hex_digit n) < 0x80
  hex : is_hex (code (hex_digit n)) ≡ true
  solid : is_space (hex_digit n) ≡ false

hex_digit-Plain : (n : ℕ) → n < 16 → Plain n
hex_digit-Plain n lt =
    let (a, bc) = both _ _ (hex_digit-plain n lt) in
    let (b, c) = both _ _ bc in record { width = ltb→lt _ _ a; hex = b; solid = not-false _ c }

-- Numbers that are bytes.
abbrev pub Bytes : List ℕ → Type 0
Bytes = All (λ b. b < 256)

hex_encode-hex : (bs : List ℕ) → Bytes bs → all_hex (hex_encode bs) ≡ true
unfolding hex_encode all_hex
hex_encode-hex [] h = refl
hex_encode-hex (b ∷ bs) (h, hs) =
    let high = hex_digit-Plain (b / 16) (omega arith) in
    let low = hex_digit-Plain (b % 16) (omega arith) in
    and-true _ _ high.hex (and-true _ _ low.hex (hex_encode-hex bs hs))

hex_encode-NoSpace : (bs : List ℕ) → Bytes bs → NoSpace (hex_encode bs)
unfolding hex_encode NoSpace
hex_encode-NoSpace [] h = _
hex_encode-NoSpace (b ∷ bs) (h, hs) =
    let high = hex_digit-Plain (b / 16) (omega arith) in
    let low = hex_digit-Plain (b % 16) (omega arith) in
    (high.solid, (low.solid, hex_encode-NoSpace bs hs))

byte_length-hex_encode :
    (bs : List ℕ) → Bytes bs → byte_length (hex_encode bs) ≡ length bs + length bs
unfolding hex_encode byte_length
byte_length-hex_encode [] h = refl
byte_length-hex_encode (b ∷ bs) (h, hs) =
    let high = hex_digit-Plain (b / 16) (omega arith) in
    let low = hex_digit-Plain (b % 16) (omega arith) in
    ground (arith, high.width, low.width, byte_length-hex_encode bs hs)

-- The two characters in front of a text.
marked_lem : (s : String) → "0x" ++ s ≡ String.◌∷◌ (char_at "0x" 0) (String.◌∷◌ (char_at "0x" 1) s)
marked_lem s =
    cons-append (char_at "0x" 0) "x" s
    ∙ ap (λ t. String.◌∷◌ (char_at "0x" 0) t)
        (cons-append (char_at "0x" 1) "" s ∙ ap (λ t. String.◌∷◌ (char_at "0x" 1) t) (nil-append s))

strip_prefix-marked : (s : String) → strip_prefix "0x" ("0x" ++ s) ≡ some s
strip_prefix-marked s = ap (strip_prefix "0x") (marked_lem s)

marked-NoSpace : (s : String) → NoSpace s → NoSpace ("0x" ++ s)
unfolding NoSpace is_space
marked-NoSpace s h = subst NoSpace (sym (marked_lem s)) (refl, (refl, h))

module _ {W : Type 0} (host : Host W) where
  validate_hex-ok :
      (s : String) → byte_length s ≡ 64 → all_hex s ≡ true → validate_hex host s ≡ ok tt
  validate_hex-ok s len hex = rw ((eqb_iff (byte_length s) 64).1 len, hex)

  pub validate-hex_encode :
      (bs : List ℕ) → Bytes bs → length bs ≡ 32 → validate host ("0x" ++ hex_encode bs) ≡ ok tt
  unfolding validate
  validate-hex_encode bs h len =
      let size = byte_length-hex_encode bs h in
      let exact : byte_length (hex_encode bs) ≡ 64 = omega arith in
      ap (λ r. elim r [ none ↦ err "must start with 0x" | some s ↦ validate_hex host s ])
        (strip_prefix-marked (hex_encode bs))
      ∙ validate_hex-ok (hex_encode bs) exact (hex_encode-hex bs h)

pub trim_space-hex_encode :
    (bs : List ℕ) → Bytes bs → trim_space (("0x" ++ hex_encode bs) ++ "\n") ≡ "0x" ++ hex_encode bs
trim_space-hex_encode bs h =
    trim_space-append _ (marked-NoSpace (hex_encode bs) (hex_encode-NoSpace bs h))

-- ===== src/Common/Text.antt =====
-- The functions of Go's `strings` and `fmt` that the program calls, over native texts.
pub mod Trim
pub mod Cut
pub mod Split
use Prim.Native.Char.{Char, code}
use Prim.Native.Nat.{ℕ, zero, suc, ◌-◌, ◌/◌, ◌%◌}
use Prim.Native.String.{String, [], ◌∷◌, ◌++◌, char_at}
use mathlib.Core.Path.{◌≡◌, refl, sym, ap, ◌∙◌}
use mathlib.Core.Bool.{Bool, true, false, ◌&&◌, ◌||◌}
use mathlib.Core.Option.{Option, none, some}
use mathlib.Core.List.{List}
use text.Mathlib.Text.{find?, ◌==◌}
use text.Mathlib.TextLemmas.{nil-append, cons-append}
use text.Mathlib.TextEquality.{eq_iff}
use eth_node_operator.Common.Tests.{ltb, leb, eqb, if◌then◌else◌}

-- `unicode.ToLower`, on the characters whose lower case is an ASCII letter: the program compares
-- lowered texts with ASCII texts only, so that the case of all other characters does not matter.
-- The last two are U+0130 and U+212A.
lower_char : Char → Char
lower_char c =
    if leb b'A' (code c) && leb (code c) b'Z'
    then char_at "abcdefghijklmnopqrstuvwxyz" (code c - b'A')
    else if eqb (code c) 0x130
    then char_at "i" 0
    else if eqb (code c) 0x212a
    then char_at "k" 0
    else c

-- `strings.ToLower`
unfoldable pub to_lower : String → String
unfolding lower_char
to_lower [] = []
to_lower (c ∷ s) = lower_char c ∷ to_lower s

-- `strings.Contains`
unfoldable pub contains : String → String → Bool
contains s sub = elim (find? s sub) [ none ↦ false | some i ↦ true ]

-- What follows a prefix, for `strings.HasPrefix` and the slice behind it.
abbrev pub strip_prefix : String → String → Option String
strip_prefix [] s = some s
strip_prefix (c ∷ p) [] = none
strip_prefix (c ∷ p) (d ∷ s) =
    let rest = strip_prefix p s in if (c ∷ []) == (d ∷ []) then rest else none

prefix_cases :
    (b : Bool) (rest : Option String) {t : String}
    → (if b then rest else none) ≡ some t
    → (b ≡ true) × (rest ≡ some t)
prefix_cases true rest h = (refl, h)
prefix_cases false rest h = cc

-- The first character, in front of a text.
onto : String → String → String
onto s [] = s
onto s (c ∷ t) = c ∷ s

pub strip_prefix-append : (p s t : String) → strip_prefix p s ≡ some t → s ≡ p ++ t
unfolding onto
strip_prefix-append [] s t h = cc (h, nil-append t)
strip_prefix-append (c ∷ p) [] t h = cc
strip_prefix-append (c ∷ p) (d ∷ s) t h =
    let (e, r) = prefix_cases ((c ∷ []) == (d ∷ [])) (strip_prefix p s) h in
    sym (ap (onto s) ((eq_iff (c ∷ []) (d ∷ [])).0 e))
    ∙ ap (λ x. c ∷ x) (strip_prefix-append p s t r)
    ∙ sym (cons-append c p t)

-- `unicode.IsSpace`, on Latin-1 and beyond.
unfoldable pub is_space : Char → Bool
is_space c =
    eqb (code c) 32
    || (leb 9 (code c) && leb (code c) 13)
    || eqb (code c) 0x85
    || eqb (code c) 0xa0
    || eqb (code c) 0x1680
    || (leb 0x2000 (code c) && leb (code c) 0x200a)
    || eqb (code c) 0x2028
    || eqb (code c) 0x2029
    || eqb (code c) 0x202f
    || eqb (code c) 0x205f
    || eqb (code c) 0x3000

trim_left : String → String
unfolding is_space
trim_left [] = []
trim_left (c ∷ s) = let rest = trim_left s in if is_space c then rest else c ∷ s

-- A space goes if nothing is left behind it.
end_at : Char → String → String
unfolding is_space
end_at c [] = if is_space c then [] else c ∷ []
end_at c (d ∷ s) = c ∷ d ∷ s

-- Drops the spaces at the end.
trim_right : String → String
unfolding end_at
trim_right [] = []
trim_right (c ∷ s) = end_at c (trim_right s)

-- `strings.TrimSpace`
unfoldable pub trim_space : String → String
unfolding trim_left trim_right
trim_space s = trim_right (trim_left s)

-- What stands behind the last character `c`: the whole text if there is none. `kept` is what has been
-- read since the last one.
after_last_from : ℕ → String → String → String
after_last_from c kept [] = kept
after_last_from c kept (d ∷ s) = after_last_from c (if eqb (code d) c then [] else kept ++ d ∷ []) s

unfoldable pub after_last : ℕ → String → String
unfolding after_last_from
after_last c s = after_last_from c [] s

-- What stands before the first character `c`: the whole text if there is none.
unfoldable pub before_first : ℕ → String → String
before_first c [] = []
before_first c (d ∷ s) = let rest = before_first c s in if eqb (code d) c then [] else d ∷ rest

-- What stands behind the first character `c`: nothing if there is none.
unfoldable pub after_first : ℕ → String → String
after_first c [] = []
after_first c (d ∷ s) = let rest = after_first c s in if eqb (code d) c then s else rest

-- `strings.TrimSuffix` of one character.
unfoldable pub drop_last : ℕ → String → String
drop_last c [] = []
drop_last c (d ∷ []) = if eqb (code d) c then [] else d ∷ []
drop_last c (d ∷ e ∷ s) = d ∷ drop_last c (e ∷ s)

-- `strings.HasSuffix`
unfoldable pub has_suffix : String → String → Bool
has_suffix [] t = [] == t
has_suffix (c ∷ s) t = if (c ∷ s) == t then true else has_suffix s t

-- A word that is not empty goes to the list.
close_word : String → List String → List String
close_word [] words = words
close_word (c ∷ s) words = List.◌∷◌ (c ∷ s) words

-- The words of a text, with the word that is being read in front.
fields_from : String → String → List String
unfolding is_space close_word
fields_from word [] = close_word word List.[]
fields_from word (c ∷ s) =
    let closed = fields_from [] s in
    let longer = fields_from (word ++ c ∷ []) s in
    if is_space c then close_word word closed else longer

-- `strings.Fields`
unfoldable pub fields : String → List String
unfolding fields_from
fields s = fields_from [] s

-- The parts of a text between the separators, with the part that is being read in front.
split_from : ℕ → String → String → List String
split_from sep part [] = List.◌∷◌ part List.[]
split_from sep part (c ∷ s) =
    let closed = split_from sep [] s in
    let longer = split_from sep (part ++ c ∷ []) s in
    if eqb (code c) sep then List.◌∷◌ part closed else longer

-- `strings.Split` at a separator of one character.
unfoldable pub split : String → ℕ → List String
unfolding split_from
split s sep = split_from sep [] s

-- At most `n + 1` parts: the last keeps its separators.
split_n_from : ℕ → ℕ → String → String → List String
split_n_from sep n part [] = List.◌∷◌ part List.[]
split_n_from sep zero part (c ∷ s) = List.◌∷◌ (part ++ c ∷ s) List.[]
split_n_from sep (suc n) part (c ∷ s) =
    let closed = split_n_from sep n [] s in
    let longer = split_n_from sep (suc n) (part ++ c ∷ []) s in
    if eqb (code c) sep then List.◌∷◌ part closed else longer

-- `strings.SplitN` with a positive count, at a separator of one character.
unfoldable pub split_n : String → ℕ → ℕ → List String
unfolding split_n_from
split_n s sep n = split_n_from sep (n - 1) [] s

-- The decimal digits of a number, in front of those that are already written.
decimal_from : ℕ → ℕ → String → String
decimal_from zero n acc = acc
decimal_from (suc fuel) n acc =
    let here = char_at "0123456789" (n % 10) ∷ acc in
    let rest = decimal_from fuel (n / 10) here in if ltb n 10 then here else rest

-- `%d` of a number that is not negative; `n + 1` rounds are enough, since each divides by ten.
unfoldable pub decimal : ℕ → String
unfolding decimal_from
decimal n = decimal_from (suc n) n []

text_functions : Unit {0}
unfolding to_lower contains trim_space fields split split_n decimal
text_functions = tt

to_lower_test : to_lower "InBound→K" ≡ "inbound→k"
unfolding text_functions
to_lower_test = refl

trim_space_test : trim_space " \ta b \n" ≡ "a b"
unfolding text_functions
trim_space_test = refl

fields_test : fields " 0 2  *" ≡ List.◌∷◌ "0" (List.◌∷◌ "2" (List.◌∷◌ "*" List.[]))
unfolding text_functions
fields_test = refl

split_n_test : split_n "a|b|c|d" b'|' 3 ≡ List.◌∷◌ "a" (List.◌∷◌ "b" (List.◌∷◌ "c|d" List.[]))
unfolding text_functions
split_n_test = refl

decimal_test : decimal 30303 ≡ "30303"
unfolding text_functions
decimal_test = refl

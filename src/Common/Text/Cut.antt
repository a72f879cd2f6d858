-- ===== src/Common/Text/Cut.antt =====
-- Texts that are cut at a character.
use Prim.Native.Char.{Char, code}
use Prim.Native.Nat.{ℕ}
use Prim.Native.String.{String, [], ◌∷◌, ◌++◌}
use mathlib.Core.Path.{◌≡◌, refl, sym, ap, ◌∙◌}
use mathlib.Core.Bool.{Bool, true, false}
use mathlib.Core.Option.{some}
use text.Mathlib.TextLemmas.{nil-append, cons-append}
use text.Mathlib.TextPositions.{eq_refl}
use native.Mathlib.Omega.{arith}
use eth_node_operator.Common.Tests.{eqb, if◌then◌else◌}
use eth_node_operator.Common.Text.{lower_char, to_lower, before_first, strip_prefix}

-- The character stands nowhere in the text.
unfoldable pub Lacks : ℕ → String → Type 0
Lacks c [] = Unit
Lacks c (d ∷ s) = (eqb (code d) c ≡ false) × Lacks c s

pub before_first-append :
    (c : ℕ) (s : String) (d : Char) (t : String)
    → Lacks c s
    → eqb (code d) c ≡ true
    → before_first c (s ++ d ∷ t) ≡ s
unfolding Lacks before_first
before_first-append c [] d t h e = ap (before_first c) (nil-append (d ∷ t)) ∙ rw e
before_first-append c (x ∷ s) d t (h, hs) e =
    ap (before_first c) (cons-append x s (d ∷ t))
    ∙ rw h (ap (λ r. x ∷ r) (before_first-append c s d t hs e))

pub to_lower-append : (s t : String) → to_lower (s ++ t) ≡ to_lower s ++ to_lower t
unfolding to_lower
to_lower-append [] t = ap to_lower (nil-append t) ∙ sym (nil-append (to_lower t))
to_lower-append (c ∷ s) t =
    ap to_lower (cons-append c s t)
    ∙ ap (λ r. lower_char c ∷ r) (to_lower-append s t)
    ∙ sym (cons-append (lower_char c) (to_lower s) (to_lower t))

pub strip_prefix_self : (p s : String) → strip_prefix p (p ++ s) ≡ some s
strip_prefix_self [] s = ap some (nil-append s)
strip_prefix_self (c ∷ p) s =
    ap (strip_prefix (c ∷ p)) (cons-append c p s) ∙ rw (eq_refl (c ∷ [])) (strip_prefix_self p s)

cut_or_longer :
    (b : Bool) (d : Char) (r r' : String)
    → (b ≡ false → r ≡ r')
    → (if b then [] else d ∷ r) ≡ (if b then [] else d ∷ r')
cut_or_longer true d r r' h = refl
cut_or_longer false d r r' h = ap (λ s. d ∷ s) (h refl)

found : {b c : Bool} → b ≡ false → (if b then true else c) ≡ true → c ≡ true
found e h = ground (arith, e, h)

-- Whether the character stands in the text.
abbrev pub has_char : ℕ → String → Bool
has_char c [] = false
has_char c (d ∷ s) = if eqb (code d) c then true else has_char c s

pub before_first-within :
    (c : ℕ) (s t : String) → has_char c s ≡ true → before_first c (s ++ t) ≡ before_first c s
unfolding before_first
before_first-within c [] t h = cc
before_first-within c (d ∷ s) t h =
    ap (before_first c) (cons-append d s t)
    ∙ cut_or_longer (eqb (code d) c) d _ _ (λ e. before_first-within c s t (found e h))

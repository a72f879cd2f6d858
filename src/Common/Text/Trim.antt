-- ===== src/Common/Text/Trim.antt =====
-- `strings.TrimSpace`, of a line without spaces and of what is trimmed.
use Prim.Native.Char.{Char}
use Prim.Native.String.{String, [], ◌∷◌, ◌++◌}
use mathlib.Core.Path.{◌≡◌, refl, sym, ap, ◌∙◌}
use mathlib.Core.Bool.{false}
use mathlib.Core.Logic.{inl, inr}
use eth_node_operator.Common.Tests.{Bool-cases}
use text.Mathlib.TextLemmas.{cons-append}
use eth_node_operator.Common.Text.{is_space, end_at, trim_left, trim_right, trim_space}

-- No character is a space.
unfoldable pub NoSpace : String → Type 0
NoSpace [] = Unit
NoSpace (c ∷ s) = (is_space c ≡ false) × NoSpace s

end_at-kept : (c : Char) (s : String) → is_space c ≡ false → end_at c s ≡ c ∷ s
unfolding end_at
end_at-kept c [] h = rw h
end_at-kept c (d ∷ s) h = refl

-- The end of a line is trimmed, and nothing of what stands before it.
trim_right-append : (s : String) → NoSpace s → trim_right (s ++ "\n") ≡ s
unfolding NoSpace trim_right is_space
trim_right-append [] h = refl
trim_right-append (c ∷ s) (h, hs) =
    ap trim_right (cons-append c s "\n")
    ∙ ap (end_at c) (trim_right-append s hs)
    ∙ end_at-kept c s h

trim_left-kept : (c : Char) (s : String) → is_space c ≡ false → trim_left (c ∷ s) ≡ c ∷ s
unfolding trim_left
trim_left-kept c s h = rw h

pub trim_space-append : (s : String) → NoSpace s → trim_space (s ++ "\n") ≡ s
unfolding NoSpace trim_space trim_left is_space
trim_space-append [] h = refl
trim_space-append (c ∷ s) (h, hs) =
    ap (λ t. trim_right (trim_left t)) (cons-append c s "\n")
    ∙ ap trim_right (trim_left-kept c (s ++ "\n") h ∙ sym (cons-append c s "\n"))
    ∙ trim_right-append (c ∷ s) (h, hs)

-- The first character is no space.
abbrev Starts : String → Type 0
Starts [] = Unit
Starts (c ∷ s) = is_space c ≡ false

trim_left-Starts : (s : String) → Starts (trim_left s)
unfolding trim_left
trim_left-Starts [] = tt
trim_left-Starts (c ∷ s) = elim (Bool-cases (is_space c)) [
  | inl space ↦ rw space (trim_left-Starts s)
  | inr solid ↦ rw solid solid
]

trim_left-Starts_kept : (s : String) → Starts s → trim_left s ≡ s
unfolding trim_left
trim_left-Starts_kept [] h = refl
trim_left-Starts_kept (c ∷ s) h = trim_left-kept c s h

trim_right-Starts : (s : String) → Starts s → Starts (trim_right s)
unfolding trim_right
trim_right-Starts [] h = tt
trim_right-Starts (c ∷ s) h = rw (end_at-kept c (trim_right s) h) h

end_at-again : (c : Char) (r : String) → trim_right r ≡ r → trim_right (end_at c r) ≡ end_at c r
unfolding end_at trim_right
end_at-again c [] h = elim (Bool-cases (is_space c)) [
  | inl space ↦ rw space refl
  | inr solid ↦ rw solid (rw solid refl)
]
end_at-again c (d ∷ r) h = ap (end_at c) h

trim_right-again : (s : String) → trim_right (trim_right s) ≡ trim_right s
unfolding trim_right
trim_right-again [] = refl
trim_right-again (c ∷ s) = end_at-again c (trim_right s) (trim_right-again s)

pub trim_space-again : (s : String) → trim_space (trim_space s) ≡ trim_space s
unfolding trim_space
trim_space-again s =
    ap trim_right (
      trim_left-Starts_kept (trim_right (trim_left s))
        (trim_right-Starts (trim_left s) (trim_left-Starts s)))
    ∙ trim_right-again (trim_left s)

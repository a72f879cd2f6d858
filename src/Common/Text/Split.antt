-- ===== src/Common/Text/Split.antt =====
-- Texts that are split at a character.
use Prim.Native.Char.{Char, code}
use Prim.Native.Nat.{ℕ, zero, suc}
use Prim.Native.String.{String, [], ◌∷◌, ◌++◌, char_at}
use mathlib.Core.Path.{◌≡◌, refl, sym, ap, ◌∙◌}
use mathlib.Core.Bool.{true, false}
use mathlib.Core.List.{List}
use text.Mathlib.TextLemmas.{nil-append, cons-append, append-nil, append_assoc}
use native.Mathlib.Omega.{arith}
use eth_node_operator.Common.Tests.{eqb}
use eth_node_operator.Common.Text.{split_n, split_n_from}
use eth_node_operator.Common.Text.Cut.{Lacks, has_char}

pub Lacks-has_char : (c : ℕ) (s : String) → has_char c s ≡ false → Lacks c s
unfolding Lacks
Lacks-has_char c [] h = tt
Lacks-has_char c (d ∷ s) h = (ground (arith, h), Lacks-has_char c s (ground (arith, h)))

one_more : (part s : String) (c : Char) → (part ++ c ∷ []) ++ s ≡ part ++ c ∷ s
one_more part s c =
    append_assoc part (c ∷ []) s
    ∙ ap (λ r. part ++ r) (cons-append c [] s ∙ ap (λ r. c ∷ r) (nil-append s))

-- The first part ends at the first separator.
split_n_from-append :
    (sep n : ℕ) (part s : String) (c : Char) (t : String)
    → Lacks sep s
    → eqb (code c) sep ≡ true
    → split_n_from sep (suc n) part (s ++ c ∷ t) ≡ List.◌∷◌ (part ++ s) (split_n_from sep n [] t)
unfolding Lacks split_n_from
split_n_from-append sep n part [] c t h e =
    ap (split_n_from sep (suc n) part) (nil-append (c ∷ t))
    ∙ rw e (ap (λ p. List.◌∷◌ p (split_n_from sep n [] t)) (sym (append-nil part)))
split_n_from-append sep n part (d ∷ s) c t (h, hs) e =
    ap (split_n_from sep (suc n) part) (cons-append d s (c ∷ t))
    ∙ rw h (
        split_n_from-append sep n (part ++ d ∷ []) s c t hs e
        ∙ ap (λ p. List.◌∷◌ p (split_n_from sep n [] t)) (one_more part s d))

-- A text without separators is one part.
split_n_from-whole :
    (sep n : ℕ) (part s : String)
    → Lacks sep s
    → split_n_from sep n part s ≡ List.◌∷◌ (part ++ s) List.[]
unfolding Lacks split_n_from
split_n_from-whole sep n part [] h = ap (λ p. List.◌∷◌ p List.[]) (sym (append-nil part))
split_n_from-whole sep zero part (d ∷ s) h = refl
split_n_from-whole sep (suc n) part (d ∷ s) (h, hs) = rw h (
    split_n_from-whole sep (suc n) (part ++ d ∷ []) s hs
    ∙ ap (λ p. List.◌∷◌ p List.[]) (one_more part s d))

slash : (t : String) → "/" ++ t ≡ char_at "/" 0 ∷ t
slash t = cons-append (char_at "/" 0) "" t ∙ ap (λ s. char_at "/" 0 ∷ s) (nil-append t)

at_slash :
    (n : ℕ) (s t : String)
    → Lacks b'/' s
    → split_n_from b'/' (suc n) [] (s ++ ("/" ++ t)) ≡ List.◌∷◌ s (split_n_from b'/' n [] t)
at_slash n s t h =
    ap (λ u. split_n_from b'/' (suc n) [] (s ++ u)) (slash t)
    ∙ split_n_from-append b'/' n [] s (char_at "/" 0) t h refl
    ∙ ap (λ p. List.◌∷◌ p (split_n_from b'/' n [] t)) (nil-append s)

whole : (n : ℕ) (s : String) → Lacks b'/' s → split_n_from b'/' n [] s ≡ List.◌∷◌ s List.[]
whole n s h = split_n_from-whole b'/' n [] s h ∙ ap (λ p. List.◌∷◌ p List.[]) (nil-append s)

pub split_n-three :
    (a b c : String)
    → Lacks b'/' a
    → Lacks b'/' b
    → Lacks b'/' c
    → split_n (a ++ ("/" ++ (b ++ ("/" ++ c)))) b'/' 4
      ≡ List.◌∷◌ a (List.◌∷◌ b (List.◌∷◌ c List.[]))
unfolding split_n
split_n-three a b c ha hb hc =
    at_slash 2 a _ ha ∙ ap (List.◌∷◌ a) (at_slash 1 b _ hb ∙ ap (List.◌∷◌ b) (whole 1 c hc))

pub split_n-four :
    (a b c d : String)
    → Lacks b'/' a
    → Lacks b'/' b
    → Lacks b'/' c
    → Lacks b'/' d
    → split_n (a ++ ("/" ++ (b ++ ("/" ++ (c ++ ("/" ++ d)))))) b'/' 4
      ≡ List.◌∷◌ a (List.◌∷◌ b (List.◌∷◌ c (List.◌∷◌ d List.[])))
unfolding split_n
split_n-four a b c d ha hb hc hd =
    at_slash 2 a _ ha
    ∙ ap (List.◌∷◌ a)
        (at_slash 1 b _ hb ∙ ap (List.◌∷◌ b) (at_slash 0 c _ hc ∙ ap (List.◌∷◌ c) (whole 0 d hd)))

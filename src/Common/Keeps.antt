-- ===== src/Common/Keeps.antt =====
-- Actions that leave a part of the world as it is, whether they succeed or fail.
use Prim.Native.String.{String}
use mathlib.Core.Path.{◌≡◌, refl, ◌∙◌}
use mathlib.Core.Bool.{Bool, true, false}
use mathlib.Core.List.{List}
use eth_node_operator.Common.Tests.{if◌then◌else◌}
use eth_node_operator.Common.Effects.{
  Result, ok, err, Action, pure, fail, wrap, continue, ◌>>=◌, Runner, exec,
}

pub record Keeps {W V A : Type 0} (view : W → V) (m : Action W A) : Type 0 where
  pub at : (w : W) → view (m w).1 ≡ view w

module _ {W V A : Type 0} {view : W → V} where
  pub Keeps-pure : (a : A) → Keeps view (pure a)
  Keeps-pure a = record { at = λ w. refl }

  pub Keeps-fail : (e : String) → Keeps {A = A} view (fail e)
  Keeps-fail e = record { at = λ w. refl }

  pub Keeps-wrap : (f : String → String) (m : Action W A) → Keeps view m → Keeps view (wrap f m)
  Keeps-wrap f m h = record { at = h.at }

  pub Keeps-if :
      (b : Bool) (m n : Action W A) → Keeps view m → Keeps view n → Keeps view (if b then m else n)
  Keeps-if true m n hm hn = hm
  Keeps-if false m n hm hn = hn

pub Keeps-exec :
    {W V : Type 0} (view : W → V) (run : Runner W) (args : List String)
    → ((w : W) → view (run args w).1 ≡ view w)
    → Keeps view (exec run args)
Keeps-exec view run args h = record { at = h }

module _ {W V A B : Type 0} {view : W → V} where
  view-continue :
      (r : Result A) (w : W) (f : A → Action W B)
      → ((a : A) → Keeps view (f a))
      → view (continue r f w).1 ≡ view w
  view-continue (ok a) w f h = (h a).at w
  view-continue (err e) w f h = refl

  pub Keeps-bind :
      (m : Action W A) (f : A → Action W B)
      → Keeps view m
      → ((a : A) → Keeps view (f a))
      → Keeps view (m >>= f)
  Keeps-bind m f hm hf = record { at = λ w. view-continue (m w).0 (m w).1 f hf ∙ hm.at w }

pub ruleset keeps_rules = (Keeps-pure, Keeps-fail, Keeps-wrap, Keeps-if, Keeps-bind)

-- ===== src/Common/Preserves.antt =====
-- Actions that keep a property of the world, whether they succeed or fail.
use Prim.Native.String.{String}
use mathlib.Core.Path.{◌≡◌, refl}
use mathlib.Core.Bool.{Bool, true, false}
use eth_node_operator.Common.Tests.{if◌then◌else◌}
use eth_node_operator.Common.Effects.{
  Result, ok, err, Action, map_err-ok, pure, fail, wrap, continue, ◌>>=◌,
}

pub record Preserves {W A : Type 0} (P : W → Type 0) (m : Action W A) : Type 0 where
  pub at : (w : W) → P w → P (m w).1

module _ {W A : Type 0} {P : W → Type 0} where
  pub Preserves-pure : (a : A) → Preserves P (pure a)
  Preserves-pure a = record { at = λ w h. h }

  pub Preserves-fail : (e : String) → Preserves {A = A} P (fail e)
  Preserves-fail e = record { at = λ w h. h }

  pub Preserves-wrap :
      (f : String → String) (m : Action W A) → Preserves P m → Preserves P (wrap f m)
  Preserves-wrap f m k = record { at = k.at }

  -- An answer that is looked at only afterwards.
  pub Preserves-answer : (r : Result A) → Preserves P (λ w. (r, w))
  Preserves-answer r = record { at = λ w h. h }

  pub Preserves-if :
      (b : Bool) (m n : Action W A)
      → Preserves P m
      → Preserves P n
      → Preserves P (if b then m else n)
  Preserves-if true m n hm hn = hm
  Preserves-if false m n hm hn = hn

module _ {W A B : Type 0} {P : W → Type 0} where
  continue-preserves :
      (x : Result A × W) (f : A → Action W B)
      → ((a : A) → Preserves P (f a))
      → P x.1
      → P (continue x.0 f x.1).1
  continue-preserves (ok a, w) f k h = (k a).at w h
  continue-preserves (err e, w) f k h = h

  pub Preserves-bind :
      (m : Action W A) (f : A → Action W B)
      → Preserves P m
      → ((a : A) → Preserves P (f a))
      → Preserves P (m >>= f)
  Preserves-bind m f hm hf = record { at = λ w h. continue-preserves (m w) f hf (hm.at w h) }

pub ruleset preserves_rules =
    (Preserves-pure, Preserves-fail, Preserves-wrap, Preserves-answer, Preserves-if, Preserves-bind)

-- An action that keeps a property, and whose result has one when it succeeds.
pub record Ensures {W A : Type 0} (P : W → Type 0) (Q : A → Type 0) (m : Action W A) : Type 0 where
  pub keeps : Preserves P m
  pub gives : (w : W) (a : A) → (m w).0 ≡ ok a → Q a

module _ {W A B : Type 0} {P : W → Type 0} where
  continue-ensures :
      (x : Result A × W) (f : A → Action W B)
      → ((a : A) → x.0 ≡ ok a → Preserves P (f a))
      → P x.1
      → P (continue x.0 f x.1).1
  continue-ensures (ok a, w) f k h = (k a refl).at w h
  continue-ensures (err e, w) f k h = h

  pub Preserves-bind_ensured :
      (Q : A → Type 0) (m : Action W A) (f : A → Action W B)
      → Ensures P Q m
      → ((a : A) → Q a → Preserves P (f a))
      → Preserves P (m >>= f)
  Preserves-bind_ensured Q m f hm hf = record {
    at = λ w h. continue-ensures (m w) f (λ a e. hf a (hm.gives w a e)) (hm.keeps.at w h);
  }

pub Ensures-wrap :
    {W A : Type 0} (P : W → Type 0) (Q : A → Type 0) (f : String → String) (m : Action W A)
    → Ensures P Q m
    → Ensures P Q (wrap f m)
Ensures-wrap P Q f m h = record {
  keeps = Preserves-wrap f m h.keeps;
  gives = λ w a e. h.gives w a (map_err-ok f (m w).0 e);
}

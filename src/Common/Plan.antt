-- ===== src/Common/Plan.antt =====
-- Which commands an action runs: it follows a plan when the commands that it adds are the plan, or
-- an initial part of it if the action fails.
use mathlib.Core.Bool.{Bool, true, false}
use mathlib.Core.List.{List, [], ◌∷◌, ◌++◌, append_assoc, append-nil}
use mathlib.Core.Path.{◌≡◌, refl, sym, ap, ◌∙◌}
use Prim.Native.String.{String}
use eth_node_operator.Common.Effects.{
  Result, ok, err, Action, pure, map_err, wrap, continue, ◌>>=◌, Runner, exec, recorded,
}

abbrev pub Command : Type 0
Command = List String

abbrev pub is_ok : {A : Type 0} → Result A → Bool
is_ok (ok a) = true
is_ok (err e) = false

-- From the commands `before` to the commands `after`: a part of the plan, all of it after success.
abbrev pub Ran : Bool → List Command → List Command → List Command → Type 0
Ran done before plan after =
    (rest : List Command) × (after ++ rest ≡ before ++ plan) × (done ≡ true → rest ≡ [])

is_ok-map_err : {A : Type 0} (f : String → String) (r : Result A) → is_ok (map_err f r) ≡ is_ok r
is_ok-map_err f (ok a) = refl
is_ok-map_err f (err e) = refl

module _ {W A : Type 0} where
  pub record Follows (plan : List Command) (m : Action (W × List Command) A) : Type 0 where
    pub at : (w : W) (ran : List Command) → Ran (is_ok (m (w, ran)).0) ran plan (m (w, ran)).1.1

  pub Follows-pure : (a : A) → Follows [] (pure a)
  Follows-pure a = record { at = λ w ran. ([], refl, λ h. refl) }

  pub Follows-wrap :
      (plan : List Command) (f : String → String) (m : Action (W × List Command) A)
      → Follows plan m
      → Follows plan (wrap f m)
  Follows-wrap plan f m h = record {
    at = λ w ran. rw (is_ok-map_err f (m (w, ran)).0) (h.at w ran);
  }

module _ {W : Type 0} (run : Runner W) where
  pub Follows-exec : (args : Command) → Follows (args ∷ []) (exec (recorded run) args)
  Follows-exec args = record { at = λ w ran. ([], append-nil _, λ h. refl) }

module _ {W A B : Type 0} (p q : List Command) (f : A → Action (W × List Command) B) where
  pub Ran-continue :
      (r : Result A) (w : W) (before after : List Command)
      → Ran (is_ok r) before p after
      → ((a : A) → Follows q (f a))
      → let out = continue r f (w, after) in Ran (is_ok out.0) before (p ++ q) out.1.1
  Ran-continue (ok a) w before after (rest, e, done) h =
      let (rest', e', done') = (h a).at w after in
      let e'' : after ≡ before ++ p =
        sym (append-nil after) ∙ ap (λ r. after ++ r) (sym (done refl)) ∙ e in
      (rest', e' ∙ ap (λ r. r ++ q) e'' ∙ append_assoc before p q, done')
  Ran-continue (err x) w before after (rest, e, done) h = (
    rest ++ q,
    sym (append_assoc after rest q) ∙ ap (λ r. r ++ q) e ∙ append_assoc before p q,
    λ h. cc,
  )

  pub Follows-bind :
      (m : Action (W × List Command) A)
      → Follows p m
      → ((a : A) → Follows q (f a))
      → Follows (p ++ q) (m >>= f)
  Follows-bind m hm hf = record {
    at =
        λ w ran. Ran-continue (m (w, ran)).0 (m (w, ran)).1.0 ran (m (w, ran)).1.1 (hm.at w ran) hf;
  }

-- ===== src/Common/Effects.antt =====
-- Go's `(T, error)` results, and calls that act on the world outside the program. An error is its
-- message; what a call did before it failed stays done, so the world comes back beside the error.
use Prim.Native.String.{String}
use mathlib.Core.Path.{◌≡◌, refl}
use mathlib.Core.Option.{Option, none, some}
use mathlib.Core.List.{List, [], ◌∷◌, ◌++◌}

pub data Result {ℓ} (A : Type ℓ) : Type ℓ where
  ok : A → Result A
  err : String → Result A

pub ok-inj {ℓ} : {A : Type ℓ} {a b : A} → ok a ≡ ok b → a ≡ b
ok-inj h = cc

abbrev pub Action {ℓ} : Type ℓ → Type ℓ → Type ℓ
Action W A = W → Result A × W

-- `if err != nil { return fmt.Errorf("…: %w", err) }`
abbrev pub map_err {ℓ} : {A : Type ℓ} → (String → String) → Result A → Result A
map_err f (ok a) = ok a
map_err f (err e) = err (f e)

pub map_err-ok {ℓ} :
    {A : Type ℓ} (f : String → String) (r : Result A) {a : A} → map_err f r ≡ ok a → r ≡ ok a
map_err-ok f (ok a) h = h
map_err-ok f (err e) h = cc

abbrev pub map_result {ℓ κ} : {A : Type ℓ} {B : Type κ} → (A → B) → Result A → Result B
map_result f (ok a) = ok (f a)
map_result f (err e) = err e

module _ {ℓ} {W A : Type ℓ} where
  abbrev pub pure : A → Action W A
  pure a w = (ok a, w)

  abbrev pub fail : String → Action W A
  fail e w = (err e, w)

  abbrev pub wrap : (String → String) → Action W A → Action W A
  wrap f m w = let (r, w') = m w in (map_err f r, w')

module _ {ℓ} {W A B : Type ℓ} where
  abbrev pub continue : Result A → (A → Action W B) → Action W B
  continue (ok a) f w = f a w
  continue (err e) f w = (err e, w)

  infixl 5 ◌>>=◌ ◌>>◌
  abbrev pub ◌>>=◌ : Action W A → (A → Action W B) → Action W B
  ◌>>=◌ m f w = let (r, w') = m w in continue r f w'

  abbrev pub ◌>>◌ : Action W A → Action W B → Action W B
  m >> n = m >>= λ _. n

module _ {ℓ} {W A B : Type ℓ} where
  continue-eq-ok :
      (r : Result A) (w1 : W) (f : A → Action W B) {b : B} {w' : W}
      → continue r f w1 ≡ (ok b, w')
      → (a : A) × (r ≡ ok a) × (f a w1 ≡ (ok b, w'))
  continue-eq-ok (ok a) w1 f h = (a, refl, h)
  continue-eq-ok (err e) w1 f h = cc

  -- What a successful `do` block has done.
  pub >>=-eq-ok :
      (m : Action W A) (f : A → Action W B) (w : W) {b : B} {w' : W}
      → (m >>= f) w ≡ (ok b, w')
      → (a : A) × ((m w).0 ≡ ok a) × (f a (m w).1 ≡ (ok b, w'))
  >>=-eq-ok m f w h = continue-eq-ok (m w).0 (m w).1 f h

-- `(out, err)` of a command: what it printed, and its error if it failed.
abbrev pub Output : Type 0
Output = String × Option String

-- A `Runner` of the source: it runs a command with its arguments. Commands are programs of the
-- host, so the models take the runner as a parameter.
abbrev pub Runner : Type 0 → Type 0
Runner W = List String → W → Output × W

abbrev pub to_result : Output → Result String
to_result (out, none) = ok out
to_result (out, some e) = err e

-- A command whose error is returned.
abbrev pub exec : {W : Type 0} → Runner W → List String → Action W String
exec run args w = let (o, w') = run args w in (to_result o, w')

-- The same runner, on a world that also keeps the commands that were run, the first one in front.
abbrev pub recorded : {W : Type 0} → Runner W → Runner (W × List (List String))
recorded run args (w, ran) = let (o, w') = run args w in (o, (w', ran ++ args ∷ []))

-- ===== src/Common/Dict.antt =====
-- Go's `map[string]V`, as an association list. The program reads maps by key, and ranges over them
-- only to write their entries into another map, where the order of the entries does not show.
use Prim.Native.String.{String}
use mathlib.Core.Path.{◌≡◌, refl, ap}
use mathlib.Core.Option.{Option, none, some}
use mathlib.Core.List.{List, [], ◌∷◌}
use native.Mathlib.Omega.{arith}
use text.Mathlib.Text.{◌==◌}
use text.Mathlib.TextEquality.{eq_iff}
use eth_node_operator.Common.Tests.{if◌then◌else◌}

abbrev pub Dict {ℓ} : Type ℓ → Type ℓ
Dict V = List (String × V)

module _ {ℓ} {V : Type ℓ} where
  -- `v, ok := m[k]`
  unfoldable pub lookup : String → Dict V → Option V
  lookup k [] = none
  lookup k ((j, v) ∷ m) = if j == k then some v else lookup k m

  -- `m[k] = v`
  unfoldable pub insert : String → V → Dict V → Dict V
  insert k v [] = (k, v) ∷ []
  insert k v ((j, w) ∷ m) = if j == k then (k, v) ∷ m else (j, w) ∷ insert k v m

  -- `for k, v := range src { dst[k] = v }`
  unfoldable pub insert_all : Dict V → Dict V → Dict V
  unfolding insert
  insert_all dst [] = dst
  insert_all dst ((k, v) ∷ src) = insert_all (insert k v dst) src

  -- A key that is written has the new value; all other keys keep theirs.
  pub lookup-insert :
      (written read : String) (v : V) (m : Dict V)
      → lookup read (insert written v m) ≡ (if written == read then some v else lookup read m)
  unfolding lookup insert
  lookup-insert written read v [] = refl
  lookup-insert written read v ((first, u) ∷ rest) =
      let tail = lookup-insert written read v rest in
      ground (tail, arith, eq_iff first read, eq_iff first written, eq_iff written read)

  -- No key stands twice: what a Go map gives for nothing.
  abbrev pub NodupKeys : Dict V → Type ℓ
  NodupKeys [] = Unit
  NodupKeys ((k, v) ∷ m) = (lookup k m ≡ none) × NodupKeys m

  -- The first of two options that is there.
  abbrev pub or_else : Option V → Option V → Option V
  or_else (some v) o = some v
  or_else none o = o

  -- A map that is written over another wins where it has the key.
  pub lookup-insert_all :
      (dst src : Dict V) (j : String)
      → NodupKeys src
      → lookup j (insert_all dst src) ≡ or_else (lookup j src) (lookup j dst)
  unfolding lookup insert_all
  lookup-insert_all dst [] j h = refl
  lookup-insert_all dst ((k, v) ∷ src) j (fresh, h) = ground (
    arith,
    lookup-insert_all (insert k v dst) src j h,
    lookup-insert k j v dst,
    eq_iff k j,
    ap (λ (i : String). lookup i src) {x = k} {y = j},
  )

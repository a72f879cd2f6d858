-- ===== src/Profiles/Indexed.antt =====
-- pkg/profile/merger.go: the loop of `mergePackages` and `mergeFirewallRules`, over any type whose elements have
-- a key.
use eth_node_operator.Common.{
  ℕ, zero, suc, ◌+◌, String, ◌≡◌, ◌≢◌, refl, sym, ap, ◌∙◌, Bool, true, false, Option, none, some,
  List, [], ◌∷◌, ◌++◌, map, arith, set, if◌then◌else◌, ◌==◌, eq_iff,
}
use eth_node_operator.Common.Dict.{Dict, lookup, insert, lookup-insert, or_else}

-- `for i, p := range dst { index[key(p)] = i }`, with the keys of `dst`.
abbrev pub index_from : ℕ → List String → Dict ℕ → Dict ℕ
index_from i [] index = index
index_from i (k ∷ keys) index = index_from (i + 1) keys (insert k i index)

-- The position of the last element of a key.
abbrev last_index : String → List String → Option ℕ
last_index k [] = none
last_index k (j ∷ keys) = elim (last_index k keys) [
  | none ↦ if j == k then some 0 else none
  | some i ↦ some (suc i)
]

abbrev shift : ℕ → Option ℕ → Option ℕ
shift n none = none
shift n (some i) = some (n + i)

lookup-index_from :
    (n : ℕ) (keys : List String) (index : Dict ℕ) (k : String)
    → lookup k (index_from n keys index) ≡ or_else (shift n (last_index k keys)) (lookup k index)
lookup-index_from n [] index k = refl
lookup-index_from n (j ∷ keys) index k =
    ground (arith, lookup-index_from (n + 1) keys (insert j n index) k, lookup-insert j k n index)

lookup-index :
    (keys : List String) (k : String) → lookup k (index_from 0 keys []) ≡ last_index k keys
unfolding lookup
lookup-index keys k = ground (arith, lookup-index_from 0 keys [] k)

last_index-append :
    (j k : String) (keys : List String) → k ≢ j → last_index j (keys ++ k ∷ []) ≡ last_index j keys
last_index-append j k [] h = ground (arith, eq_iff k j)
last_index-append j k (i ∷ keys) h = ground (arith, last_index-append j k keys h)

-- The index has the positions of the keys that it knows.
record IsIndex (index : Dict ℕ) (keys : List String) : Type 0 where
  finds : (j : String) (i : ℕ) → lookup j index ≡ some i → last_index j keys ≡ some i

index_from-IsIndex : (keys : List String) → IsIndex (index_from 0 keys []) keys
index_from-IsIndex keys = record { finds = λ j i h. sym (lookup-index keys j) ∙ h }

append-IsIndex :
    (index : Dict ℕ) (keys : List String) (k : String)
    → lookup k index ≡ none
    → IsIndex index keys
    → IsIndex index (keys ++ k ∷ [])
append-IsIndex index keys k h x = record {
  finds = λ j i e.
      last_index-append j k keys
        (λ same. absurd (cc (h, e, ap (λ (j : String). lookup j index) same)))
      ∙ x.finds j i e;
}

module _ {ℓ} {A : Type ℓ} (key : A → String) where
  -- `if i, ok := index[key(p)]; ok { dst[i] = p } else { dst = append(dst, p) }`
  abbrev pub place : Option ℕ → A → List A → List A
  place none p dst = dst ++ p ∷ []
  place (some i) p dst = set dst i p

  abbrev pub merge_each : Dict ℕ → List A → List A → List A
  merge_each index dst [] = dst
  merge_each index dst (p ∷ src) = merge_each index (place (lookup (key p) index) p dst) src

  abbrev pub merge_by : List A → List A → List A
  merge_by dst src = merge_each (index_from 0 (map key dst) []) dst src

  -- The last element of a key.
  abbrev pub find_last : String → List A → Option A
  find_last k [] = none
  find_last k (x ∷ xs) = or_else (find_last k xs) (if key x == k then some x else none)

  find_last-append :
      (k : String) (xs : List A) (p : A)
      → find_last k (xs ++ p ∷ []) ≡ (if key p == k then some p else find_last k xs)
  find_last-append k [] p = ground arith
  find_last-append k (x ∷ xs) p = ground (arith, find_last-append k xs p)

  last_index-none :
      (k : String) (xs : List A) → last_index k (map key xs) ≡ none → find_last k xs ≡ none
  last_index-none k [] h = refl
  last_index-none k (x ∷ xs) h = ground (arith, last_index-none k xs)

  map-set :
      (xs : List A) (i : ℕ) (p : A)
      → last_index (key p) (map key xs) ≡ some i
      → map key (set xs i p) ≡ map key xs
  map-set [] i p h = cc
  map-set (x ∷ xs) zero p h = ground (arith, eq_iff (key x) (key p))
  map-set (x ∷ xs) (suc i) p h = ground (arith, map-set xs i p)

  find_last-set :
      (k : String) (xs : List A) (i : ℕ) (p : A)
      → last_index (key p) (map key xs) ≡ some i
      → find_last k (set xs i p) ≡ (if key p == k then some p else find_last k xs)
  find_last-set k [] i p h = cc
  find_last-set k (x ∷ xs) zero p h = ground (
    arith,
    eq_iff (key x) (key p),
    eq_iff (key x) k,
    eq_iff (key p) k,
    last_index-none (key p) xs,
    ap (λ (j : String). find_last j xs) {x = key p} {y = k},
  )
  find_last-set k (x ∷ xs) (suc i) p h = ground (arith, find_last-set k xs i p)

  map-append : (xs : List A) (p : A) → map key (xs ++ p ∷ []) ≡ map key xs ++ key p ∷ []
  map-append [] p = refl
  map-append (x ∷ xs) p = rw (map-append xs p)

  find_last-place :
      (k : String) (index : Dict ℕ) (o : Option ℕ) (p : A) (dst : List A)
      → lookup (key p) index ≡ o
      → IsIndex index (map key dst)
      → find_last k (place o p dst) ≡ (if key p == k then some p else find_last k dst)
  find_last-place k index none p dst h x = find_last-append k dst p
  find_last-place k index (some i) p dst h x = find_last-set k dst i p (x.finds (key p) i h)

  place-IsIndex :
      (index : Dict ℕ) (o : Option ℕ) (p : A) (dst : List A)
      → lookup (key p) index ≡ o
      → IsIndex index (map key dst)
      → IsIndex index (map key (place o p dst))
  place-IsIndex index none p dst h x =
      rw (map-append dst p) (append-IsIndex index (map key dst) (key p) h x)
  place-IsIndex index (some i) p dst h x = rw (map-set dst i p (x.finds (key p) i h)) x

  find_last-merge_each :
      (k : String) (index : Dict ℕ) (src dst : List A)
      → IsIndex index (map key dst)
      → find_last k (merge_each index dst src) ≡ or_else (find_last k src) (find_last k dst)
  find_last-merge_each k index [] dst x = refl
  find_last-merge_each k index (p ∷ src) dst x = ground (
    arith,
    find_last-merge_each k index src (place (lookup (key p) index) p dst)
        (place-IsIndex index (lookup (key p) index) p dst refl x),
    find_last-place k index (lookup (key p) index) p dst refl x,
  )

  -- Whatever the two lists, with keys that stand twice or not: under each key, the last element of the
  -- merged list is the last of `src`, and the last of `dst` where `src` has none.
  pub find_last-merge_by :
      (dst src : List A) (k : String)
      → find_last k (merge_by dst src) ≡ or_else (find_last k src) (find_last k dst)
  find_last-merge_by dst src k =
      find_last-merge_each k (index_from 0 (map key dst) []) src dst
        (index_from-IsIndex (map key dst))

-- Whether a key is in the list.
abbrev pub has_key : String → List String → Bool
has_key k [] = false
has_key k (j ∷ keys) = if j == k then true else has_key k keys

-- The keys that are not among the known ones.
abbrev pub without : List String → List String → List String
without known [] = []
without known (k ∷ keys) = if has_key k known then without known keys else k ∷ without known keys

abbrev fresh : Dict ℕ → List String → List String
fresh index [] = []
fresh index (k ∷ keys) = elim (lookup k index) [
  | none ↦ k ∷ fresh index keys
  | some i ↦ fresh index keys
]

has_key-last_index :
    (k : String) (keys : List String)
    → has_key k keys ≡ elim (last_index k keys) [ none ↦ false | some i ↦ true ]
has_key-last_index k [] = refl
has_key-last_index k (j ∷ keys) = ground (arith, has_key-last_index k keys)

fresh_lem : (known keys : List String) → fresh (index_from 0 known []) keys ≡ without known keys
fresh_lem known [] = refl
fresh_lem known (k ∷ keys) =
    ground (arith, fresh_lem known keys, has_key-last_index k known, lookup-index known k)

append_assoc :
    (xs : List String) (k : String) (ys : List String) → (xs ++ k ∷ []) ++ ys ≡ xs ++ k ∷ ys
append_assoc [] k ys = refl
append_assoc (x ∷ xs) k ys = rw (append_assoc xs k ys)

append-nil : (xs : List String) → xs ++ [] ≡ xs
append-nil [] = refl
append-nil (x ∷ xs) = rw (append-nil xs)

module _ {ℓ} {A : Type ℓ} (key : A → String) where
  map-place :
      (index : Dict ℕ) (o : Option ℕ) (p : A) (dst : List A) (rest : List String)
      → lookup (key p) index ≡ o
      → IsIndex index (map key dst)
      → map key (place key o p dst) ++ rest
        ≡ map key dst ++ elim o [ none ↦ key p ∷ rest | some i ↦ rest ]
  map-place index none p dst rest h x =
      rw (map-append key dst p) (append_assoc (map key dst) (key p) rest)
  map-place index (some i) p dst rest h x = rw (map-set key dst i p (x.finds (key p) i h)) refl

  map-merge_each :
      (index : Dict ℕ) (src dst : List A)
      → IsIndex index (map key dst)
      → map key (merge_each key index dst src) ≡ map key dst ++ fresh index (map key src)
  map-merge_each index [] dst x = sym (append-nil (map key dst))
  map-merge_each index (p ∷ src) dst x =
      map-merge_each index src (place key (lookup (key p) index) p dst)
        (place-IsIndex key index (lookup (key p) index) p dst refl x)
      ∙ map-place index (lookup (key p) index) p dst (fresh index (map key src)) refl x

  -- The merged list keeps the elements of `dst` at their places, and the keys of `src` that `dst` has not
  -- come behind them in their order.
  map-merge_by :
      (dst src : List A)
      → map key (merge_by key dst src) ≡ map key dst ++ without (map key dst) (map key src)
  map-merge_by dst src =
      map-merge_each (index_from 0 (map key dst) []) src dst (index_from-IsIndex (map key dst))
      ∙ ap (λ ks. map key dst ++ ks) (fresh_lem (map key dst) (map key src))

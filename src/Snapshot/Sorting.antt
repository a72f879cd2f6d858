-- ===== src/Snapshot/Sorting.antt =====
-- internal/snapshot/maker.go: the sort of `PruneOld` by exchanges.
use eth_node_operator.Common.{
  ℕ, zero, suc, ◌+◌, ◌≤◌, ◌≡◌, refl, Bool, true, false, List, [], ◌∷◌, All, length, if◌then◌else◌,
  ltb, arith, ap, ◌∙◌,
}
use eth_node_operator.Snapshot.{BlockDir, settle, exchange_sort}

-- How often a property holds in a list.
abbrev pub count_if : (BlockDir → Bool) → List BlockDir → ℕ
count_if p [] = 0
count_if p (d ∷ ds) = (if p d then 1 else 0) + count_if p ds

-- No block of the list is below the number.
abbrev pub AtLeast : ℕ → List BlockDir → Type 0
AtLeast n ds = All (λ d. n ≤ d.block) ds

abbrev pub Sorted : List BlockDir → Type 0
Sorted [] = Unit
Sorted (d ∷ ds) = AtLeast d.block ds × Sorted ds

-- What one round of the outer loop does.
record Settled (x : BlockDir) (xs : List BlockDir) (r : BlockDir × List BlockDir) : Type 0 where
  same_length : length r.1 ≡ length xs
  below : r.0.block ≤ x.block
  least : AtLeast r.0.block r.1
  same_count : (p : BlockDir → Bool) → count_if p (r.0 ∷ r.1) ≡ count_if p (x ∷ xs)

AtLeast-weaken : {m n : ℕ} → m ≤ n → (ds : List BlockDir) → AtLeast n ds → AtLeast m ds
AtLeast-weaken le [] h = _
AtLeast-weaken le (d ∷ ds) (h, hs) = (omega arith, AtLeast-weaken le ds hs)

-- A swap, or none, keeps the count of two elements.
pair-count :
    (b : Bool) (p : BlockDir → Bool) (x y : BlockDir) (m n r : ℕ)
    → m + n ≡ (if p (if b then y else x) then 1 else 0) + r
    → m + ((if p (if b then x else y) then 1 else 0) + n)
      ≡ (if p x then 1 else 0) + ((if p y then 1 else 0) + r)
pair-count true p x y m n r h = omega arith
pair-count false p x y m n r h = omega arith

-- The smaller of two elements is at most each of them, wherever they stand.
pair-bounds :
    (x y : BlockDir) (l : ℕ)
    → l ≤ (if ltb y.block x.block then y else x).block
    → l ≤ x.block × l ≤ (if ltb y.block x.block then x else y).block
pair-bounds x y l h = ground arith

settle-Settled : (x : BlockDir) (xs : List BlockDir) → Settled x xs (settle x xs)
settle-Settled x [] = record {
  same_length = refl;
  below = omega arith;
  least = _;
  same_count = λ p. refl;
}
settle-Settled x (y ∷ ys) =
    let rec = settle-Settled (if ltb y.block x.block then y else x) ys in
    record {
      same_length = ap suc rec.same_length;
      below = (pair-bounds x y _ rec.below).0;
      least = ((pair-bounds x y _ rec.below).1, rec.least);
      same_count = λ p. pair-count (ltb y.block x.block) p x y _ _ _ (rec.same_count p);
    }

-- Lists of one length with the same counts: the one is the other in some order.
abbrev pub SameEntries : List BlockDir → List BlockDir → Type 0
SameEntries xs ys = (p : BlockDir → Bool) → count_if p xs ≡ count_if p ys

pub exchange_sort-same :
    (n : ℕ) (xs : List BlockDir)
    → SameEntries (exchange_sort n xs) xs × length (exchange_sort n xs) ≡ length xs
unfolding exchange_sort
exchange_sort-same zero xs = (λ p. refl, refl)
exchange_sort-same (suc n) [] = (λ p. refl, refl)
exchange_sort-same (suc n) (x ∷ xs) =
    let one = settle-Settled x xs in
    let (more, len) = exchange_sort-same n (settle x xs).1 in
    (
      λ p. ap (λ c. (if p (settle x xs).0 then 1 else 0) + c) (more p) ∙ one.same_count p,
      ap suc (len ∙ one.same_length),
    )

-- How many blocks of a list are below a number.
abbrev pub below : ℕ → BlockDir → Bool
below n d = ltb d.block n

AtLeast-none_below : (n : ℕ) (ds : List BlockDir) → AtLeast n ds → count_if (below n) ds ≡ 0
AtLeast-none_below n [] h = refl
AtLeast-none_below n (d ∷ ds) (h, hs) =
    let rest = AtLeast-none_below n ds hs in ground (arith, rest)

none_below-AtLeast : (n : ℕ) (ds : List BlockDir) → count_if (below n) ds ≡ 0 → AtLeast n ds
none_below-AtLeast n [] h = _
none_below-AtLeast n (d ∷ ds) h = (ground arith, none_below-AtLeast n ds (ground arith))

pub exchange_sort-Sorted :
    (n : ℕ) (xs : List BlockDir) → length xs ≤ n → Sorted (exchange_sort n xs)
unfolding exchange_sort
exchange_sort-Sorted zero [] le = _
exchange_sort-Sorted zero (x ∷ xs) le = absurd (omega arith)
exchange_sort-Sorted (suc n) [] le = _
exchange_sort-Sorted (suc n) (x ∷ xs) le =
    let one = settle-Settled x xs in
    let same = one.same_length in
    let bound : length (settle x xs).1 ≤ n = omega arith in
    (
      none_below-AtLeast _ _ (
          (exchange_sort-same n (settle x xs).1).0 (below (settle x xs).0.block)
          ∙ AtLeast-none_below _ _ one.least),
      exchange_sort-Sorted n (settle x xs).1 bound,
    )

-- ===== src/Snapshot/Pruning.antt =====
-- internal/snapshot/maker.go: what `PruneOld` removes and what it keeps.
use eth_node_operator.Common.{
  ℕ, zero, suc, ◌+◌, ◌-◌, ◌≤◌, ◌<◌, String, ◌<>◌, ◌≡◌, refl, sym, subst, ap, ◌∙◌, List, [], ◌∷◌,
  ◌++◌, map, All, length, length-append, ok, err, Action, arith,
}
use eth_node_operator.Common.Int.{pos, negsuc}
use eth_node_operator.Snapshot.{DirEntry, BlockDir, block_dirs, sort, remove_first, prune_old}
use eth_node_operator.Snapshot.Sorting.{
  AtLeast, Sorted, SameEntries, count_if, exchange_sort-same, exchange_sort-Sorted,
}

-- A directory whose entries can all be removed; the world is the paths that were removed, the first one in front.
abbrev pub remove_logged : String → Action (List String) (Unit {0})
remove_logged path removed = (ok tt, removed ++ path ∷ [])

-- A list of directories of which a first part is removed.
pub record Pruned (output_dir : String) (dirs : List BlockDir) (keep : ℕ)
    (ran : Action (List String) (Unit {0})) : Type 0 where
  pub removed : List BlockDir
  pub kept : List BlockDir
  pub same_entries : SameEntries (removed ++ kept) dirs
  pub keeps_newest : All (λ d. AtLeast d.block kept) removed
  pub at_most : length kept ≤ keep
  pub enough : keep ≤ length dirs → length kept ≡ keep
  pub few : length dirs ≤ keep → removed ≡ []
  pub removes : ran [] ≡ (ok tt, map (λ d. output_dir <> "/" <> d.name) removed)

-- A part of a list up to an index, and the part from it on.
record Parts (n : ℕ) (ds : List BlockDir) : Type 0 where
  front : List BlockDir
  back : List BlockDir
  whole : front ++ back ≡ ds
  front_length : length front ≡ n

parts : (n : ℕ) (ds : List BlockDir) → n ≤ length ds → Parts n ds
parts zero ds le = record { front = []; back = ds; whole = refl; front_length = refl }
parts (suc n) [] le = absurd (omega arith)
parts (suc n) (d ∷ ds) le =
    let rest = parts n ds (omega arith) in
    record {
      front = d ∷ rest.front;
      back = rest.back;
      whole = ap (λ l. d ∷ l) rest.whole;
      front_length = ap suc rest.front_length;
    }

AtLeast-append_right :
    (n : ℕ) (front back : List BlockDir) → AtLeast n (front ++ back) → AtLeast n back
AtLeast-append_right n [] back h = h
AtLeast-append_right n (d ∷ front) back (h, hs) = AtLeast-append_right n front back hs

Sorted-append :
    (front back : List BlockDir) → Sorted (front ++ back) → All (λ d. AtLeast d.block back) front
Sorted-append [] back h = _
Sorted-append (d ∷ front) back (h, hs) =
    (AtLeast-append_right d.block front back h, Sorted-append front back hs)

append_assoc : (xs ys zs : List String) → (xs ++ ys) ++ zs ≡ xs ++ (ys ++ zs)
append_assoc [] ys zs = refl
append_assoc (x ∷ xs) ys zs = ap (λ l. x ∷ l) (append_assoc xs ys zs)

append_nil : (xs : List String) → xs ++ [] ≡ xs
append_nil [] = refl
append_nil (x ∷ xs) = ap (λ l. x ∷ l) (append_nil xs)

remove_first-logged :
    (output_dir : String) (front back : List BlockDir) (log : List String)
    → remove_first output_dir remove_logged (length front) (front ++ back) log
      ≡ (ok tt, log ++ map (λ d. output_dir <> "/" <> d.name) front)
unfolding remove_first
remove_first-logged output_dir [] back log = ap (λ l. (ok tt, l)) (sym (append_nil log))
remove_first-logged output_dir (d ∷ front) back log =
    remove_first-logged output_dir front back (log ++ (output_dir <> "/" <> d.name) ∷ [])
    ∙ ap (λ l. (ok tt, l)) (append_assoc log ((output_dir <> "/" <> d.name) ∷ []) _)

remove_first-Parts :
    (output_dir : String) (n : ℕ) (ds : List BlockDir) (split : Parts n ds)
    → remove_first output_dir remove_logged n ds []
      ≡ (ok tt, map (λ d. output_dir <> "/" <> d.name) split.front)
remove_first-Parts output_dir n ds split =
    ap (λ l. remove_first output_dir remove_logged n l []) (sym split.whole)
    ∙ ap (λ k. remove_first output_dir remove_logged k (split.front ++ split.back) [])
        (sym split.front_length)
    ∙ remove_first-logged output_dir split.front split.back []

length-nil : (ds : List BlockDir) → length ds ≡ 0 → ds ≡ []
length-nil [] h = refl
length-nil (d ∷ ds) h = absurd (omega arith)

sort-Sorted : (dirs : List BlockDir) → Sorted (sort dirs)
unfolding sort
sort-Sorted dirs = exchange_sort-Sorted (length dirs) dirs (omega arith)

sort-same : (dirs : List BlockDir) → SameEntries (sort dirs) dirs × length (sort dirs) ≡ length dirs
unfolding sort
sort-same dirs = exchange_sort-same (length dirs) dirs

remove_first-Pruned :
    (output_dir : String) (dirs : List BlockDir) (keep : ℕ)
    → Pruned output_dir dirs keep
        (remove_first output_dir remove_logged (length dirs - keep) (sort dirs))
remove_first-Pruned output_dir dirs keep =
    let (same, len) = sort-same dirs in
    let split = parts (length dirs - keep) (sort dirs) (omega (arith, len)) in
    let total = ap length split.whole ∙ len in
    let sizes = length-append split.front split.back in
    let cut = split.front_length in
    record {
      removed = split.front;
      kept = split.back;
      same_entries = λ p. ap (count_if p) split.whole ∙ same p;
      keeps_newest =
          Sorted-append split.front split.back (subst Sorted (sym split.whole) (sort-Sorted dirs));
      at_most = omega arith;
      enough = λ h. omega arith;
      few = λ h. length-nil split.front (omega arith);
      removes = remove_first-Parts output_dir (length dirs - keep) (sort dirs) split;
    }

-- Where every removal succeeds, `PruneOld` with a number to keep that is not negative succeeds and removes exactly the directories of a list
-- `removed`, in its order. That list, followed by a list `kept`, has the numbered directories of the
-- entries, each as often as they have it (counted by any test); no block of `kept` is below one of
-- `removed`; `kept` has at most the number to keep, and exactly that many if there are as many
-- numbered directories; and nothing is removed if there are no more than the number to keep.
pub prune_old-Pruned :
    (output_dir : String) (entries : List DirEntry) (keep : ℕ)
    → Pruned output_dir
        (block_dirs entries)
        keep
        (prune_old output_dir remove_logged (ok entries) (pos keep))
unfolding prune_old
prune_old-Pruned output_dir entries keep = remove_first-Pruned output_dir (block_dirs entries) keep

remove_first-past_end :
    (output_dir : String) (n : ℕ) (ds : List BlockDir) (log : List String)
    → length ds < n
    → remove_first output_dir remove_logged n ds log
      ≡ (err "runtime error: index out of range", log ++ map (λ d. output_dir <> "/" <> d.name) ds)
unfolding remove_first
remove_first-past_end output_dir zero ds log h = absurd (omega (arith, h))
remove_first-past_end output_dir (suc n) [] log h =
    ap (λ l. (err "runtime error: index out of range", l)) (sym (append_nil log))
remove_first-past_end output_dir (suc n) (d ∷ ds) log h =
    remove_first-past_end output_dir n ds (log ++ (output_dir <> "/" <> d.name) ∷ []) (omega arith)
    ∙ ap (λ l. (err "runtime error: index out of range", l))
        (append_assoc log ((output_dir <> "/" <> d.name) ∷ []) _)

-- With a negative number to keep, and every removal successful, `PruneOld` removes every numbered
-- directory, in the order of the sort, and then panics on an index past the end.
prune_old_negative :
    (output_dir : String) (entries : List DirEntry) (k : ℕ)
    → prune_old output_dir remove_logged (ok entries) (negsuc k) [] ≡ (
      err "runtime error: index out of range",
      map (λ d. output_dir <> "/" <> d.name) (sort (block_dirs entries)),
    )
unfolding prune_old
prune_old_negative output_dir entries k =
    remove_first-past_end output_dir (length (block_dirs entries) + suc k)
      (sort (block_dirs entries)) [] (omega (arith, (sort-same (block_dirs entries)).1))

-- ===== src/Snapshot.antt =====
-- internal/snapshot/maker.go: `PruneOld`, which keeps the newest snapshots; the children have the downloader and the server. The directory's entries, and the removal of
-- a path, are given.
pub mod Sorting
pub mod Download
pub mod Serve
mod Segments
mod Mirror
mod Restored
mod DownloadTests
mod Pruning
mod Tests
use eth_node_operator.Common.{
  ℕ, zero, suc, ◌+◌, ◌-◌, String, ◌<>◌, Bool, true, false, Option, none, some, List, [], ◌∷◌, ◌++◌,
  length, if◌then◌else◌, ltb, Result, ok, err, Action, pure, fail, wrap, continue, ◌>>=◌, ◌>>◌,
}
use eth_node_operator.Common.Int.{ℤ, pos, negsuc, parse_uint}

pub record DirEntry : Type 0 where
  pub name : String
  pub is_dir : Bool

-- A directory whose name is a block number.
pub record BlockDir : Type 0 where
  pub name : String
  pub block : ℕ

abbrev pub numeric : Option ℕ → String → List BlockDir → List BlockDir
numeric none name rest = rest
numeric (some n) name rest = record { name = name; block = n } ∷ rest

-- The directories with a number for a name, in the order of the entries.
unfoldable pub block_dirs : List DirEntry → List BlockDir
block_dirs [] = []
block_dirs (e ∷ es) =
    let rest = block_dirs es in if e.is_dir then numeric (parse_uint e.name) e.name rest else rest

-- The inner loop: the element at `i` is compared with each later one, and changes its place with a smaller one. The result is what stands at
-- `i` afterwards, and what stands behind it.
abbrev pub settle : BlockDir → List BlockDir → BlockDir × List BlockDir
settle x [] = (x, [])
settle x (y ∷ ys) =
    let (least, rest) = settle (if ltb y.block x.block then y else x) ys in
    (least, (if ltb y.block x.block then x else y) ∷ rest)

-- The outer loop, over as many elements as are left.
unfoldable pub exchange_sort : ℕ → List BlockDir → List BlockDir
exchange_sort zero dirs = dirs
exchange_sort (suc n) [] = []
exchange_sort (suc n) (x ∷ xs) = let (least, rest) = settle x xs in least ∷ exchange_sort n rest

unfoldable pub sort : List BlockDir → List BlockDir
unfolding exchange_sort
sort dirs = exchange_sort (length dirs) dirs

-- `len(dirs) - keep`, where it is not negative.
abbrev pub to_remove : ℕ → ℤ → ℕ
to_remove n (pos keep) = n - keep
to_remove n (negsuc keep) = n + suc keep

module _ {W : Type 0} (output_dir : String) (remove_all : String → Action W Unit) where
  -- An index past the end panics.
  unfoldable pub remove_first : ℕ → List BlockDir → Action W Unit
  remove_first zero dirs = pure tt
  remove_first (suc n) [] = fail "runtime error: index out of range"
  remove_first (suc n) (d ∷ dirs) = do
    wrap (λ e. "remove old snapshot " <> output_dir <> "/" <> d.name <> ": " <> e)
        (remove_all (output_dir <> "/" <> d.name))
    remove_first n dirs

  -- `entries` is what the read of the directory returns.
  unfoldable pub prune_old : Result (List DirEntry) → ℤ → Action W Unit
  unfolding remove_first sort block_dirs
  prune_old (err e) keep = fail ("read output dir: " <> e)
  prune_old (ok entries) keep =
      remove_first (to_remove (length (block_dirs entries)) keep) (sort (block_dirs entries))

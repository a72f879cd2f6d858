-- ===== src/Snapshot/Tests.antt =====
-- internal/snapshot/maker.go: the theorems on an output directory with three snapshots and a file.
use eth_node_operator.Common.{ok, err, true, false, ◌≡◌, refl, [], ◌∷◌, List, map, String, ◌<>◌}
use eth_node_operator.Common.Int.{pos, negsuc}
use eth_node_operator.Snapshot.{DirEntry, block_dirs, prune_old}
use eth_node_operator.Snapshot.Pruning.{Pruned, prune_old-Pruned, remove_logged}

abbrev folder : String → DirEntry
folder name = record { name = name; is_dir = true }

abbrev entries : List DirEntry
entries =
    folder "1000"
    ∷ folder "200"
    ∷ folder "30"
    ∷ folder "latest"
    ∷ record { name = "7"; is_dir = false }
    ∷ []

runs :
    prune_old "/snapshots" remove_logged (ok entries) (pos 1) []
    ≡ (ok tt, "/snapshots/30" ∷ "/snapshots/200" ∷ [])
unfolding prune_old eth_node_operator.Common.Int.parse_uint
runs = refl

-- Fewer than none are to be kept: the loop runs past the last directory.
runs_negative : prune_old "/snapshots" remove_logged (ok entries) (negsuc 0) [] ≡ (
  err "runtime error: index out of range",
  "/snapshots/30" ∷ "/snapshots/200" ∷ "/snapshots/1000" ∷ [],
)
unfolding prune_old eth_node_operator.Common.Int.parse_uint
runs_negative = refl

prune_old-Pruned_example :
    Pruned "/snapshots"
      (block_dirs entries)
      1
      (prune_old "/snapshots" remove_logged (ok entries) (pos 1))
prune_old-Pruned_example = prune_old-Pruned "/snapshots" entries 1

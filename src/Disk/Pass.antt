-- ===== src/Disk/Pass.antt =====
-- internal/disk/manager.go: `Reconcile`, which returns what it did even when it fails.
use eth_node_operator.Common.{
  String, ◌<>◌, Bool, Option, none, some, List, [], ◌∷◌, ◌++◌, if◌then◌else◌, ◌==◌, Result, ok, err,
  Runner,
}
use eth_node_operator.Types.{DiskSpec}
use eth_node_operator.Disk.{Files, resolve_target, ensure_formatted, ensure_mounted, ensure_fstab}

-- The actions so far, with the error that ends the pass.
abbrev pub Outcome : Type 0
Outcome = List String × Option String

-- A step whose error ends the pass, under the given name.
abbrev pub then_step :
    {W A : Type 0} → String → List String → Result A × W → (A → W → Outcome × W) → Outcome × W
then_step name actions (ok a, w) next = next a w
then_step name actions (err e, w) next = ((actions, some (name <> ": " <> e)), w)

abbrev pub add_if : Bool → String → List String → List String
add_if b action actions = if b then actions ++ action ∷ [] else actions

module _ {W : Type 0} (run : Runner W) (files : Files W) (spec : DiskSpec) where
  -- 4. The table of file systems
  unfoldable pub fstab_step : String → List String → W → Outcome × W
  fstab_step target actions w =
      then_step "fstab" actions
        (ensure_fstab run files target spec.mount_path spec.fs_type spec.options w)
        (λ added w'.
          ((add_if added ("disk: added " <> target <> " to /etc/fstab") actions, none), w'))

  -- 3. The mount
  unfoldable pub mount_step : String → List String → W → Outcome × W
  unfolding fstab_step
  mount_step target actions w =
      then_step ("mount " <> target <> " → " <> spec.mount_path) actions
        (ensure_mounted run files target spec.mount_path spec.fs_type spec.options w)
        (λ mounted.
          fstab_step target
            (add_if mounted ("disk: mounted " <> target <> " → " <> spec.mount_path) actions))

  -- 2. The file system
  unfoldable pub format_step : String → List String → W → Outcome × W
  unfolding mount_step
  format_step target actions w =
      then_step ("format " <> target) actions (ensure_formatted run files target spec.fs_type w)
        (λ formatted.
          mount_step target
            (add_if formatted ("disk: formatted " <> target <> " as " <> spec.fs_type) actions))

  -- 1. The target, and the steps after it
  unfoldable pub reconcile : W → Outcome × W
  unfolding format_step
  reconcile w =
      if spec.mount_path == ""
      then (([], none), w)
      else then_step "resolve target device" [] (resolve_target run files spec w)
          (λ (target, assembled). format_step target assembled)

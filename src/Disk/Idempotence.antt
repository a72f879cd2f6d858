-- ===== src/Disk/Idempotence.antt =====
-- internal/disk/manager.go: a pass over a disk that is in its desired state.
use eth_node_operator.Common.{
  String, ◌≡◌, ◌≢◌, refl, true, false, Option, none, List, [], ◌∷◌, ◌==◌, eq_iff, ok, Runner, arith,
}
use eth_node_operator.Common.Text.{trim_space}
use eth_node_operator.Types.{DiskSpec}
use eth_node_operator.Disk.{Files, resolve_target, ensure_formatted, ensure_mounted, ensure_fstab}
use eth_node_operator.Disk.Commands.{blkid, findmnt, in_fstab}
use eth_node_operator.Disk.Pass.{reconcile}

pub not_empty : (s : String) → s ≢ "" → (s == "") ≡ false
not_empty s h = ground (arith, eq_iff s "")

module _ {W : Type 0} (run : Runner W) (files : Files W) where
  -- A disk that is formatted, mounted and in the table of file systems, as the commands and the table tell in the worlds that
  -- follow each other.
  pub record IsInPlace (spec : DiskSpec) (device : String) (w : W) : Type 0 where
    pub fs_type : String
    pub mount : String
    pub table : String
    pub blkid_error : Option String
    pub w1 : W
    pub w2 : W
    pub w3 : W
    pub formatted : run (blkid device) w ≡ ((fs_type, blkid_error), w1)
    pub has_fs : trim_space fs_type ≢ ""
    pub mounted : run (findmnt spec.mount_path) w1 ≡ ((mount, none), w2)
    pub has_mount : trim_space mount ≢ ""
    pub read : files.read_fstab w2 ≡ (ok table, w3)
    pub listed : in_fstab spec.mount_path table ≡ true

  resolve_target-one :
      (spec : DiskSpec) (device : String) (w : W)
      → spec.devices ≡ device ∷ []
      → resolve_target run files spec w ≡ (ok (device, []), w)
  unfolding resolve_target
  resolve_target-one spec device w one = rw one refl

  ensure_formatted-has_fs :
      (device fs_type out : String) (e : Option String) (w w1 : W)
      → run (blkid device) w ≡ ((out, e), w1)
      → (trim_space out == "") ≡ false
      → ensure_formatted run files device fs_type w ≡ (ok false, w1)
  unfolding ensure_formatted
  ensure_formatted-has_fs device fs_type out e w w1 ran full = rw (ran, full) refl

  ensure_mounted-has_mount :
      (device path fs_type out : String) (options : List String) (w w1 : W)
      → run (findmnt path) w ≡ ((out, none), w1)
      → (trim_space out == "") ≡ false
      → ensure_mounted run files device path fs_type options w ≡ (ok false, w1)
  unfolding ensure_mounted
  ensure_mounted-has_mount device path fs_type out options w w1 ran full = rw (ran, full) refl

  ensure_fstab-listed :
      (device path fs_type table : String) (options : List String) (w w1 : W)
      → files.read_fstab w ≡ (ok table, w1)
      → in_fstab path table ≡ true
      → ensure_fstab run files device path fs_type options w ≡ (ok false, w1)
  unfolding ensure_fstab
  ensure_fstab-listed device path fs_type table options w w1 read listed = rw (read, listed) refl

  -- A pass over one disk that is in place already does nothing: it succeeds without an action, and leaves the world in
  -- which `blkid`, `findmnt` and the read of the table have left it.
  pub reconcile-IsInPlace :
      (spec : DiskSpec) (device : String) (w : W) (place : IsInPlace spec device w)
      → spec.mount_path ≢ ""
      → spec.devices ≡ device ∷ []
      → reconcile run files spec w ≡ (([], none), place.w3)
  unfolding reconcile
  reconcile-IsInPlace spec device w place path one =
      rw
        (
          not_empty spec.mount_path path,
          resolve_target-one spec device w one,
          ensure_formatted-has_fs device spec.fs_type place.fs_type place.blkid_error w place.w1
              place.formatted (not_empty (trim_space place.fs_type) place.has_fs),
          ensure_mounted-has_mount device spec.mount_path spec.fs_type place.mount spec.options
              place.w1 place.w2 place.mounted (not_empty (trim_space place.mount) place.has_mount),
          ensure_fstab-listed device spec.mount_path spec.fs_type place.table spec.options place.w2
              place.w3 place.read place.listed,
        )
        refl

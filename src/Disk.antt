-- ===== src/Disk.antt =====
-- internal/disk/manager.go: the disk of a host, from bare block devices to a mounted file system. Commands run through the
-- runner, with their name as the first argument; the files that the manager reads and writes are the fields of `Files`.
pub mod Commands
pub mod Pass
mod Idempotence
mod Safety
mod Tests
use eth_node_operator.Common.{
  ℕ, String, ◌<>◌, Bool, true, false, not, ◌&&◌, ◌||◌, Option, none, some, List, [], ◌∷◌, ◌++◌, map,
  if◌then◌else◌, ◌==◌, eqb, leb, length, is_empty, get_elem?, Result, ok, err, Action, pure, fail,
  wrap, continue, ◌>>=◌, ◌>>◌, Runner, exec, Output,
}
use eth_node_operator.Common.Int.{ℤ, pos, int_ltb}
use eth_node_operator.Common.Text.{trim_space, fields, split, contains, decimal, strip_prefix}
use eth_node_operator.Types.{DiskSpec}
use eth_node_operator.Disk.Commands.{
  BlockDevice, is_eligible, eligible, join_commas, join_spaces, line_mounts, any_mounts, in_fstab,
  fstab_entry, or_ext4, mkfs, blkid, findmnt, mount, says_running,
}

-- The decoder of `lsblk`'s JSON, and the calls on directories and files.
pub record Files (W : Type 0) : Type 0 where
  pub parse_lsblk : String → Result (List BlockDevice)
  pub make_dir : String → Action W Unit
  pub read_fstab : Action W String
  pub back_up_fstab : W → W
  pub append_fstab : String → Action W Unit
  pub append_mdadm : String → W → W
  pub device_uuid : String → Action W String

module _ {W : Type 0} (run : Runner W) (files : Files W) where
  -- A command whose error is returned with what it printed.
  abbrev pub checked : String → List String → Action W Unit
  checked name args w =
      let ((out, e), w') = run args w in
      (elim e [ none ↦ ok tt | some x ↦ err (name <> ": " <> out <> ": " <> x) ], w')

  unfoldable pub discover_devices : Action W (List BlockDevice)
  discover_devices = do
    out ←
        wrap (λ e. "lsblk: " <> e)
          (exec run ("lsblk" ∷ "-J" ∷ "-o" ∷ "NAME,PATH,TYPE,SIZE,MOUNTPOINT,FSTYPE" ∷ []))
    devices ← wrap (λ e. "parse lsblk output: " <> e) (λ w. (files.parse_lsblk out, w))
    pure (eligible devices)

  unfoldable pub resolve_devices : List String → Action W (List String)
  unfolding discover_devices
  resolve_devices [] = do devices ← discover_devices; pure (map (λ d. d.path) devices)
  resolve_devices (d ∷ ds) = pure (d ∷ ds)

  -- The scan is kept in the configuration of mdadm; its errors are dropped.
  abbrev pub save_scan : Output → W → W
  save_scan (out, some e) w = w
  save_scan (out, none) w = if out == "" then w else files.append_mdadm (out <> "\n") w

  create_raid0 : String → List String → Action W Bool
  create_raid0 array_device devices = do
    checked "mdadm create" (
        "mdadm"
        ∷ "--create"
        ∷ array_device
        ∷ "--level=0"
        ∷ ("--raid-devices=" <> decimal (length devices))
        ∷ "--force"
        ∷ devices)
    λ w.
        let (scan, w1) = run ("mdadm" ∷ "--detail" ∷ "--scan" ∷ []) w in
        let (_, w2) = run ("update-initramfs" ∷ "-u" ∷ []) (save_scan scan w1) in (ok true, w2)

  unfoldable pub ensure_raid0 : String → List String → Action W Bool
  unfolding create_raid0
  ensure_raid0 array_device devices w =
      let (detail, w') = run ("mdadm" ∷ "--detail" ∷ array_device ∷ []) w in
      if says_running detail then (ok false, w') else create_raid0 array_device devices w'

  raid_target : String → List String → Action W (String × List String)
  unfolding ensure_raid0
  raid_target array_device devices = do
    assembled ← wrap (λ e. "RAID0 assembly: " <> e) (ensure_raid0 array_device devices)
    pure (
      array_device,
      if assembled
          then ("disk: assembled RAID0 array "
              <> array_device
              <> " from ["
              <> join_spaces devices
              <> "]")
            ∷ []
          else [],
    )

  choose_target : DiskSpec → List String → Action W (String × List String)
  unfolding raid_target
  choose_target spec [] = fail "no eligible block devices found"
  choose_target spec (d ∷ ds) =
      if is_empty ds || int_ltb spec.raid_level (pos 0)
      then pure (d, [])
      else raid_target (if spec.array_device == "" then "/dev/md0" else spec.array_device) (d ∷ ds)

  unfoldable pub resolve_target : DiskSpec → Action W (String × List String)
  unfolding resolve_devices choose_target
  resolve_target spec = do devices ← resolve_devices spec.devices; choose_target spec devices

  make_fs : Option (List String) → String → Action W Bool
  make_fs none fs_type = fail ("unsupported filesystem type: " <> fs_type)
  make_fs (some args) fs_type = do checked ("mkfs." <> fs_type) args; pure true

  unfoldable pub ensure_formatted : String → String → Action W Bool
  unfolding make_fs
  ensure_formatted device fs_type w =
      let ((out, _), w') = run (blkid device) w in
      if not (trim_space out == "")
      then (ok false, w')
      else make_fs (mkfs (or_ext4 fs_type) device) (or_ext4 fs_type) w'

  -- An error of `findmnt` says that nothing is mounted.
  abbrev pub says_mounted : Output → Bool
  says_mounted (out, some e) = false
  says_mounted (out, none) = not (trim_space out == "")

  unfoldable pub is_mounted : String → Action W Bool
  is_mounted mount_path w =
      let (out, w') = run (findmnt mount_path) w in (ok (says_mounted out), w')

  do_mount : String → String → String → List String → Action W Bool
  do_mount device mount_path fs_type options = do
    wrap (λ e. "create mountpoint " <> mount_path <> ": " <> e) (files.make_dir mount_path)
    checked "mount" (mount device mount_path fs_type options)
    pure true

  unfoldable pub ensure_mounted : String → String → String → List String → Action W Bool
  unfolding is_mounted do_mount
  ensure_mounted device mount_path fs_type options = do
    mounted ← is_mounted mount_path
    if mounted then pure false else do_mount device mount_path fs_type options

  -- The UUID of the device, or its path where that is not found.
  uuid_of : String → Action W String
  uuid_of device w =
      let (r, w') = files.device_uuid device w in
      (ok (elim r [ ok uuid ↦ uuid | err e ↦ device ]), w')

  add_entry : String → String → String → List String → Action W Bool
  unfolding uuid_of
  add_entry device mount_path fs_type options = do
    uuid ← uuid_of device
    λ w. files.append_fstab (fstab_entry uuid mount_path fs_type options) (files.back_up_fstab w)
    pure true

  unfoldable pub ensure_fstab : String → String → String → List String → Action W Bool
  unfolding add_entry
  ensure_fstab device mount_path fs_type options = do
    existing ← wrap (λ e. "read fstab: " <> e) files.read_fstab
    if in_fstab mount_path existing then pure false else add_entry device mount_path fs_type options

-- ===== src/Disk/Tests.antt =====
-- internal/disk/manager.go: the theorems on a host with one disk, which is in its desired state.
use eth_node_operator.Common.{
  String, ◌≡◌, ◌≢◌, refl, none, some, List, [], ◌∷◌, ok, All, inl, Output,
}
use eth_node_operator.Common.Text.{trim_space, fields, split}
use eth_node_operator.Types.{DiskSpec, no_disk}
use eth_node_operator.Disk.{Files, discover_devices}
use eth_node_operator.Disk.Commands.{BlockDevice, is_eligible}
use eth_node_operator.Disk.Pass.{reconcile}
use eth_node_operator.Disk.Idempotence.{IsInPlace, reconcile-IsInPlace}
use eth_node_operator.Disk.Safety.{IsBare, IsUsed, discover_devices-IsBare, reconcile-none_left}

abbrev run_sim : List String → Unit {0} → Output × Unit {0}
run_sim args w = (("ext4", none), w)

abbrev device : BlockDevice
device = record {
  path = "/dev/nvme0n1";
  kind = "disk";
  mountpoint = "/data";
  fs_type = "ext4";
  children = 0;
}

abbrev blank_device : BlockDevice
blank_device = record device { mountpoint = ""; fs_type = "" }

abbrev files : BlockDevice → Files (Unit {0})
files d = record {
  parse_lsblk = λ out. ok (d ∷ []);
  make_dir = λ path w. (ok tt, w);
  read_fstab = λ w. (ok "# a comment\nUUID=1 /data ext4 defaults 0 0\n", w);
  back_up_fstab = λ w. w;
  append_fstab = λ entry w. (ok tt, w);
  append_mdadm = λ line w. w;
  device_uuid = λ d w. (ok "1", w);
}

abbrev spec : DiskSpec
spec = record no_disk { devices = "/dev/nvme0n1" ∷ []; mount_path = "/data"; fs_type = "ext4" }

some_text : ◌≢◌ {A = String} "ext4" ""
some_text e = cc

data_path : ◌≢◌ {A = String} "/data" ""
data_path e = cc

in_place : IsInPlace run_sim (files device) spec "/dev/nvme0n1" tt
unfolding trim_space fields split
in_place = record {
  fs_type = "ext4";
  mount = "ext4";
  table = "# a comment\nUUID=1 /data ext4 defaults 0 0\n";
  blkid_error = none;
  w1 = tt;
  w2 = tt;
  w3 = tt;
  formatted = refl;
  has_fs = some_text;
  mounted = refl;
  has_mount = some_text;
  read = refl;
  listed = refl;
}

reconcile-IsInPlace_example : reconcile run_sim (files device) spec tt ≡ (([], none), tt)
reconcile-IsInPlace_example =
    reconcile-IsInPlace run_sim (files device) spec "/dev/nvme0n1" tt in_place data_path refl

discover_devices_test :
    discover_devices run_sim (files blank_device) tt ≡ (ok (blank_device ∷ []), tt)
unfolding discover_devices is_eligible
discover_devices_test = refl

discover_devices-IsBare_example : All IsBare (blank_device ∷ [])
discover_devices-IsBare_example =
    discover_devices-IsBare run_sim (files blank_device) tt tt (blank_device ∷ [])
      discover_devices_test

device-IsUsed : IsUsed device
device-IsUsed = record { in_use = inl data_path }

reconcile-none_left_example :
    reconcile run_sim (files device) (record spec { devices = [] }) tt
    ≡ (([], some "resolve target device: no eligible block devices found"), tt)
reconcile-none_left_example =
    reconcile-none_left run_sim (files device) (record spec { devices = [] }) tt tt "ext4"
      (device ∷ []) data_path refl refl refl (device-IsUsed, _)

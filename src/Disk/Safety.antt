-- ===== src/Disk/Safety.antt =====
-- internal/disk/manager.go: which devices `DiscoverDevices` lets a pass use.
use eth_node_operator.Common.{
  ◌<◌, String, ◌<>◌, ◌≡◌, ◌≢◌, refl, subst, ap, Bool, true, false, not, ◌&&◌, ◌||◌, ◌⊎◌, none, some,
  List, [], ◌∷◌, All, ◌==◌, eqb, eq_iff, Bool-cases, inl, inr, Result, ok, err, ok-inj, Runner,
  wrap, exec, >>=-eq-ok, arith,
}
use eth_node_operator.Types.{DiskSpec}
use eth_node_operator.Disk.{Files, discover_devices, resolve_target}
use eth_node_operator.Disk.Commands.{BlockDevice, is_eligible, eligible}
use eth_node_operator.Disk.Pass.{reconcile}
use eth_node_operator.Disk.Idempotence.{not_empty}

-- A whole disk that is not mounted, not partitioned, and has no file system but for a member of an array.
pub record IsBare (d : BlockDevice) : Type 0 where
  pub whole : d.kind ≡ "disk"
  pub unmounted : d.mountpoint ≡ ""
  pub unpartitioned : d.children ≡ 0
  pub blank : (d.fs_type ≡ "") ⊎ (d.fs_type ≡ "linux_raid_member")

is_eligible-IsBare : (d : BlockDevice) → is_eligible d ≡ true → IsBare d
unfolding is_eligible
is_eligible-IsBare d h =
    bare (d.kind == "disk") (d.mountpoint == "") (d.fs_type == "")
      (d.fs_type == "linux_raid_member") (eqb d.children 0) refl refl refl refl refl h
  where
    bare :
        (a b c e f : Bool)
        → (d.kind == "disk") ≡ a
        → (d.mountpoint == "") ≡ b
        → (d.fs_type == "") ≡ c
        → (d.fs_type == "linux_raid_member") ≡ e
        → eqb d.children 0 ≡ f
        → (a && (not (not b || (not c && not e)) && f)) ≡ true
        → IsBare d
    bare a b c e f ha hb hc he hf h = record {
      whole = (eq_iff d.kind "disk").0 (ground (arith, ha, h));
      unmounted = (eq_iff d.mountpoint "").0 (ground (arith, hb, h));
      unpartitioned = ground (arith, hf, h);
      blank = ground (arith, hc, he, h, eq_iff d.fs_type "", eq_iff d.fs_type "linux_raid_member");
    }

eligible-IsBare : (ds : List BlockDevice) → All IsBare (eligible ds)
eligible-IsBare [] = _
eligible-IsBare (d ∷ ds) = elim (Bool-cases (is_eligible d)) [
  | inl e ↦ rw (e, eligible) (is_eligible-IsBare d e, eligible-IsBare ds)
  | inr e ↦ rw (e, eligible) (eligible-IsBare ds)
]

-- A device that is mounted or partitioned.
pub record IsUsed (d : BlockDevice) : Type 0 where
  pub in_use : (d.mountpoint ≢ "") ⊎ (0 < d.children)

is_eligible-IsUsed : (d : BlockDevice) → IsUsed d → is_eligible d ≡ false
unfolding is_eligible
is_eligible-IsUsed d u = ground (arith, u.in_use, eq_iff d.mountpoint "")

eligible-IsUsed : (ds : List BlockDevice) → All IsUsed ds → eligible ds ≡ []
eligible-IsUsed [] h = refl
eligible-IsUsed (d ∷ ds) h = rw (is_eligible-IsUsed d h.0, eligible) (eligible-IsUsed ds h.1)

abbrev pub lsblk : List String
lsblk = "lsblk" ∷ "-J" ∷ "-o" ∷ "NAME,PATH,TYPE,SIZE,MOUNTPOINT,FSTYPE" ∷ []

module _ {W : Type 0} (run : Runner W) (files : Files W) where
  -- Each device that the automatic discovery offers to a pass is a whole disk that is not mounted and not partitioned, and that has no file
  -- system but for a member of an array.
  pub discover_devices-IsBare :
      (w w1 : W) (ds : List BlockDevice)
      → discover_devices run files w ≡ (ok ds, w1)
      → All IsBare ds
  unfolding discover_devices
  discover_devices-IsBare w w1 ds h =
      let (out, ran, h1) = >>=-eq-ok (wrap (λ e. "lsblk: " <> e) (exec run lsblk)) _ w h in
      let (devices, parsed, h2) =
        >>=-eq-ok (wrap (λ e. "parse lsblk output: " <> e) (λ w. (files.parse_lsblk out, w))) _
          (run lsblk w).1 h1 in
      subst (All IsBare) (ok-inj (ap (λ (r : Result (List BlockDevice) × W). r.0) h2))
        (eligible-IsBare devices)

  resolve_target-none_left :
      (spec : DiskSpec) (w w1 : W) (out : String) (devices : List BlockDevice)
      → spec.devices ≡ []
      → run lsblk w ≡ ((out, none), w1)
      → files.parse_lsblk out ≡ ok devices
      → eligible devices ≡ []
      → resolve_target run files spec w ≡ (err "no eligible block devices found", w1)
  unfolding resolve_target
  resolve_target-none_left spec w w1 out devices auto ran parsed nothing =
      rw (auto, ran, parsed, nothing) refl

  -- Where the specification gives a mount path and names no devices, and each block device that `lsblk` lists is mounted or
  -- partitioned, a pass fails: it took no action, it says that it found no eligible block device, and it ran `lsblk` only.
  pub reconcile-none_left :
      (spec : DiskSpec) (w w1 : W) (out : String) (devices : List BlockDevice)
      → spec.mount_path ≢ ""
      → spec.devices ≡ []
      → run lsblk w ≡ ((out, none), w1)
      → files.parse_lsblk out ≡ ok devices
      → All IsUsed devices
      → reconcile run files spec w
        ≡ (([], some "resolve target device: no eligible block devices found"), w1)
  unfolding reconcile
  reconcile-none_left spec w w1 out devices path auto ran parsed used =
      rw
        (
          not_empty spec.mount_path path,
          resolve_target-none_left spec w w1 out devices auto ran parsed
              (eligible-IsUsed devices used),
        )
        refl

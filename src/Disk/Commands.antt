-- ===== src/Disk/Commands.antt =====
-- internal/disk/manager.go: the devices, the commands and the lines of the table of file systems.
use eth_node_operator.Common.{
  ℕ, String, ◌<>◌, Bool, true, false, not, ◌&&◌, ◌||◌, Option, none, some, List, [], ◌∷◌, ◌++◌,
  if◌then◌else◌, ◌==◌, eqb, is_empty, get_elem?, Output,
}
use eth_node_operator.Common.Text.{trim_space, fields, split, contains, strip_prefix}

-- A device of `lsblk`'s report; of its children only their number is read.
pub record BlockDevice : Type 0 where
  pub path : String
  pub kind : String
  pub mountpoint : String
  pub fs_type : String
  pub children : ℕ

-- The test of `DiscoverDevices`.
unfoldable pub is_eligible : BlockDevice → Bool
is_eligible d =
    d.kind == "disk"
    && (not (
          not (d.mountpoint == "")
          || (not (d.fs_type == "") && not (d.fs_type == "linux_raid_member")))
        && eqb d.children 0)

abbrev pub eligible : List BlockDevice → List BlockDevice
eligible [] = []
eligible (d ∷ ds) = let rest = eligible ds in if is_eligible d then d ∷ rest else rest

-- `strings.Join(texts, ",")`
abbrev pub join_commas : List String → String
join_commas [] = ""
join_commas (s ∷ rest) = elim rest [ [] ↦ s | t ∷ more ↦ s <> "," <> join_commas rest ]

-- `%v` of a slice of texts
abbrev pub join_spaces : List String → String
join_spaces [] = ""
join_spaces (s ∷ rest) = elim rest [ [] ↦ s | t ∷ more ↦ s <> " " <> join_spaces rest ]

-- Whether a line of the table mounts the path.
abbrev pub line_mounts : String → String → Bool
line_mounts mount_path line =
    let words = fields (trim_space line) in
    not (elim (strip_prefix "#" (trim_space line)) [ none ↦ false | some s ↦ true ])
    && elim (get_elem? words 1) [ none ↦ false | some word ↦ word == mount_path ]

abbrev pub any_mounts : String → List String → Bool
any_mounts mount_path [] = false
any_mounts mount_path (line ∷ lines) =
    let rest = any_mounts mount_path lines in if line_mounts mount_path line then true else rest

abbrev pub in_fstab : String → String → Bool
in_fstab mount_path text = any_mounts mount_path (split text b'\n')

abbrev pub fstab_entry : String → String → String → List String → String
fstab_entry uuid mount_path fs_type options =
    "\n# eth-node-operator managed\nUUID="
    <> uuid
    <> " "
    <> mount_path
    <> " "
    <> fs_type
    <> " "
    <> (if is_empty options then "defaults" else join_commas options)
    <> " 0 0\n"

abbrev pub or_ext4 : String → String
or_ext4 fs_type = if fs_type == "" then "ext4" else fs_type

-- The command that makes the file system, if its type is supported.
abbrev pub mkfs : String → String → Option (List String)
mkfs fs_type device =
    if fs_type == "ext4"
    then some (
        "mkfs.ext4" ∷ "-F" ∷ "-m" ∷ "0" ∷ "-E" ∷ "lazy_itable_init=0,lazy_journal_init=0" ∷ device
        ∷ [])
    else if fs_type == "xfs"
    then some ("mkfs.xfs" ∷ "-f" ∷ device ∷ [])
    else none

abbrev pub blkid : String → List String
blkid device = "blkid" ∷ "-s" ∷ "TYPE" ∷ "-o" ∷ "value" ∷ device ∷ []

abbrev pub findmnt : String → List String
findmnt mount_path = "findmnt" ∷ "--noheadings" ∷ "--target" ∷ mount_path ∷ []

abbrev pub mount : String → String → String → List String → List String
mount device mount_path fs_type options =
    "mount"
    ∷ "-t"
    ∷ fs_type
    ∷ ((if is_empty options then [] else "-o" ∷ join_commas options ∷ [])
        ++ device ∷ mount_path ∷ [])

abbrev pub says_running : Output → Bool
says_running (out, none) = contains out "State : clean" || contains out "State : active"
says_running (out, some e) = false

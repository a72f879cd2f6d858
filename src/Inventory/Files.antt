-- ===== src/Inventory/Files.antt =====
-- pkg/inventory/loader.go, cluster.go and pkg/profile/merger.go: the loops over the files of a directory. What a
-- directory and its files hold is given, and so is the decoder of YAML texts.
use Prim.Native.Char.{code}
use Prim.Native.String.{[], ◌∷◌}
use eth_node_operator.Common.{
  String, ◌<>◌, Bool, not, ◌||◌, Option, none, some, List, if◌then◌else◌, ◌==◌, eqb, Result, ok,
  err, map_err,
}
use eth_node_operator.Common.Dict.{Dict, lookup, insert}
use eth_node_operator.Types.{EthereumNode, Cluster, Profile}

-- An entry of a directory, and what a read of the file returns.
pub record Entry : Type 0 where
  pub name : String
  pub path : String
  pub is_dir : Bool
  pub contents : Result String

-- `filepath.Ext`, of a name without slashes: from its last dot on.
abbrev pub ext : String → String
ext [] = []
ext (c ∷ s) =
    let rest = ext s in if rest == "" then (if eqb (code c) b'.' then c ∷ s else []) else rest

abbrev pub is_skipped : Entry → Bool
is_skipped e = e.is_dir || not (ext e.name == ".yaml")

-- `LoadNode` and `LoadCluster`: `what` says which kind of file it is.
abbrev pub load_file {ℓ} : {A : Type ℓ} → String → (String → Result A) → Entry → Result A
load_file what unmarshal e = elim e.contents [
  | err x ↦ err ("read " <> what <> " " <> e.path <> ": " <> x)
  | ok text ↦ map_err (λ x. "parse " <> what <> " " <> e.path <> ": " <> x) (unmarshal text)
]

abbrev pub load_node : (String → Result EthereumNode) → Entry → Result EthereumNode
load_node unmarshal e = load_file "node file" unmarshal e

abbrev pub load_cluster : (String → Result Cluster) → Entry → Result Cluster
load_cluster unmarshal e = load_file "cluster" unmarshal e

abbrev pub cons_result {ℓ} : {A : Type ℓ} → Result A → Result (List A) → Result (List A)
cons_result (ok a) (ok rest) = ok (List.◌∷◌ a rest)
cons_result (ok a) (err e) = err e
cons_result (err e) rest = err e

-- The loop of `LoadAll` and of `LoadAllClusters`.
abbrev pub load_each {ℓ} : {A : Type ℓ} → (Entry → Result A) → List Entry → Result (List A)
load_each load List.[] = ok List.[]
load_each load (List.◌∷◌ e es) =
    let rest = load_each load es in if is_skipped e then rest else cons_result (load e) rest

abbrev pub load_all : (String → Result EthereumNode) → List Entry → Result (List EthereumNode)
load_all unmarshal entries = load_each (load_node unmarshal) entries

abbrev pub load_all_clusters : (String → Result Cluster) → List Entry → Result (List Cluster)
load_all_clusters unmarshal entries = load_each (load_cluster unmarshal) entries

-- The loop over the profiles in `LoadAllWithProfiles` and `LoadClusterNodes`: the last profile of a name stays.
abbrev pub load_profiles :
    (String → Result Profile) → List Entry → Dict Profile → Result (Dict Profile)
load_profiles unmarshal List.[] profiles = ok profiles
load_profiles unmarshal (List.◌∷◌ e es) profiles =
    let skipped = load_profiles unmarshal es profiles in
    if is_skipped e then skipped else elim e.contents [
      | err x ↦ err x
      | ok text ↦ elim (unmarshal text) [
        | err x ↦ err x
        | ok p ↦ load_profiles unmarshal es (insert p.name p profiles)
      ]
    ]

-- The walk of the profile loader: a profile needs a name, and a name that no profile has had.
abbrev pub add_profile : String → Profile → Dict Profile → Result (Dict Profile)
add_profile path p profiles =
    if p.name == ""
    then err ("profile " <> path <> " has no name field")
    else elim (lookup p.name profiles) [
      | some q ↦ err ("duplicate profile name \"" <> p.name <> "\" (found in " <> path <> ")")
      | none ↦ ok (insert p.name p profiles)
    ]

abbrev pub load_entry : (String → Result Profile) → Entry → Dict Profile → Result (Dict Profile)
load_entry unmarshal e profiles = elim (load_file "profile" unmarshal e) [
  | err x ↦ err x
  | ok p ↦ add_profile e.path p profiles
]

-- The end of what the walk visits: the error that it passes in, of the directory or of one below it, if there is one.
abbrev pub end_of_walk : Option String → Dict Profile → Result (Dict Profile)
end_of_walk none profiles = ok profiles
end_of_walk (some e) profiles = err e

-- The entries come in the order of the walk, up to the first error that it passes in, `failed`: the walk stops there, and at
-- the first error of an entry.
unfoldable pub load :
    (String → Result Profile) → Option String → List Entry → Dict Profile → Result (Dict Profile)
load unmarshal failed List.[] profiles = end_of_walk failed profiles
load unmarshal failed (List.◌∷◌ e es) profiles =
    let skipped = load unmarshal failed es profiles in
    if is_skipped e then skipped else elim (load_entry unmarshal e profiles) [
      | err x ↦ err x
      | ok more ↦ load unmarshal failed es more
    ]

-- A directory that may not exist: `none` where `os.Stat` fails, and else what `os.ReadDir` returns.
abbrev pub Dir : Type 0
Dir = Option (Result (List Entry))

abbrev pub read_profiles : String → (String → Result Profile) → Dir → Result (Dict Profile)
read_profiles message unmarshal none = ok List.[]
read_profiles message unmarshal (some (err e)) = err (message <> ": " <> e)
read_profiles message unmarshal (some (ok entries)) = load_profiles unmarshal entries List.[]

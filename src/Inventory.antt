-- ===== src/Inventory.antt =====
-- pkg/inventory/loader.go and cluster.go: how node files and cluster files become nodes with their whole
-- desired state.
pub mod Files
mod Keys
mod Expansion
mod Losses
mod Tests
use eth_node_operator.Common.{
  ℕ, not, ◌&&◌, leb, length, String, ◌<>◌, Bool, true, false, Option, none, some, List, [], ◌∷◌,
  ◌++◌, if◌then◌else◌, ◌==◌, Result, ok, err, map_err,
}
use eth_node_operator.Common.Int.{ℤ, pos, int_eq}
use eth_node_operator.Common.Dict.{Dict, lookup, insert_all}
use eth_node_operator.Inventory.Files.{
  Entry, Dir, load_all, load_cluster, read_profiles, cons_result,
}
use eth_node_operator.Types.{
  NodeSpec, Profile, EthereumNode, ClusterNode, Cluster, ClientSpec, NetworkSpec, empty_spec,
}

-- `if src != "" { dst = src }`
abbrev pub or_text : String → String → String
or_text dst src = if src == "" then dst else src

abbrev pub merge_execution : ClientSpec → ClientSpec → ClientSpec
merge_execution dst src = record dst {
  client = or_text dst.client src.client;
  image = or_text dst.image src.image;
  data_dir = or_text dst.data_dir src.data_dir;
  flags = insert_all dst.flags src.flags;
}

abbrev pub merge_consensus : ClientSpec → ClientSpec → ClientSpec
merge_consensus dst src = record dst {
  client = or_text dst.client src.client;
  image = or_text dst.image src.image;
  data_dir = or_text dst.data_dir src.data_dir;
}

abbrev pub merge_network : NetworkSpec → NetworkSpec → NetworkSpec
merge_network dst src = record dst {
  firewall = record {
    provider = or_text dst.firewall.provider src.firewall.provider;
    policy = or_text dst.firewall.policy src.firewall.policy;
    rules = dst.firewall.rules ++ src.firewall.rules;
  };
}

unfoldable pub merge_specs : NodeSpec → NodeSpec → NodeSpec
merge_specs dst src = record dst {
  execution = merge_execution dst.execution src.execution;
  consensus = merge_consensus dst.consensus src.consensus;
  mev = if src.mev.enabled then src.mev else dst.mev;
  network = merge_network dst.network src.network;
  system = record dst.system { packages = dst.system.packages ++ src.system.packages };
  maintenance = record dst.maintenance {
    window = record {
      schedule = or_text dst.maintenance.window.schedule src.maintenance.window.schedule;
    };
  };
}

-- The loop over the names of profiles.
abbrev pub merge_profiles : Dict Profile → List String → NodeSpec → Result NodeSpec
merge_profiles profiles [] base = ok base
merge_profiles profiles (name ∷ names) base = elim (lookup name profiles) [
  | none ↦ err ("profile \"" <> name <> "\" not found")
  | some p ↦ merge_profiles profiles names (merge_specs base p.spec)
]

abbrev pub over_base : NodeSpec → Result NodeSpec → Result NodeSpec
over_base spec (ok base) = ok (merge_specs base spec)
over_base spec (err e) = err e

abbrev pub merge_node_profiles : Dict Profile → EthereumNode → Result NodeSpec
merge_node_profiles profiles node =
    over_base node.spec (merge_profiles profiles node.profiles empty_spec)

abbrev pub or_port : ℤ → ℤ → ℤ
or_port port default_port = if int_eq port (pos 0) then default_port else port

abbrev pub cluster_port : Cluster → ℤ
cluster_port cluster = or_port cluster.default_port (pos 9000)

-- `append(cluster.Profiles, cn.Profiles...)` writes into the array of the cluster's profiles where it has room for the node's
-- own behind them, and takes an array of its own where it has not. `spare` is that room: the decoder leaves some behind a null
-- item of the list.
abbrev pub has_room : ℕ → ClusterNode → Bool
has_room spare cn = leb (length cn.profiles) spare

abbrev pub overwrite : List String → List String → List String
overwrite [] own = []
overwrite (t ∷ ts) [] = t ∷ ts
overwrite (t ∷ ts) (o ∷ os) = o ∷ overwrite ts os

-- What the nodes that are left leave of a node's own profiles in the array of the cluster.
abbrev pub shared_tail : ℕ → List String → List ClusterNode → List String
shared_tail spare tail [] = tail
shared_tail spare tail (cn ∷ cns) =
    shared_tail spare
      (if not cn.disabled && has_room spare cn then overwrite tail cn.profiles else tail) cns

-- The profiles of a node when `ExpandCluster` returns.
abbrev pub all_profiles : ℕ → Cluster → ClusterNode → List ClusterNode → List String
all_profiles spare cluster cn cns =
    cluster.profiles
    ++ (if has_room spare cn then shared_tail spare cn.profiles cns else cn.profiles)

abbrev pub expanded : ℕ → Cluster → ClusterNode → List ClusterNode → NodeSpec → EthereumNode
expanded spare cluster cn cns spec = record {
  name = cn.name;
  host = cn.host;
  port = or_port cn.port (cluster_port cluster);
  labels = cn.labels;
  profiles = all_profiles spare cluster cn cns;
  spec = spec;
}

-- The state of a node of a cluster, of the profiles as they stand in its turn; the error names the node.
unfoldable pub cluster_node_spec : Dict Profile → Cluster → ClusterNode → Result NodeSpec
unfolding merge_specs
cluster_node_spec profiles cluster cn = over_base cn.spec (
    map_err (λ e. "node " <> cn.name <> ": " <> e)
      (merge_profiles profiles (cluster.profiles ++ cn.profiles) empty_spec))

abbrev pub with_spec :
    ℕ
    → Cluster
    → ClusterNode
    → List ClusterNode
    → Result NodeSpec
    → Result (List EthereumNode)
    → Result (List EthereumNode)
with_spec spare cluster cn cns (ok spec) (ok nodes) =
    ok (expanded spare cluster cn cns spec ∷ nodes)
with_spec spare cluster cn cns (ok spec) (err e) = err e
with_spec spare cluster cn cns (err e) nodes = err e

-- The loop of `ExpandCluster` over the nodes that are left.
abbrev pub expand_each : ℕ → Dict Profile → Cluster → List ClusterNode → Result (List EthereumNode)
expand_each spare profiles cluster [] = ok []
expand_each spare profiles cluster (cn ∷ cns) =
    let rest = expand_each spare profiles cluster cns in
    if cn.disabled
    then rest
    else with_spec spare cluster cn cns (cluster_node_spec profiles cluster cn) rest

abbrev pub expand_cluster : ℕ → Cluster → Dict Profile → Result (List EthereumNode)
expand_cluster spare cluster profiles = expand_each spare profiles cluster cluster.nodes

abbrev pub merged_node : Dict Profile → EthereumNode → Result EthereumNode
merged_node profiles node = elim node.profiles [
  | [] ↦ ok node
  | name ∷ names ↦ elim (merge_node_profiles profiles node) [
    | ok spec ↦ ok (record node { spec = spec })
    | err e ↦ err ("merge profiles for " <> node.name <> ": " <> e)
  ]
]

abbrev pub merge_each : Dict Profile → List EthereumNode → Result (List EthereumNode)
merge_each profiles [] = ok []
merge_each profiles (node ∷ nodes) =
    cons_result (merged_node profiles node) (merge_each profiles nodes)

-- `entries` is what the read of the directory of the nodes returns.
abbrev pub load_all_with_profiles :
    String
    → (String → Result EthereumNode)
    → (String → Result Profile)
    → Result (List Entry)
    → Dir
    → Result (List EthereumNode)
load_all_with_profiles dir unmarshal unmarshal_profile (err e) profiles_dir =
    err ("read inventory dir " <> dir <> ": " <> e)
load_all_with_profiles dir unmarshal unmarshal_profile (ok entries) profiles_dir =
    elim (load_all unmarshal entries) [
      | err e ↦ err e
      | ok nodes ↦ elim (read_profiles "read profiles dir" unmarshal_profile profiles_dir) [
        | err e ↦ err e
        | ok profiles ↦ merge_each profiles nodes
      ]
    ]

-- `spare` tells the room that the decoder leaves behind the profiles of the cluster of a file.
abbrev pub load_cluster_nodes :
    (Entry → ℕ)
    → (String → Result Cluster)
    → (String → Result Profile)
    → Entry
    → Dir
    → Result (List EthereumNode)
load_cluster_nodes spare unmarshal unmarshal_profile file profiles_dir =
    elim (load_cluster unmarshal file) [
      | err e ↦ err e
      | ok cluster ↦ elim (read_profiles "read profiles" unmarshal_profile profiles_dir) [
        | err e ↦ err e
        | ok profiles ↦ expand_cluster (spare file) cluster profiles
      ]
    ]

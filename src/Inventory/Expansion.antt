-- ===== src/Inventory/Expansion.antt =====
-- pkg/inventory/cluster.go: the nodes that `ExpandCluster` returns, and when it fails.
use eth_node_operator.Common.{
  ℕ, ◌<◌, ◌≤◌, length, ◌⊎◌, String, none, List, [], ◌∷◌, ◌++◌, if◌then◌else◌, ◌≡◌, ◌≢◌, refl,
  Result, ok, err, ok-inj, All, inl, inr, Option-cases,
}
use eth_node_operator.Common.Int.{ℤ, pos}
use eth_node_operator.Common.Dict.{Dict, lookup}
use eth_node_operator.Types.{NodeSpec, Profile, EthereumNode, ClusterNode, Cluster, empty_spec}
use eth_node_operator.Inventory.{
  merge_specs, merge_profiles, expanded, cluster_node_spec, with_spec,
}

-- The nodes that are not disabled.
abbrev pub enabled : List ClusterNode → List ClusterNode
enabled [] = []
enabled (cn ∷ cns) = if cn.disabled then enabled cns else cn ∷ enabled cns

-- The node's own port, else the cluster's default port, else 9000; a port of 0 is none.
abbrev pub IsPort : ℤ → ℤ → ℤ → Type 0
IsPort own default_port port =
    ((own ≢ pos 0) × (port ≡ own))
    ⊎ ((own ≡ pos 0) × (default_port ≢ pos 0) × (port ≡ default_port))
    ⊎ ((own ≡ pos 0) × (default_port ≡ pos 0) × (port ≡ pos 9000))

-- What a node gets of its cluster. Its profiles are as many as the cluster's and its own, and they are these, unless the array
-- of the cluster's profiles has room for its own.
pub record NodeOf (spare : ℕ) (profiles : Dict Profile) (cluster : Cluster) (cn : ClusterNode)
    (n : EthereumNode) : Type 0 where
  pub name : n.name ≡ cn.name
  pub host : n.host ≡ cn.host
  pub labels : n.labels ≡ cn.labels
  pub port : IsPort cn.port cluster.default_port n.port
  pub spec : cluster_node_spec profiles cluster cn ≡ ok n.spec
  pub tail : List String
  pub all_profiles : n.profiles ≡ cluster.profiles ++ tail
  pub as_many : length tail ≡ length cn.profiles
  pub own : (tail ≡ cn.profiles) ⊎ ((0 < length cn.profiles) × (length cn.profiles ≤ spare))

-- Node by node, in the same order.
abbrev pub Expanded : ℕ → Dict Profile → Cluster → List ClusterNode → List EthereumNode → Type 0
Expanded spare profiles cluster [] [] = Unit {0}
Expanded spare profiles cluster [] (n ∷ ns) = ⊥
Expanded spare profiles cluster (cn ∷ cns) [] = ⊥
Expanded spare profiles cluster (cn ∷ cns) (n ∷ ns) =
    NodeOf spare profiles cluster cn n × Expanded spare profiles cluster cns ns

pub with_spec-ok :
    (spare : ℕ) (cluster : Cluster) (cn : ClusterNode) (cns : List ClusterNode)
    (r : Result NodeSpec) (rest : Result (List EthereumNode)) {nodes : List EthereumNode}
    → with_spec spare cluster cn cns r rest ≡ ok nodes
    → (spec : NodeSpec) × (others : List EthereumNode) × (r ≡ ok spec)
      × (rest ≡ ok others)
      × (expanded spare cluster cn cns spec ∷ others ≡ nodes)
with_spec-ok spare cluster cn cns (ok spec) (ok others) h = (spec, others, refl, refl, ok-inj h)
with_spec-ok spare cluster cn cns (ok spec) (err e) h = cc
with_spec-ok spare cluster cn cns (err e) rest h = cc

-- A profile that is there.
pub record IsKnown (profiles : Dict Profile) (name : String) : Type 0 where
  pub is_there : lookup name profiles ≢ none

merge_profiles-total :
    (profiles : Dict Profile) (names : List String) (base : NodeSpec)
    → All (IsKnown profiles) names
    → (s : NodeSpec) × (merge_profiles profiles names base ≡ ok s)
merge_profiles-total profiles [] base h = (base, refl)
merge_profiles-total profiles (name ∷ names) base h = elim (Option-cases (lookup name profiles)) [
  | inl e ↦ absurd (h.0.is_there e)
  | inr (p, e) ↦
      rw (e, merge_profiles) (merge_profiles-total profiles names (merge_specs base p.spec) h.1)
]

cluster_node_spec-total :
    (profiles : Dict Profile) (cluster : Cluster) (cn : ClusterNode)
    → All (IsKnown profiles) (cluster.profiles ++ cn.profiles)
    → (s : NodeSpec) × (cluster_node_spec profiles cluster cn ≡ ok s)
unfolding cluster_node_spec
cluster_node_spec-total profiles cluster cn h =
    let (s, e) = merge_profiles-total profiles (cluster.profiles ++ cn.profiles) empty_spec h in
    (merge_specs s cn.spec, rw e refl)

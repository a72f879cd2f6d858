-- ===== src/Inventory/Losses.antt =====
-- pkg/inventory/cluster.go: what the state of a node of a cluster never has.
use eth_node_operator.Common.{
  ℕ, String, List, [], ◌∷◌, ◌++◌, ◌≡◌, refl, subst, Result, ok, err, ok-inj, map_err, All, inl, inr,
  Bool-cases, Option-cases,
}
use eth_node_operator.Common.Dict.{Dict, lookup}
use eth_node_operator.Types.{
  NodeSpec, Profile, EthereumNode, ClusterNode, Cluster, empty_spec, no_disk, no_observability,
  no_snapshot,
}
use eth_node_operator.Inventory.{
  merge_specs, merge_profiles, over_base, cluster_node_spec, expand_each, expand_cluster,
}
use eth_node_operator.Inventory.Expansion.{with_spec-ok}

-- The parts that the merge of `pkg/inventory` leaves out are zero.
pub record IsDropped (s : NodeSpec) : Type 0 where
  pub cl_flags : s.consensus.flags ≡ []
  pub el_ports : s.execution.ports ≡ empty_spec.execution.ports
  pub cl_ports : s.consensus.ports ≡ empty_spec.consensus.ports
  pub disk : s.system.disk ≡ no_disk
  pub kernel : s.system.kernel ≡ empty_spec.system.kernel
  pub dns : s.network.dns ≡ empty_spec.network.dns
  pub route53 : s.network.route53 ≡ empty_spec.network.route53
  pub gateways : s.network.vc_gateways ≡ []
  pub cidrs : s.network.management_cidrs ≡ []
  pub observability : s.observability ≡ no_observability
  pub snapshot : s.snapshot ≡ no_snapshot

empty_spec-IsDropped : IsDropped empty_spec
empty_spec-IsDropped = record {
  cl_flags = refl;
  el_ports = refl;
  cl_ports = refl;
  disk = refl;
  kernel = refl;
  dns = refl;
  route53 = refl;
  gateways = refl;
  cidrs = refl;
  observability = refl;
  snapshot = refl;
}

merge_specs-IsDropped : (base x : NodeSpec) → IsDropped base → IsDropped (merge_specs base x)
unfolding merge_specs
merge_specs-IsDropped base x d = record {
  cl_flags = d.cl_flags;
  el_ports = d.el_ports;
  cl_ports = d.cl_ports;
  disk = d.disk;
  kernel = d.kernel;
  dns = d.dns;
  route53 = d.route53;
  gateways = d.gateways;
  cidrs = d.cidrs;
  observability = d.observability;
  snapshot = d.snapshot;
}

-- What a merge that succeeds returns has lost those parts.
record ResultIsDropped (r : Result NodeSpec) : Type 0 where
  is_dropped : (s : NodeSpec) → r ≡ ok s → IsDropped s

merge_profiles-IsDropped :
    (profiles : Dict Profile) (names : List String) (base : NodeSpec)
    → IsDropped base
    → ResultIsDropped (merge_profiles profiles names base)
merge_profiles-IsDropped profiles [] base d = record {
  is_dropped = λ s h. subst IsDropped (ok-inj h) d;
}
merge_profiles-IsDropped profiles (name ∷ names) base d =
    elim (Option-cases (lookup name profiles)) [
      | inl e ↦ rw (e, merge_profiles) (record { is_dropped = λ s h. absurd (cc h) })
      | inr (p, e) ↦
          rw (e, merge_profiles)
            (merge_profiles-IsDropped profiles names (merge_specs base p.spec)
              (merge_specs-IsDropped base p.spec d))
    ]

over_base-IsDropped :
    (f : String → String) (spec : NodeSpec) (r : Result NodeSpec)
    → ResultIsDropped r
    → ResultIsDropped (over_base spec (map_err f r))
over_base-IsDropped f spec (ok base) d = record {
  is_dropped =
      λ s h. subst IsDropped (ok-inj h) (merge_specs-IsDropped base spec (d.is_dropped base refl));
}
over_base-IsDropped f spec (err e) d = record { is_dropped = λ s h. absurd (cc h) }

cluster_node_spec-IsDropped :
    (profiles : Dict Profile) (cluster : Cluster) (cn : ClusterNode)
    → ResultIsDropped (cluster_node_spec profiles cluster cn)
unfolding cluster_node_spec
cluster_node_spec-IsDropped profiles cluster cn =
    over_base-IsDropped _ cn.spec
      (merge_profiles profiles (cluster.profiles ++ cn.profiles) empty_spec)
      (merge_profiles-IsDropped profiles (cluster.profiles ++ cn.profiles) empty_spec
        empty_spec-IsDropped)

expand_each-IsDropped :
    (spare : ℕ) (profiles : Dict Profile) (cluster : Cluster) (cns : List ClusterNode)
    (nodes : List EthereumNode)
    → expand_each spare profiles cluster cns ≡ ok nodes
    → All (λ n. IsDropped n.spec) nodes
unfolding cluster_node_spec
expand_each-IsDropped spare profiles cluster [] nodes h =
    subst (All (λ n. IsDropped n.spec)) (ok-inj h) _
expand_each-IsDropped spare profiles cluster (cn ∷ cns) nodes h = elim (Bool-cases cn.disabled) [
  | inl e ↦ expand_each-IsDropped spare profiles cluster cns nodes (rw (e, expand_each) at h)
  | inr e ↦
      let (spec, others, s, o, n) =
        with_spec-ok spare cluster cn cns (cluster_node_spec profiles cluster cn)
          (expand_each spare profiles cluster cns) (rw (e, expand_each) at h) in
      subst (All (λ n. IsDropped n.spec)) n (
        (cluster_node_spec-IsDropped profiles cluster cn).is_dropped spec s,
        expand_each-IsDropped spare profiles cluster cns others o,
      )
]

-- Whatever the profiles and the node say of them, a node that `ExpandCluster` returns has no flags of its consensus client, no
-- ports, disk, kernel parameters, name servers or Route 53 zone, no gateways or management networks, no observability
-- and no snapshot.
expand_cluster-IsDropped :
    (spare : ℕ) (cluster : Cluster) (profiles : Dict Profile) (nodes : List EthereumNode)
    → expand_cluster spare cluster profiles ≡ ok nodes
    → All (λ n. IsDropped n.spec) nodes
expand_cluster-IsDropped spare cluster profiles nodes h =
    expand_each-IsDropped spare profiles cluster cluster.nodes nodes h

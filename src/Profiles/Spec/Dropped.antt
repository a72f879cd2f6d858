-- ===== src/Profiles/Spec/Dropped.antt =====
-- pkg/profile/merger.go: the parts of a state that `Merge` loses.
use eth_node_operator.Common.{
  String, List, [], ◌∷◌, ◌≡◌, refl, sym, subst, ◌∙◌, ok, ok-inj, Option-cases, inl, inr,
}
use eth_node_operator.Common.Dict.{Dict, lookup}
use eth_node_operator.Types.{NodeSpec, Profile, empty_spec}
use eth_node_operator.Profiles.Spec.{merge_specs, merge_profiles, merge}
use eth_node_operator.Profiles.Spec.Overrides.{Result-cases, merge-ok, merge-err}

-- The parts of a state that `mergeSpecs` never copies.
pub record IsDropped (s : NodeSpec) : Type 0 where
  el_resources : s.execution.resources ≡ empty_spec.execution.resources
  cl_resources : s.consensus.resources ≡ empty_spec.consensus.resources
  search_domains : s.network.dns.search_domains ≡ []
  scrape_interval : s.observability.metrics.scrape_interval ≡ ""
  env_file : s.observability.env_file ≡ ""
  auto_upgrade : s.maintenance.auto_upgrade ≡ empty_spec.maintenance.auto_upgrade
  url : s.snapshot.url ≡ ""

empty_spec-IsDropped : IsDropped empty_spec
empty_spec-IsDropped = record {
  el_resources = refl;
  cl_resources = refl;
  search_domains = refl;
  scrape_interval = refl;
  env_file = refl;
  auto_upgrade = refl;
  url = refl;
}

merge_specs-IsDropped : (base x : NodeSpec) → IsDropped base → IsDropped (merge_specs base x)
unfolding merge_specs
merge_specs-IsDropped base x d = record {
  el_resources = d.el_resources;
  cl_resources = d.cl_resources;
  search_domains = d.search_domains;
  scrape_interval = d.scrape_interval;
  env_file = d.env_file;
  auto_upgrade = d.auto_upgrade;
  url = d.url;
}

merge_profiles-IsDropped :
    (profiles : Dict Profile) (names : List String) (base s : NodeSpec)
    → merge_profiles profiles names base ≡ ok s
    → IsDropped base
    → IsDropped s
merge_profiles-IsDropped profiles [] base s h d = subst IsDropped (ok-inj h) d
merge_profiles-IsDropped profiles (name ∷ names) base s h d =
    elim (Option-cases (lookup name profiles)) [
      | inl e ↦ cc (rw (e, merge_profiles) at h)
      | inr (p, e) ↦
          merge_profiles-IsDropped profiles names (merge_specs base p.spec) s
            (rw (e, merge_profiles) at h) (merge_specs-IsDropped base p.spec d)
    ]

-- Whatever the profiles and the node say of them, the merged state has no resource limits, no search domains, no scrape
-- interval, no environment file, no automatic upgrades and no snapshot URL.
merge-IsDropped :
    (profiles : Dict Profile) (names : List String) (node s : NodeSpec)
    → merge profiles names node ≡ ok s
    → IsDropped s
merge-IsDropped profiles names node s h =
    elim (Result-cases (merge_profiles profiles names empty_spec)) [
      | inl (base, e) ↦ subst IsDropped (ok-inj (sym (merge-ok profiles names node base e) ∙ h)) (
          merge_specs-IsDropped base node
            (merge_profiles-IsDropped profiles names empty_spec base e empty_spec-IsDropped))
      | inr (x, e) ↦ absurd (cc (merge-err profiles names node x e, h))
    ]

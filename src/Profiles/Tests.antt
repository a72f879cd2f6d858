-- ===== src/Profiles/Tests.antt =====
-- pkg/profile/merger.go: the theorems on two small profiles.
use eth_node_operator.Common.{String, ◌<>◌, ◌≡◌, refl, true, none, List, [], ◌∷◌, ok, err}
use eth_node_operator.Common.Dict.{Dict, lookup, insert_all, insert, or_else}
use eth_node_operator.Types.{Profile, NodeSpec, PackageSpec, empty_spec}
use eth_node_operator.Profiles.Indexed.{merge_by, find_last, find_last-merge_by, has_key}
use eth_node_operator.Profiles.Spec.{merge, merge_specs}
use eth_node_operator.Profiles.Spec.Folding.{Merged, HasMaps}
use eth_node_operator.Profiles.Spec.Overrides.{merge-Merged, merge-missing}

abbrev pkg : String → String → PackageSpec
pkg name version = record { name = name; version = version }

abbrev base_packages : List PackageSpec
base_packages = pkg "curl" "1" ∷ pkg "jq" "1" ∷ pkg "curl" "2" ∷ []

abbrev more_packages : List PackageSpec
more_packages = pkg "vim" "1" ∷ pkg "curl" "3" ∷ pkg "vim" "2" ∷ []

merge_by_test :
    merge_by (λ p. p.name) base_packages more_packages
    ≡ pkg "curl" "1" ∷ pkg "jq" "1" ∷ pkg "curl" "3" ∷ pkg "vim" "1" ∷ pkg "vim" "2" ∷ []
unfolding lookup insert
merge_by_test = refl

find_last-merge_by_example :
    find_last (λ p. p.name) "curl" (merge_by (λ p. p.name) base_packages more_packages)
    ≡ or_else
        (find_last (λ p. p.name) "curl" more_packages)
        (find_last (λ p. p.name) "curl" base_packages)
find_last-merge_by_example = find_last-merge_by (λ p. p.name) base_packages more_packages "curl"

abbrev geth_spec : NodeSpec
geth_spec = record empty_spec {
  execution = record empty_spec.execution {
    client = "geth";
    image = "geth:1";
    flags = ("cache", "4096") ∷ [];
  };
}

abbrev node_spec : NodeSpec
node_spec = record empty_spec {
  execution = record empty_spec.execution { image = "geth:2"; flags = ("cache", "8192") ∷ [] };
}

abbrev profiles : Dict Profile
profiles = ("geth", record { name = "geth"; spec = geth_spec }) ∷ []

merge_test :
    (s : NodeSpec) × (merge profiles ("geth" ∷ []) node_spec ≡ ok s)
    × (s.execution.client ≡ "geth")
    × (s.execution.image ≡ "geth:2")
    × (s.execution.flags ≡ ("cache", "8192") ∷ [])
unfolding merge_specs lookup insert_all
merge_test = (merge_specs (merge_specs empty_spec geth_spec) node_spec, refl, refl, refl, refl)

geth_spec-HasMaps : HasMaps geth_spec
unfolding lookup
geth_spec-HasMaps = record { el = (refl, _); cl = _ }

node_spec-HasMaps : HasMaps node_spec
unfolding lookup
node_spec-HasMaps = record { el = (refl, _); cl = _ }

merge-Merged_example :
    (s : NodeSpec) × (merge profiles ("geth" ∷ []) node_spec ≡ ok s)
    × Merged empty_spec (geth_spec ∷ node_spec ∷ []) s
unfolding lookup
merge-Merged_example =
    merge-Merged profiles ("geth" ∷ []) node_spec (geth_spec ∷ []) refl (geth_spec-HasMaps, _)
      node_spec-HasMaps

merge-missing_example :
    (name : String) × (has_key name ("reth" ∷ []) ≡ true)
    × (lookup name profiles ≡ none)
    × (merge profiles ("reth" ∷ []) node_spec ≡ err ("profile \"" <> name <> "\" not found"))
unfolding lookup
merge-missing_example = merge-missing profiles ("reth" ∷ []) node_spec refl

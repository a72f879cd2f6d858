-- ===== src/Inventory/Tests.antt =====
-- pkg/inventory and the profile loader: the theorems on a cluster of two nodes and a directory of one profile.
use eth_node_operator.Common.{
  String, Option, none, ◌≡◌, refl, true, false, List, [], ◌∷◌, ok, err, All,
}
use eth_node_operator.Common.Int.{pos}
use eth_node_operator.Common.Dict.{Dict, lookup, insert_all, insert}
use eth_node_operator.Types.{Profile, ClusterNode, Cluster, EthereumNode, empty_spec}
use eth_node_operator.Inventory.{expand_cluster, shared_tail, cluster_node_spec}
use eth_node_operator.Inventory.Files.{Entry, load}
use eth_node_operator.Inventory.Keys.{IsKeyed, IsLoaded, load-IsLoaded}

abbrev geth : Profile
geth = record {
  name = "geth";
  spec = record empty_spec {
    execution = record empty_spec.execution { client = "geth"; image = "geth:1" };
  };
}

abbrev profiles : Dict Profile
profiles = ("geth", geth) ∷ []

abbrev cluster_node : ClusterNode
cluster_node = record {
  name = "bm-01";
  host = "10.0.0.1";
  port = pos 0;
  labels = [];
  profiles = [];
  spec = empty_spec;
  disabled = false;
}

abbrev cluster : Cluster
cluster = record {
  name = "c";
  description = "";
  profiles = "geth" ∷ [];
  default_port = pos 0;
  nodes = cluster_node ∷ record cluster_node { name = "bm-02"; disabled = true } ∷ [];
}

abbrev node : EthereumNode
node = record {
  name = "bm-01";
  host = "10.0.0.1";
  port = pos 9000;
  labels = [];
  profiles = "geth" ∷ [];
  spec = geth.spec;
}

expand_cluster_test : expand_cluster 0 cluster profiles ≡ ok (node ∷ [])
unfolding cluster_node_spec lookup insert_all
expand_cluster_test = refl

-- Two nodes with a profile each, in an array with room for one more: the second overwrites the first one's.
abbrev pair : List ClusterNode
pair =
    record cluster_node { profiles = "a" ∷ [] } ∷ record cluster_node { profiles = "b" ∷ [] } ∷ []

shared_tail_test : shared_tail 1 ("a" ∷ []) pair ≡ "b" ∷ []
shared_tail_test = refl

abbrev entries : List Entry
entries =
    record {
      name = "geth.yaml";
      path = "profiles/geth.yaml";
      is_dir = false;
      contents = ok "name: geth";
    }
    ∷ record {
      name = "README.md";
      path = "profiles/README.md";
      is_dir = false;
      contents = err "not read";
    }
    ∷ []

load_test : load (λ data_text. ok geth) none entries [] ≡ ok profiles
unfolding load lookup insert
load_test = refl

-- The walk meets no error.
abbrev no_error : Option String
no_error = none

load-IsLoaded_example :
    (no_error ≡ none) × IsKeyed profiles × All (IsLoaded (λ data_text. ok geth) profiles) entries
load-IsLoaded_example = load-IsLoaded (λ data_text. ok geth) no_error entries profiles load_test

-- ===== src/Discover/Tests.antt =====
-- internal/discover/discover.go: the theorems, and runs, on a host with two peers.
use eth_node_operator.Common.{
  String, ◌≡◌, refl, true, false, Option, none, some, List, [], ◌∷◌, if◌then◌else◌, ◌==◌, Output,
  ok, err, Result,
}
use eth_node_operator.Common.Int.{pos}
use eth_node_operator.Common.Text.{to_lower}
use eth_node_operator.Common.Text.Cut.{Lacks}
use eth_node_operator.Discover.{
  Host, Address, Report, empty_report, image_to_client_name, connected_source_ips, sources_or_error,
}
use eth_node_operator.Discover.Snippet.{yaml_snippet}
use eth_node_operator.Discover.Sources.{IsFound, connected_source_ips-IsFound}

abbrev ss_output : String
ss_output =
    "Recv-Q Send-Q Local Peer Process\nESTAB 0 0 10.0.0.1:22 18.1.2.3:5\nESTAB 0 0 10.0.0.1:22 127.0.0.1:6\n0 0 10.0.0.1:22 18.1.2.4:7\nESTAB 0 0 10.0.0.1:22 18.1.2.3:8\n"

abbrev run_sim : List String → Unit {0} → Output × Unit {0}
run_sim args w = ((ss_output, none), w)

-- The addresses of the test, which come with their ports.
abbrev address : String → Option Address
address s =
    if s == "127.0.0.1:6"
    then some (record { written = "127.0.0.1"; is_loopback = true; is_link_local = false })
    else if s == "18.1.2.3:5"
    then some (record { written = "18.1.2.3"; is_loopback = false; is_link_local = false })
    else if s == "18.1.2.3:8"
    then some (record { written = "18.1.2.3"; is_loopback = false; is_link_local = false })
    else none

abbrev host : Host (Unit {0})
host = record {
  run = run_sim;
  parse_ip = address;
  split_host = λ s. none;
  has_controllers = λ w. true;
}

-- The line of four fields, as `ss` writes it where a state is asked for, is passed over.
runs : connected_source_ips host "22" tt ≡ (ok ("18.1.2.3" ∷ []), tt)
unfolding connected_source_ips eth_node_operator.Common.Text.fields
    eth_node_operator.Common.Text.split
runs = refl

connected_source_ips-IsFound_example :
    (ips : List String) × IsFound host ss_output ips
    × (connected_source_ips host "22" tt ≡ (sources_or_error "22" ips, tt))
connected_source_ips-IsFound_example = connected_source_ips-IsFound host "22" ss_output tt tt refl

prysm : image_to_client_name "gcr.io/prysmaticlabs/prysm/beacon-chain:v5.1.0" ≡ "prysm"
unfolding image_to_client_name eth_node_operator.Common.Text.contains
    eth_node_operator.Common.Text.before_first to_lower eth_node_operator.Common.Text.has_suffix
prysm = refl

no_colon : Lacks b':' (to_lower "Registry")
unfolding Lacks to_lower
no_colon = (refl, (refl, (refl, (refl, (refl, (refl, (refl, (refl, tt))))))))

abbrev report : Report
report = record empty_report {
  public_ip = "18.0.0.1";
  el_client = "geth";
  cgroup_version = pos 2;
  vc_gateway_ips = "18.1.2.3" ∷ [];
}

snippet :
    yaml_snippet report "bm-01" "example.com" ""
    ≡ "# Auto-discovered configuration for node: bm-01\n# Paste this under the node's spec: block in your cluster file.\n# Review before applying — especially CIDRs.\n\nspec:\n  # Route 53 will register this A record:\n  #   bm-01-geth.example.com → 18.0.0.1\n  network:\n    vcGateways:   # EKS NAT gateway IPs currently connected to :5052\n      - \"18.1.2.3/32\"\n    managementCIDRs:   # No SSH sessions detected — add manually\n      # - \"10.x.x.x/32\"\n\n# cgroup v2 detected\n# Deploy with: docker compose -f docker-compose.observability.yml \\\n#   -f docker-compose.cadvisor-cgroupv2.yml up -d\n# (no privileged mode needed for cAdvisor)\n"
unfolding yaml_snippet eth_node_operator.Common.Int.show_int
snippet = refl

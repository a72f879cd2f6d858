-- ===== src/Discover/Snippet.antt =====
-- internal/discover/discover.go: `YAMLSnippet`, the block that is pasted into the file of a cluster.
use eth_node_operator.Common.{
  String, ◌<>◌, Bool, not, ◌&&◌, List, [], ◌∷◌, map, if◌then◌else◌, ◌==◌, is_empty,
}
use eth_node_operator.Common.Int.{ℤ, pos, int_eq, int_ltb, show_int}
use eth_node_operator.Discover.{Report}

abbrev pub concat : List String → String
concat [] = ""
concat (s ∷ ss) = s <> concat ss

-- `if test { b.WriteString(text) }`
abbrev pub text_if : Bool → String → String
text_if test text = if test then text else ""

abbrev pub cidr_line : String → String
cidr_line ip = "      - \"" <> ip <> "/32\"\n"

-- The addresses of a list, or what stands for an empty one.
abbrev pub cidr_block : String → String → List String → String
cidr_block title missing ips = if is_empty ips then missing else title <> concat (map cidr_line ips)

abbrev pub route53_block : String → String → String
route53_block zone zone_id = text_if (not (zone_id == "")) (
    "    route53:\n      zoneId: "
    <> zone_id
    <> "\n"
    <> text_if (not (zone == "")) ("      zone: " <> zone <> "\n"))

abbrev pub gateways_block : List String → String
gateways_block =
    cidr_block "    vcGateways:   # EKS NAT gateway IPs currently connected to :5052\n"
      "    vcGateways:   # No :5052 connections detected — add manually\n      # - \"18.x.x.x/32\"\n"

abbrev pub management_block : List String → String
management_block =
    cidr_block "    managementCIDRs:   # Active SSH session source IPs\n"
      "    managementCIDRs:   # No SSH sessions detected — add manually\n      # - \"10.x.x.x/32\"\n"

abbrev pub network_block : Report → String → String → String → String
network_block r node_name zone zone_id = text_if (not (r.public_ip == "")) (
    "  # Route 53 will register this A record:\n"
    <> text_if (not (r.el_client == "") && not (zone == ""))
        ("  #   " <> node_name <> "-" <> r.el_client <> "." <> zone <> " → " <> r.public_ip <> "\n")
    <> "  network:\n"
    <> route53_block zone zone_id
    <> gateways_block r.vc_gateway_ips
    <> management_block r.management_ips)

abbrev pub cgroup_block : ℤ → String
cgroup_block v = text_if (int_ltb (pos 0) v) (
    "\n# cgroup v"
    <> show_int v
    <> " detected\n"
    <> (if int_eq v (pos 2)
        then "# Deploy with: docker compose -f docker-compose.observability.yml \\\n#   -f docker-compose.cadvisor-cgroupv2.yml up -d\n# (no privileged mode needed for cAdvisor)\n"
        else "# Deploy with: docker compose -f docker-compose.observability.yml \\\n#   -f docker-compose.cadvisor-cgroupv1.yml up -d\n# (privileged: true required for cAdvisor on cgroup v1)\n"))

abbrev pub warnings_block : List String → String
warnings_block warnings =
    if is_empty warnings
    then ""
    else "\n# Warnings:\n" <> concat (map (λ w. "#   " <> w <> "\n") warnings)

-- `YAMLSnippet`
unfoldable pub yaml_snippet : Report → String → String → String → String
yaml_snippet r node_name zone zone_id =
    "# Auto-discovered configuration for node: "
    <> node_name
    <> "\n"
    <> "# Paste this under the node's spec: block in your cluster file.\n"
    <> "# Review before applying — especially CIDRs.\n\n"
    <> "spec:\n"
    <> network_block r node_name zone zone_id
    <> cgroup_block r.cgroup_version
    <> warnings_block r.warnings

-- ===== src/Profiles/Spec.antt =====
-- pkg/profile/merger.go: `mergeSpecs`, section by section, and `Merge`.
pub mod Folding
pub mod Overrides
pub mod Dropped
use eth_node_operator.Common.{
  String, ◌<>◌, Bool, true, false, ◌||◌, Option, none, some, List, [], ◌∷◌, ◌++◌, if◌then◌else◌,
  ◌==◌, Result, ok, err,
}
use eth_node_operator.Common.Int.{ℤ, pos, int_eq, show_int}
use eth_node_operator.Common.Dict.{Dict, lookup, insert_all}
use eth_node_operator.Types.{
  PackageSpec, SystemSpec, FirewallRule, FirewallSpec, NetworkSpec, Route53Spec, ClientSpec,
  ClientPorts, MevSpec, ObservabilitySpec, MaintenanceSpec, SnapshotSpec, NodeSpec, Profile,
  empty_spec,
}
use eth_node_operator.Profiles.Indexed.{merge_by}

-- `if src != "" { dst = src }`
abbrev pub or_text : String → String → String
or_text dst src = if src == "" then dst else src

-- `if len(src) > 0 { dst = src }`
abbrev pub or_list {ℓ} : {A : Type ℓ} → List A → List A → List A
or_list dst [] = dst
or_list dst (x ∷ xs) = x ∷ xs

-- `if src.HTTP != 0 { dst = src }`
abbrev pub or_ports : ClientPorts → ClientPorts → ClientPorts
or_ports dst src = if int_eq src.http (pos 0) then dst else src

abbrev pub or_ttl : ℤ → ℤ → ℤ
or_ttl dst src = if int_eq src (pos 0) then dst else src

abbrev pub merge_packages : List PackageSpec → List PackageSpec → List PackageSpec
merge_packages dst src = merge_by (λ p. p.name) dst src

abbrev pub rule_key : FirewallRule → String
rule_key r = show_int r.port <> "/" <> r.proto <> "/" <> r.direction

abbrev pub merge_firewall_rules : List FirewallRule → List FirewallRule → List FirewallRule
merge_firewall_rules dst src = merge_by rule_key dst src

abbrev pub merge_system : SystemSpec → SystemSpec → SystemSpec
merge_system dst src = record {
  packages = merge_packages dst.packages src.packages;
  kernel = record { parameters = insert_all dst.kernel.parameters src.kernel.parameters };
  disk = if src.disk.mount_path == "" then dst.disk else src.disk;
}

abbrev pub merge_firewall : FirewallSpec → FirewallSpec → FirewallSpec
merge_firewall dst src = record {
  provider = or_text dst.provider src.provider;
  policy = or_text dst.policy src.policy;
  rules = merge_firewall_rules dst.rules src.rules;
}

abbrev pub merge_route53 : Route53Spec → Route53Spec → Route53Spec
merge_route53 dst src = record {
  zone_id = or_text dst.zone_id src.zone_id;
  zone = or_text dst.zone src.zone;
  ttl = or_ttl dst.ttl src.ttl;
}

abbrev pub merge_network : NetworkSpec → NetworkSpec → NetworkSpec
merge_network dst src = record {
  dns = record dst.dns { nameservers = or_list dst.dns.nameservers src.dns.nameservers };
  firewall = merge_firewall dst.firewall src.firewall;
  route53 = merge_route53 dst.route53 src.route53;
  vc_gateways = dst.vc_gateways ++ src.vc_gateways;
  management_cidrs = dst.management_cidrs ++ src.management_cidrs;
}

-- The execution client and the consensus client are merged alike.
abbrev pub merge_client : ClientSpec → ClientSpec → ClientSpec
merge_client dst src = record dst {
  client = or_text dst.client src.client;
  image = or_text dst.image src.image;
  data_dir = or_text dst.data_dir src.data_dir;
  flags = insert_all dst.flags src.flags;
  ports = or_ports dst.ports src.ports;
}

abbrev pub merge_mev : MevSpec → MevSpec → MevSpec
merge_mev dst src = record {
  enabled = if src.enabled then true else dst.enabled;
  image = or_text dst.image src.image;
  listen_addr = or_text dst.listen_addr src.listen_addr;
  relays = or_list dst.relays src.relays;
}

abbrev pub merge_observability : ObservabilitySpec → ObservabilitySpec → ObservabilitySpec
merge_observability dst src = record dst {
  metrics = record dst.metrics {
    enabled = if src.metrics.enabled then true else dst.metrics.enabled;
    exporters = or_list dst.metrics.exporters src.metrics.exporters;
    remote_write = or_list dst.metrics.remote_write src.metrics.remote_write;
  };
  logs = record {
    provider = or_text dst.logs.provider src.logs.provider;
    destinations = or_list dst.logs.destinations src.logs.destinations;
  };
  stack_dir = or_text dst.stack_dir src.stack_dir;
}

abbrev pub merge_snapshot : SnapshotSpec → SnapshotSpec → SnapshotSpec
merge_snapshot dst src = record dst {
  enabled = if src.enabled then true else dst.enabled;
  provider = or_text dst.provider src.provider;
  network = or_text dst.network src.network;
  el_enabled = if src.el_enabled then true else dst.el_enabled;
  cl_enabled = if src.cl_enabled then true else dst.cl_enabled;
  block_number = or_text dst.block_number src.block_number;
}

abbrev pub merge_maintenance : MaintenanceSpec → MaintenanceSpec → MaintenanceSpec
merge_maintenance dst src = record dst {
  window = record { schedule = or_text dst.window.schedule src.window.schedule };
  upgrade_strategy = record {
    order = or_list dst.upgrade_strategy.order src.upgrade_strategy.order;
    preflight_checks =
        or_list dst.upgrade_strategy.preflight_checks src.upgrade_strategy.preflight_checks;
  };
}

unfoldable pub merge_specs : NodeSpec → NodeSpec → NodeSpec
merge_specs dst src = record {
  system = merge_system dst.system src.system;
  network = merge_network dst.network src.network;
  execution = merge_client dst.execution src.execution;
  consensus = merge_client dst.consensus src.consensus;
  mev = merge_mev dst.mev src.mev;
  observability = merge_observability dst.observability src.observability;
  maintenance = merge_maintenance dst.maintenance src.maintenance;
  snapshot = merge_snapshot dst.snapshot src.snapshot;
}

-- The loop of `Merge` over the names of profiles. Its error comes with the zero value or a part of the merge, which no
-- caller reads.
abbrev pub merge_profiles : Dict Profile → List String → NodeSpec → Result NodeSpec
merge_profiles profiles [] base = ok base
merge_profiles profiles (name ∷ names) base = elim (lookup name profiles) [
  | none ↦ err ("profile \"" <> name <> "\" not found")
  | some p ↦ merge_profiles profiles names (merge_specs base p.spec)
]

abbrev pub merge : Dict Profile → List String → NodeSpec → Result NodeSpec
merge profiles names node = elim (merge_profiles profiles names empty_spec) [
  | ok base ↦ ok (merge_specs base node)
  | err e ↦ err e
]

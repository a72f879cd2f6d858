-- ===== src/Types/Spec.antt =====
-- pkg/types/types.go: the desired state. An `int` is a ℤ, a map is a dictionary of texts, and a
-- slice that is nil is the empty list: the program tells the two apart nowhere.
use eth_node_operator.Common.{String, Bool, false, List, []}
use eth_node_operator.Common.Int.{ℤ, pos}
use eth_node_operator.Common.Dict.{Dict}

-- Whether and how to restore a client snapshot on first boot.
pub record SnapshotSpec : Type 0 where
  pub enabled : Bool
  pub provider : String
  pub network : String
  pub el_enabled : Bool
  pub cl_enabled : Bool
  pub block_number : String
  pub url : String

pub record PackageSpec : Type 0 where
  pub name : String
  pub version : String

pub record KernelSpec : Type 0 where
  pub parameters : Dict String

pub record DiskSpec : Type 0 where
  pub devices : List String
  pub raid_level : ℤ
  pub array_device : String
  pub mount_path : String
  pub fs_type : String
  pub options : List String

pub record SystemSpec : Type 0 where
  pub packages : List PackageSpec
  pub kernel : KernelSpec
  pub disk : DiskSpec

pub record Route53Spec : Type 0 where
  pub zone_id : String
  pub zone : String
  pub ttl : ℤ

pub record DnsSpec : Type 0 where
  pub nameservers : List String
  pub search_domains : List String

pub record FirewallRule : Type 0 where
  pub description : String
  pub port : ℤ
  pub proto : String
  pub direction : String
  pub source : String
  pub destination : String
  pub action : String

pub record FirewallSpec : Type 0 where
  pub provider : String
  pub policy : String
  pub rules : List FirewallRule

pub record NetworkSpec : Type 0 where
  pub dns : DnsSpec
  pub firewall : FirewallSpec
  pub route53 : Route53Spec
  pub vc_gateways : List String
  pub management_cidrs : List String

pub record ResourceSpec : Type 0 where
  pub cpu_cores : ℤ
  pub memory_gb : ℤ

pub record ClientPorts : Type 0 where
  pub http : ℤ
  pub p2p : ℤ
  pub metrics : ℤ

-- An EL or CL client container.
pub record ClientSpec : Type 0 where
  pub client : String
  pub image : String
  pub data_dir : String
  pub flags : Dict String
  pub resources : ResourceSpec
  pub ports : ClientPorts

pub record MevRelay : Type 0 where
  pub url : String
  pub label : String
  pub ofac_filtered : Bool

pub record MevSpec : Type 0 where
  pub enabled : Bool
  pub image : String
  pub listen_addr : String
  pub relays : List MevRelay

pub record ExporterSpec : Type 0 where
  pub name : String
  pub port : ℤ
  pub path : String
  pub image : String
  pub description : String

pub record RemoteWrite : Type 0 where
  pub url : String
  pub secret : String

pub record MetricsSpec : Type 0 where
  pub enabled : Bool
  pub exporters : List ExporterSpec
  pub scrape_interval : String
  pub remote_write : List RemoteWrite

-- The field `Type` of the source is `kind` here.
pub record LogDestination : Type 0 where
  pub kind : String
  pub url : String
  pub enabled : Bool

pub record LogsSpec : Type 0 where
  pub provider : String
  pub destinations : List LogDestination

pub record ObservabilitySpec : Type 0 where
  pub metrics : MetricsSpec
  pub logs : LogsSpec
  pub stack_dir : String
  pub env_file : String

pub record MaintenanceWindow : Type 0 where
  pub schedule : String

pub record UpgradeStrategy : Type 0 where
  pub order : List String
  pub preflight_checks : List String

pub record AutoUpgradeSpec : Type 0 where
  pub enabled : Bool
  pub el : String
  pub cl : String
  pub packages : String

pub record MaintenanceSpec : Type 0 where
  pub window : MaintenanceWindow
  pub upgrade_strategy : UpgradeStrategy
  pub auto_upgrade : AutoUpgradeSpec

-- The full desired state of a node.
pub record NodeSpec : Type 0 where
  pub system : SystemSpec
  pub network : NetworkSpec
  pub execution : ClientSpec
  pub consensus : ClientSpec
  pub mev : MevSpec
  pub observability : ObservabilitySpec
  pub maintenance : MaintenanceSpec
  pub snapshot : SnapshotSpec

-- A named part of a desired state, for use by many nodes.
pub record Profile : Type 0 where
  pub name : String
  pub spec : NodeSpec

pub record EthereumNode : Type 0 where
  pub name : String
  pub host : String
  pub port : ℤ
  pub labels : Dict String
  pub profiles : List String
  pub spec : NodeSpec

pub record ClusterNode : Type 0 where
  pub name : String
  pub host : String
  pub port : ℤ
  pub labels : Dict String
  pub profiles : List String
  pub spec : NodeSpec
  pub disabled : Bool

pub record Cluster : Type 0 where
  pub name : String
  pub description : String
  pub profiles : List String
  pub default_port : ℤ
  pub nodes : List ClusterNode

-- The zero values of the parts, and of `NodeSpec{}`.
abbrev pub no_disk : DiskSpec
no_disk = record {
  devices = [];
  raid_level = pos 0;
  array_device = "";
  mount_path = "";
  fs_type = "";
  options = [];
}

abbrev pub no_network : NetworkSpec
no_network = record {
  dns = record { nameservers = []; search_domains = [] };
  firewall = record { provider = ""; policy = ""; rules = [] };
  route53 = record { zone_id = ""; zone = ""; ttl = pos 0 };
  vc_gateways = [];
  management_cidrs = [];
}

abbrev pub no_client : ClientSpec
no_client = record {
  client = "";
  image = "";
  data_dir = "";
  flags = [];
  resources = record { cpu_cores = pos 0; memory_gb = pos 0 };
  ports = record { http = pos 0; p2p = pos 0; metrics = pos 0 };
}

abbrev pub no_observability : ObservabilitySpec
no_observability = record {
  metrics = record { enabled = false; exporters = []; scrape_interval = ""; remote_write = [] };
  logs = record { provider = ""; destinations = [] };
  stack_dir = "";
  env_file = "";
}

abbrev pub no_maintenance : MaintenanceSpec
no_maintenance = record {
  window = record { schedule = "" };
  upgrade_strategy = record { order = []; preflight_checks = [] };
  auto_upgrade = record { enabled = false; el = ""; cl = ""; packages = "" };
}

abbrev pub no_snapshot : SnapshotSpec
no_snapshot = record {
  enabled = false;
  provider = "";
  network = "";
  el_enabled = false;
  cl_enabled = false;
  block_number = "";
  url = "";
}

abbrev pub empty_spec : NodeSpec
empty_spec = record {
  system = record { packages = []; kernel = record { parameters = [] }; disk = no_disk };
  network = no_network;
  execution = no_client;
  consensus = no_client;
  mev = record { enabled = false; image = ""; listen_addr = ""; relays = [] };
  observability = no_observability;
  maintenance = no_maintenance;
  snapshot = no_snapshot;
}

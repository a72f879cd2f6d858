-- ===== src/Cli/Tests.antt =====
-- cli/commands/commands.go: the theorems, and runs, on two nodes and a zone with a stale record.
use eth_node_operator.Common.{
  All, if◌then◌else◌, ◌==◌, ℕ, String, ◌<>◌, ◌≡◌, ◌≢◌, refl, Bool, true, false, Option, none, some,
  List, [], ◌∷◌, inl, inr, Result, ok, err, Output,
}
use eth_node_operator.Common.Int.{pos}
use eth_node_operator.Types.{
  EthereumNode, Cluster, ClusterNode, NodeStatus, ClientStatus, running, empty_spec,
}
use eth_node_operator.Dns.{hostname}
use eth_node_operator.Dns.Records.{Host, current_args}
use eth_node_operator.Dns.Zone.{AwsRecord, list_zone_records, audit}
use eth_node_operator.Discover.{Report}
use eth_node_operator.Upgrade.{NodeClient}
use eth_node_operator.Upgrade.Calls.{asked_status, uncordoned, reconciled, cordoned}
use eth_node_operator.Cli.{Shell}
use eth_node_operator.Cli.Upgrade.{Flags, Rollout, upgrade_nodes}
use eth_node_operator.Cli.Dns.{names_of_clusters, dns_cleanup_cmd}
use eth_node_operator.Cli.Discover.{report_of, encoded}
use eth_node_operator.Cli.Reporting.{report_of-encoded}
use eth_node_operator.Cli.Serial.{IsClear, watched_rollout, upgrade_nodes-IsClear}
use eth_node_operator.Cli.Expected.{audit_of_profiles}
use eth_node_operator.Cli.Spared.{IsLogged}
use eth_node_operator.Cli.Cleaning.{dns_cleanup_cmd-spares}

abbrev synced : ClientStatus
synced = record {
  name = "geth";
  running = true;
  image = "geth:1";
  version = "";
  synced = true;
  block_number = 7;
  peer_count = pos 3;
  healthy = true;
}

abbrev status : NodeStatus
status = record {
  name = "n";
  phase = running;
  el = synced;
  cl = synced;
  mev = synced;
  cordoned = false;
}

-- An agent whose reconcile fails, or not.
abbrev agent : Bool → NodeClient (Unit {0})
agent works = record {
  get_status = λ w. (ok status, w);
  cordon = λ reason w. (ok tt, w);
  uncordon = λ w. (ok tt, w);
  trigger_reconcile = λ w.
      (if works then ok (record { node_name = "n"; actions = []; errors = [] }) else err "down", w);
  get_diff = λ w. (err "none", w);
}

abbrev node : String → EthereumNode
node name = record {
  name = name;
  host = "";
  port = pos 0;
  labels = [];
  profiles = [];
  spec = empty_spec;
}

abbrev rollout : Rollout (Unit {0})
rollout = record { reach = λ n. agent (n.name == "a"); print = λ s w. w; pause = λ w. w }

abbrev flags : Flags
flags = record {
  el_image = "geth:2";
  cl_image = "";
  mev_image = "";
  max_unavailable = pos 1;
  skip_preflight = false;
}

-- The reconcile of the second node fails: it is uncordoned, and the third is not reached.
second_fails :
    upgrade_nodes
      (watched_rollout rollout)
      flags
      ("a" ∷ "b" ∷ "a" ∷ [])
      (node "a" ∷ node "b" ∷ [])
      (tt, [])
    ≡ (
      err "reconcile b: down",
      (
        tt,
        ("b", uncordoned true)
            ∷ ("b", reconciled)
            ∷ ("b", cordoned true)
            ∷ ("b", asked_status)
            ∷ ("a", uncordoned true)
            ∷ ("a", reconciled)
            ∷ ("a", cordoned true)
            ∷ ("a", asked_status)
            ∷ [],
      ),
    )
unfolding upgrade_nodes eth_node_operator.Common.Dict.lookup
    eth_node_operator.Common.Dict.insert_all eth_node_operator.Common.Dict.insert
second_fails = refl

upgrade_nodes-IsClear_example :
    IsClear
      (upgrade_nodes
        (watched_rollout rollout)
        flags
        ("a" ∷ "b" ∷ "a" ∷ [])
        (node "a" ∷ node "b" ∷ [])
        (tt, [])).1.1
upgrade_nodes-IsClear_example =
    upgrade_nodes-IsClear rollout flags ("a" ∷ "b" ∷ "a" ∷ []) (node "a" ∷ node "b" ∷ []) tt

abbrev named_node : String → String → ClusterNode
named_node name client = record {
  name = name;
  host = "";
  port = pos 0;
  labels = [];
  profiles = [];
  spec = record empty_spec { execution = record empty_spec.execution { client = client } };
  disabled = false;
}

abbrev cluster : String → Cluster
cluster client = record {
  name = "main";
  description = "";
  profiles = [];
  default_port = pos 0;
  nodes = named_node "a" client ∷ [];
}

-- The commands of `aws` that were run are the world.
abbrev aws_sim : List String → List (List String) → Output × List (List String)
aws_sim args w = (("192.0.2.1", none), args ∷ w)

abbrev dns_host : Host (List (List String))
dns_host = record {
  aws = aws_sim;
  fetch = λ url w. (ok "192.0.2.1", w);
  load_state = λ w. (err "none", w);
  save_state = λ state w. w;
}

abbrev shell : String → Shell (List (List String))
shell client = record {
  load_all = λ w. (ok [], w);
  load_all_clusters = λ w. (ok (cluster client ∷ []), w);
  wire = record {
    new_request = λ url. ok tt;
    send = λ base r w. (err "refused", w);
    decode_status = λ b. err "none";
    decode_result = λ b. err "none";
    decode_diff = λ b. err "none";
    decode_map = λ b. ok [];
    body_text = λ b. "";
  };
  print = λ s w. w;
  read_line = λ w. ("y", w);
  align = λ s. s;
  env_key = "k";
  agent_port = pos 19000;
}

-- The record of the cluster's node, and one of a node that is gone.
abbrev listed : String → Result (List AwsRecord)
listed out = ok (
    record { name = "a-geth.e.com."; kind = "A"; ttl = pos 300; values = "192.0.2.1" ∷ [] }
    ∷ record { name = "b-geth.e.com."; kind = "A"; ttl = pos 300; values = "192.0.2.2" ∷ [] }
    ∷ [])

shell-IsLogged : (client : String) → IsLogged (shell client) dns_host (λ w. w)
shell-IsLogged client = record {
  aws_logs = λ args w. refl;
  print_quiet = λ s w. refl;
  read_quiet = λ w. refl;
  load_quiet = λ w. refl;
  clusters_quiet = λ w. refl;
}

geth_named : ◌≢◌ {A = String} "geth" ""
geth_named e = cc

dns_cleanup_cmd-spares_example :
    All
      (λ args. args ≢ current_args "Z1" (hostname "a" "geth" "e.com"))
      (dns_cleanup_cmd (shell "geth") dns_host listed (λ w. true) false "Z1" "e.com" []).1
dns_cleanup_cmd-spares_example =
    dns_cleanup_cmd-spares (shell "geth") dns_host listed (λ w. true) (λ w. w) false "Z1" "e.com"
      (cluster "geth" ∷ []) (cluster "geth") (named_node "a" "geth") [] (shell-IsLogged "geth")
      (λ w. refl) (inl refl) (inl refl) (record { enabled = refl; named = geth_named }) tt

audit_of_profiles_example :
    audit aws_sim listed "Z1" "e.com" (names_of_clusters "e.com" (cluster "" ∷ [])) []
    ≡ list_zone_records aws_sim listed "Z1" "e.com" []
audit_of_profiles_example =
    audit_of_profiles aws_sim listed "Z1" "e.com" (cluster "" ∷ []) [] ((refl, tt), tt)

abbrev report : Report
report = record {
  public_ip = "192.0.2.1";
  cgroup_version = pos 2;
  el_client = "geth";
  cl_client = "";
  vc_gateway_ips = "18.1.2.3" ∷ [];
  management_ips = [];
  warnings = [];
}

report_of-encoded_example : report_of (encoded report) ≡ report
report_of-encoded_example = report_of-encoded report

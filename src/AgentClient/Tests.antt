-- ===== src/AgentClient/Tests.antt =====
-- cli/agentclient: the theorems on an agent with the key "k", and a client that has it or has not.
use eth_node_operator.Common.{
  String, ◌<>◌, ◌≡◌, ◌≢◌, refl, ap, true, false, Option, none, some, List, [], ◌∷◌, ok, err, inl,
  inl, inr, ◌⊎◌, is_empty, if◌then◌else◌, Result,
}
use eth_node_operator.Common.Int.{pos}
use eth_node_operator.Types.{
  NodeStatus, ReconcileResult, DiffResult, UpgradeRequest, EthereumNode, empty_spec,
}
use eth_node_operator.Reconciler.{Managers}
use eth_node_operator.Discover.{empty_report}
use eth_node_operator.Agent.{
  Agent, Host, Body, text, status_json, result_json, diff_json, report_json,
}
use eth_node_operator.Agent.Routes.{Sources, serve}
use eth_node_operator.Upgrade.{Timing, Wake, upgrade_node}
use eth_node_operator.AgentClient.{Client, Wire, node_client, new, post_json, restart}
use eth_node_operator.AgentClient.Loopback.{IsServed, post_json-right, restart-refused}
use eth_node_operator.AgentClient.Lost.{IsReached, IsLost}
use eth_node_operator.AgentClient.Holding.{upgrade_node-not_cordoned}

abbrev docker_sim : List String → Unit {0} → (String × Option String) × Unit {0}
docker_sim args w = (("true|geth:1|now", none), w)

abbrev managers : Managers (Unit {0})
managers = record {
  docker = docker_sim;
  ufw = docker_sim;
  disk = λ d w. (([], none), w);
  restore_if_empty = λ base client network dir w. (ok false, w);
  dns_configured = λ w. false;
  dns_register = λ name zone_id ttl w. (err "not configured", w);
  obs = none;
}

abbrev node : EthereumNode
node = record {
  name = "bm-01";
  host = "";
  port = pos 0;
  labels = [];
  profiles = [];
  spec = empty_spec;
}

abbrev host : Host (Unit {0})
host = record {
  managers = managers;
  probes = record {
    el_syncing = λ w. (ok false, w);
    el_block_number = λ w. (ok 7, w);
    el_peer_count = λ w. (ok (pos 3), w);
    cl_syncing = λ w. (ok false, w);
    cl_peer_count = λ w. (ok (pos 9), w);
  };
  load_node = λ w. (ok node, w);
  collect = λ w. (ok tt, w);
  now = λ w. record { minutes = 0; nanoseconds = 0; location = λ m. m };
}

abbrev sources : Sources (Unit {0})
sources = record { logs = λ name follow w. (ok [], w); discover = λ w. (empty_report, w) }

abbrev agent : Agent
agent = record {
  node_name = "bm-01";
  api_key = "k";
  cordoned = false;
  reason = "";
  last_spec = none;
}

abbrev status_of : Body → Result NodeStatus
status_of (status_json s) = ok s
status_of (text t) = err "invalid character"
status_of (result_json r) = err "invalid character"
status_of (diff_json d) = err "invalid character"
status_of (report_json r) = err "invalid character"

abbrev result_of : Body → Result ReconcileResult
result_of (result_json r) = ok r
result_of (text t) = err "invalid character"
result_of (status_json s) = err "invalid character"
result_of (diff_json d) = err "invalid character"
result_of (report_json r) = err "invalid character"

abbrev diff_of : Body → Result DiffResult
diff_of (diff_json d) = ok d
diff_of (text t) = err "invalid character"
diff_of (status_json s) = err "invalid character"
diff_of (result_json r) = err "invalid character"
diff_of (report_json r) = err "invalid character"

abbrev text_of : Body → String
text_of (text t) = t
text_of (status_json s) = "{}"
text_of (result_json r) = "{}"
text_of (diff_json d) = "{}"
text_of (report_json r) = "{}"

abbrev wire : Wire (Agent × Unit {0})
wire = record {
  new_request = λ url. ok tt;
  send = λ base r s. let (resp, s') = serve host sources r s in (ok resp, s');
  decode_status = status_of;
  decode_result = result_of;
  decode_diff = diff_of;
  decode_map = λ b. ok [];
  body_text = text_of;
}

wire-IsServed : (base : String) → IsServed host sources base wire
wire-IsServed base = record {
  is_address = λ path. refl;
  sends = λ r s. refl;
  reads_status = λ s. refl;
  reads_result = λ r. refl;
  reads_diff = λ d. refl;
}

abbrev client : Client
client = record { base_url = "http://10.0.0.1:19000"; node = "bm-01"; api_key = "k" }

abbrev stranger : Client
stranger = record client { api_key = "other" }

has_key : ◌≢◌ {A = String} "k" ""
has_key e = cc

other_key : ◌≢◌ {A = String} "other" "k"
other_key e = cc

post_json-right_example :
    post_json wire client "/cordon" (record { cordoned = true; reason = "disk" }) (agent, tt)
    ≡ (ok tt, (record agent { cordoned = true; reason = "disk" }, tt))
post_json-right_example =
    post_json-right host sources client wire (wire-IsServed client.base_url)
      (record { cordoned = true; reason = "disk" }) agent tt has_key refl

restart-refused_example : restart wire stranger "el" (agent, tt) ≡ (ok tt, (agent, tt))
restart-refused_example =
    restart-refused host sources stranger wire (wire-IsServed client.base_url) "el" agent tt
      (inr other_key)

abbrev timing : Timing (Agent × Unit {0})
timing = record { now = λ s. 0; wait = λ due s. (Wake.tick, s) }

abbrev request : UpgradeRequest
request = record {
  nodes = [];
  el_image = "";
  cl_image = "";
  mev_image = "";
  max_unavailable = pos 1;
  skip_preflight = false;
}

key_kept :
    ◌≡◌ {A = String} "k"
      (upgrade_node (node_client wire client) timing 3 "bm-01" request (agent, tt)).1.0.api_key
unfolding upgrade_node eth_node_operator.AgentClient.get_status serve
    eth_node_operator.Common.Text.before_first eth_node_operator.Docker.inspect
    eth_node_operator.Common.Text.split_n eth_node_operator.AgentClient.cordon
    eth_node_operator.AgentClient.uncordon eth_node_operator.AgentClient.trigger_reconcile
    eth_node_operator.Reconciler.Pass.reconcile eth_node_operator.Reconciler.reconcile_client
key_kept = refl

wire-IsReached : IsReached host sources client.base_url wire
wire-IsReached = record { is_address = λ path. refl; sends = λ r s. inl refl }

upgrade_node-not_cordoned_example :
    ((upgrade_node (node_client wire client) timing 3 "bm-01" request (agent, tt)).1.0.cordoned
      ≡ false)
    ⊎ IsLost host sources client wire
        (upgrade_node (node_client wire client) timing 3 "bm-01" request (agent, tt)).1
upgrade_node-not_cordoned_example =
    upgrade_node-not_cordoned host sources client wire wire-IsReached timing 3 "bm-01" request
      (agent, tt) has_key refl key_kept

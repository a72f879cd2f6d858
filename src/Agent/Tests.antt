-- ===== src/Agent/Tests.antt =====
-- internal/agent: the theorems on an agent with the key "k".
use eth_node_operator.Common.{
  String, ◌<>◌, ◌≡◌, refl, ap, true, false, Option, none, List, [], ok, err,
}
use eth_node_operator.Common.Int.{pos}
use eth_node_operator.Types.{EthereumNode, NodeStatus, empty_spec}
use eth_node_operator.Reconciler.{Managers}
use eth_node_operator.Agent.{Agent, Host, Request, handle_cordon, serve_write, run_reconcile}
use eth_node_operator.Agent.Status.{collect_client_status, handle_status, node_status}
use eth_node_operator.Agent.Access.{serve_write-authorized}
use eth_node_operator.Agent.Loop.{run_reconcile-handle_cordon}
use eth_node_operator.Agent.Health.{IsPhase, handle_status-IsPhase}

abbrev docker_sim : List String → Unit {0} → (String × Option String) × Unit {0}
docker_sim args w = (("true|geth:1|now", none), w)

abbrev managers : Managers (Unit {0})
managers = record {
  docker = docker_sim;
  ufw = docker_sim;
  disk = λ d w. (([], none), w);
  restore_if_empty = λ base client network dir w. (ok false, w);
  dns_configured = λ w. false;
  dns_register = λ name zone_id ttl w. (err "not configured", w);
  obs = none;
}

abbrev node : EthereumNode
node = record {
  name = "bm-01";
  host = "";
  port = pos 0;
  labels = [];
  profiles = [];
  spec = empty_spec;
}

-- The execution client does not answer.
abbrev host : Host (Unit {0})
host = record {
  managers = managers;
  probes = record {
    el_syncing = λ w. (err "connection refused", w);
    el_block_number = λ w. (err "connection refused", w);
    el_peer_count = λ w. (err "connection refused", w);
    cl_syncing = λ w. (ok false, w);
    cl_peer_count = λ w. (ok (pos 9), w);
  };
  load_node = λ w. (ok node, w);
  collect = λ w. (ok tt, w);
  now = λ w. record { minutes = 0; nanoseconds = 0; location = λ m. m };
}

abbrev agent : Agent
agent = record {
  node_name = "bm-01";
  api_key = "k";
  cordoned = false;
  reason = "";
  last_spec = none;
}

abbrev cordon_request : Request
cordon_request = record {
  method = "POST";
  authorization = "Bearer k";
  client = "";
  cordon = ok (record { cordoned = true; reason = "upgrade" });
}

serve_write-authorized_example : "Bearer k" ≡ "Bearer " <> "k"
unfolding serve_write
serve_write-authorized_example =
    serve_write-authorized host "/cordon" cordon_request agent tt
      (λ e. cc (ap (λ (s : Agent × Unit {0}). s.0.cordoned) e))

run_reconcile-handle_cordon_example :
    (run_reconcile host (handle_cordon cordon_request (agent, tt)).1).1
    ≡ (handle_cordon cordon_request (agent, tt)).1
run_reconcile-handle_cordon_example =
    run_reconcile-handle_cordon host cordon_request (record { cordoned = true; reason = "upgrade" })
      (agent, tt) refl refl refl

abbrev reported : NodeStatus
reported =
    node_status agent (collect_client_status host "execution" "el" tt).0
      (collect_client_status host "consensus" "cl" tt).0
      (collect_client_status host "mev-boost" "mev" tt).0

handle_status-IsPhase_example : IsPhase agent true true reported
unfolding handle_status collect_client_status eth_node_operator.Docker.inspect
    eth_node_operator.Common.Text.split_n
handle_status-IsPhase_example = handle_status-IsPhase host cordon_request agent tt reported refl

-- ===== src/Agent/Status.antt =====
-- internal/agent/server.go: the status that the agent reports.
use eth_node_operator.Common.{String, Bool, false, not, ◌||◌, if◌then◌else◌, ◌==◌, Result, ok, err}
use eth_node_operator.Common.Int.{pos}
use eth_node_operator.Types.{ClientStatus, NodeStatus, Phase}
use eth_node_operator.Docker.{ContainerInfo, inspect}
use eth_node_operator.Agent.{Agent, Host, Handler, Response, respond, status_json, value_or}

abbrev pub stopped_status : String → ClientStatus
stopped_status client_type = record {
  name = client_type;
  running = false;
  image = "";
  version = "";
  synced = false;
  block_number = 0;
  peer_count = pos 0;
  healthy = false;
}

abbrev pub inspected_status : String → ContainerInfo → ClientStatus
inspected_status client_type info = record (stopped_status client_type) {
  running = info.running;
  image = info.image;
  version = info.version;
  healthy = info.running;
}

abbrev pub phase_of : Bool → ClientStatus → ClientStatus → Phase
phase_of cordoned el cl =
    if cordoned
    then Phase.cordoned
    else if not el.running || not cl.running
    then Phase.degraded
    else Phase.running

abbrev pub node_status : Agent → ClientStatus → ClientStatus → ClientStatus → NodeStatus
node_status a el cl mev = record {
  name = a.node_name;
  phase = phase_of a.cordoned el cl;
  el = el;
  cl = cl;
  mev = mev;
  cordoned = a.cordoned;
}

module _ {W : Type 0} (h : Host W) where
  -- The errors of the probes are dropped.
  abbrev pub probe_el : ClientStatus → W → ClientStatus × W
  probe_el status w =
      let (syncing, w1) = h.probes.el_syncing w in
      let (block_number, w2) = h.probes.el_block_number w1 in
      let (peer_count, w3) = h.probes.el_peer_count w2 in
      (
        record status {
          synced = not (value_or false syncing);
          block_number = value_or 0 block_number;
          peer_count = value_or (pos 0) peer_count;
        },
        w3,
      )

  abbrev pub probe_cl : ClientStatus → W → ClientStatus × W
  probe_cl status w =
      let (syncing, w1) = h.probes.cl_syncing w in
      let (peer_count, w2) = h.probes.cl_peer_count w1 in
      (
        record status {
          synced = not (value_or false syncing);
          peer_count = value_or (pos 0) peer_count;
        },
        w2,
      )

  abbrev pub probe : String → Result ContainerInfo → W → ClientStatus × W
  probe client_type (err e) w = (stopped_status client_type, w)
  probe client_type (ok info) w =
      let status = inspected_status client_type info in
      if not info.running
      then (status, w)
      else if client_type == "el"
      then probe_el status w
      else if client_type == "cl"
      then probe_cl status w
      else (status, w)

  unfoldable pub collect_client_status : String → String → W → ClientStatus × W
  collect_client_status name client_type w =
      let (info, w') = inspect h.managers.docker name w in probe client_type info w'

  unfoldable pub report_status : Result (Unit {0}) → Agent × W → Response × (Agent × W)
  unfolding collect_client_status
  report_status (err e) s = (respond 500 e, s)
  report_status (ok done) (a, w) =
      let (el, w1) = collect_client_status "execution" "el" w in
      let (cl, w2) = collect_client_status "consensus" "cl" w1 in
      let (mev, w3) = collect_client_status "mev-boost" "mev" w2 in
      (record { code = 200; body = status_json (node_status a el cl mev) }, (a, w3))

  unfoldable pub handle_status : Handler W
  unfolding report_status
  handle_status req (a, w) = let (r, w') = h.collect w in report_status r (a, w')

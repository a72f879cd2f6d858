-- ===== src/Reconciler.antt =====
-- internal/reconciler/reconciler.go: one pass that moves the host towards its desired state, and the
-- report of what differs. The managers that it calls are fields of `Managers`.
pub mod Pass
pub mod Diff
pub mod Preflight
mod Tests
mod Ready
mod Images
mod Naming
mod Commands
use eth_node_operator.Common.{
  String, ◌<>◌, Bool, true, false, not, ◌&&◌, ◌||◌, Option, none, some, List, [], ◌∷◌, ◌++◌, map,
  if◌then◌else◌, ◌==◌, Result, ok, err, Action, pure, fail, wrap, continue, ◌>>=◌, ◌>>◌, Runner,
  is_empty,
}
use eth_node_operator.Common.Int.{ℤ, int_eq}
use eth_node_operator.Types.{
  FirewallRule, FirewallSpec, DiskSpec, ClientSpec, MevSpec, NodeSpec, ReconcileResult,
  cl_http_port, agent_port,
}
use eth_node_operator.Docker.{ContainerInfo, inspect, pull, stop, start}
use eth_node_operator.Ufw.{drift_check, apply_rules}
use eth_node_operator.Dns.{RegisterResult, hostname}

-- A call that returns what it did even when it fails.
abbrev pub Report : Type 0 → Type 0
Report W = W → (List String × Option String) × W

-- What the reconciler is built over: the runners of `docker` and `ufw`, and the managers of the disk, of
-- snapshots (given the base URL of the server), of DNS, and of the observability stack, if there is one.
pub record Managers (W : Type 0) : Type 0 where
  pub docker : Runner W
  pub ufw : Runner W
  pub disk : DiskSpec → Report W
  pub restore_if_empty : String → String → String → String → Action W Bool
  pub dns_configured : W → Bool
  pub dns_register : String → String → ℤ → Action W RegisterResult
  pub obs : Option (Report W)

-- `firewall == "ufw"`'s rules without those of the agent's own port.
unfoldable pub without_agent : List FirewallRule → List FirewallRule
without_agent [] = []
without_agent (r ∷ rules) =
    let rest = without_agent rules in
    if int_eq r.port agent_port && r.proto == "tcp" then rest else r ∷ rest

abbrev pub inbound_from : String → ℤ → String → FirewallRule
inbound_from description port cidr = record {
  description = description;
  port = port;
  proto = "tcp";
  direction = "inbound";
  source = cidr;
  destination = "";
  action = "allow";
}

-- The rule set of step 4b: only the management addresses reach the agent.
unfoldable pub management_spec : NodeSpec → FirewallSpec
unfolding without_agent
management_spec desired = record desired.network.firewall {
  rules =
      without_agent desired.network.firewall.rules
      ++ map (inbound_from "ethagent API (management)" agent_port) desired.network.management_cidrs;
}

-- The rule set of step 4c: the gateways reach the beacon API.
unfoldable pub vc_gateway_spec : NodeSpec → FirewallSpec
vc_gateway_spec desired = record desired.network.firewall {
  rules =
      desired.network.firewall.rules
      ++ map (inbound_from "VC beacon API" cl_http_port) desired.network.vc_gateways;
}

default_snapshot_base : String
default_snapshot_base = "https://snapshots.ethpandaops.io"

-- `snapshot.NewWithBase(…)` or `snapshot.New()`
snapshot_base : NodeSpec → String
unfolding default_snapshot_base
snapshot_base desired =
    if desired.snapshot.provider == "self-hosted" && not (desired.snapshot.url == "")
    then desired.snapshot.url
    else default_snapshot_base

abbrev snapshot_network : NodeSpec → String
snapshot_network desired =
    if desired.snapshot.network == "" then "mainnet" else desired.snapshot.network

module _ {W : Type 0} (m : Managers W) where
  -- The three commands that replace a container's image, and what is reported.
  unfoldable pub replace_image : String → String → String → Action W String
  replace_image name current image = do
    wrap (λ e. "pull " <> image <> ": " <> e) (pull m.docker image)
    wrap (λ e. "stop " <> name <> ": " <> e) (stop m.docker name)
    wrap (λ e. "start " <> name <> ": " <> e) (start m.docker name)
    pure (name <> ": updated " <> current <> " → " <> image)

  start_stopped : String → Action W String
  start_stopped name = do
    wrap (λ e. "start " <> name <> ": " <> e) (start m.docker name)
    pure (name <> ": started (was stopped)")

  -- What `reconcileClient` does with the container that it found.
  unfoldable pub bring_up : String → String → ContainerInfo → Action W String
  unfolding replace_image start_stopped
  bring_up name image info =
      if not (info.image == image)
      then replace_image name info.image image
      else if not info.running
      then start_stopped name
      else pure ""

  unfoldable pub reconcile_client : String → ClientSpec → Action W String
  unfolding bring_up
  reconcile_client name desired = if desired.image == "" then pure "" else do
    info ← wrap (λ e. "inspect " <> name <> ": " <> e) (inspect m.docker name)
    bring_up name desired.image info

  -- The same for MEV-Boost, whose errors are returned as they are.
  bring_up_mev : String → ContainerInfo → Action W String
  bring_up_mev image info =
      if not (info.image == image)
      then (do
        pull m.docker image
        stop m.docker "mev-boost"
        start m.docker "mev-boost"
        pure ("mev-boost: updated " <> info.image <> " → " <> image))
      else if not info.running
      then (do start m.docker "mev-boost"; pure "mev-boost: started (was stopped)")
      else pure ""

  unfoldable pub reconcile_mev : MevSpec → Action W String
  unfolding bring_up_mev
  reconcile_mev desired = if desired.image == "" then pure "" else do
    info ← wrap (λ e. "inspect mev-boost: " <> e) (inspect m.docker "mev-boost")
    bring_up_mev desired.image info

  unfoldable pub reconcile_firewall : FirewallSpec → Action W Unit
  reconcile_firewall desired = do
    missing ← drift_check m.ufw desired
    if is_empty missing then pure tt else apply_rules m.ufw desired

  -- One client's part of `reconcileSnapshot`: the actions so far, with one more if it was restored.
  restore_client : String → NodeSpec → ClientSpec → List String → Report W
  unfolding snapshot_base
  restore_client layer desired client actions w =
      let (r, w') =
        m.restore_if_empty (snapshot_base desired) (snapshot_network desired) client.client
          client.data_dir w in
      (
        elim r [
          | ok restored ↦ (
            if restored
                then actions
                  ++ ("snapshot: restored "
                      <> snapshot_network desired
                      <> "/"
                      <> client.client
                      <> " to "
                      <> client.data_dir)
                    ∷ []
                else actions,
            none,
          )
          | err e ↦ (actions, some (layer <> " snapshot: " <> e))
        ],
        w',
      )

  -- The consensus part, which is left out if the execution part failed.
  restore_consensus :
      NodeSpec → (List String × Option String) × W → (List String × Option String) × W
  unfolding restore_client
  restore_consensus desired ((actions, some e), w) = ((actions, some e), w)
  restore_consensus desired ((actions, none), w) =
      if desired.snapshot.cl_enabled && not (desired.consensus.data_dir == "")
      then restore_client "CL" desired desired.consensus actions w
      else ((actions, none), w)

  unfoldable pub reconcile_snapshot : NodeSpec → Report W
  unfolding restore_client restore_consensus
  reconcile_snapshot desired w = restore_consensus desired (
      if desired.snapshot.el_enabled && not (desired.execution.data_dir == "")
      then restore_client "EL" desired desired.execution [] w
      else (([], none), w))

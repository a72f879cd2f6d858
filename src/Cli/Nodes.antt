-- ===== src/Cli/Nodes.antt =====
-- cli/commands/commands.go: `ethctl nodes list`. The goroutines write the answers at the indices of their nodes; here the nodes are asked in order.
use eth_node_operator.Common.{
  String, ◌<>◌, Bool, List, [], ◌∷◌, if◌then◌else◌, ◌==◌, not, Result, ok, err, Action, wrap, ◌>>=◌,
}
use eth_node_operator.Common.Int.{show_int}
use eth_node_operator.Types.{
  EthereumNode, ClientStatus, NodeStatus, Phase, running, upgrading, degraded, pending, cordoned,
}
use eth_node_operator.AgentClient.{get_status}
use eth_node_operator.Cli.{Shell, say, client_of, each_line}

abbrev pub sync_mark : Bool → String
sync_mark synced = if synced then "✓" else "✗"

abbrev pub short_version : ClientStatus → String
short_version cs =
    if not cs.running then "stopped" else if cs.image == "" then "unknown" else cs.image

abbrev pub show_phase : Phase → String
show_phase running = "Running"
show_phase upgrading = "Upgrading"
show_phase degraded = "Degraded"
show_phase pending = "Pending"
show_phase cordoned = "Cordoned"

abbrev pub node_row : EthereumNode × Result NodeStatus → String
node_row (n, err e) = n.name <> "\t" <> n.host <> "\t—\t—\t—\t—\t—\tUnreachable\n"
node_row (n, ok s) =
    n.name
    <> "\t"
    <> n.host
    <> "\t"
    <> short_version s.el
    <> "\t"
    <> short_version s.cl
    <> "\t"
    <> (if s.mev.running then "✓" else "—")
    <> "\t"
    <> sync_mark s.el.synced
    <> "/"
    <> sync_mark s.cl.synced
    <> "\t"
    <> show_int s.el.peer_count
    <> "/"
    <> show_int s.cl.peer_count
    <> "\t"
    <> show_phase s.phase
    <> "\n"

module _ {W : Type 0} (shell : Shell W) where
  unfoldable pub ask_each : List EthereumNode → W → List (EthereumNode × Result NodeStatus) × W
  ask_each [] w = ([], w)
  ask_each (n ∷ ns) w =
      let (status, w1) = get_status shell.wire (client_of shell n) w in
      let (rest, w2) = ask_each ns w1 in ((n, status) ∷ rest, w2)

  unfoldable pub nodes_list_cmd : Action W (Unit {0})
  unfolding ask_each
  nodes_list_cmd = do
    nodes ← wrap (λ e. "load inventory: " <> e) shell.load_all
    λ w.
        (let (results, w') = ask_each nodes w in
          say shell
            (shell.align (
              "NAME\tHOST\tEL\tCL\tMEV\tSYNCED\tPEERS\tPHASE\n────\t────\t──\t──\t───\t──────\t─────\t─────\n"
              <> each_line node_row results))
            w')

-- ===== src/Cli.antt =====
-- cli/commands/commands.go: the commands of `ethctl` that reach one node, over the inventory, the clients of the agents
-- and the terminal. The children model the commands on many nodes, on DNS records, and on what a node has found out.
pub mod Nodes
pub mod Upgrade
pub mod Dns
pub mod Discover
mod Reporting
mod Serial
mod Expected
mod Spared
mod Cleaning
mod Tests
use Prim.Native.String.{[], ◌∷◌}
use eth_node_operator.Common.{
  ℕ, ◌+◌, ◌-◌, zero, suc, String, ◌<>◌, Bool, true, false, Option, none, some, List, if◌then◌else◌,
  ◌==◌, Result, ok, err, Action, pure, fail, wrap, continue, ◌>>=◌, ◌>>◌, is_empty,
}
use eth_node_operator.Common.Dict.{Dict}
use eth_node_operator.Common.Int.{ℤ}
use eth_node_operator.Types.{
  EthereumNode, Cluster, NodeStatus, ReconcileResult, DriftItem, DiffResult,
}
use eth_node_operator.AgentClient.{
  Client, Wire, JsonValue, new, cordon, uncordon, trigger_reconcile, stream_logs, restart, get_diff,
}

-- What the commands are built over: the read of the inventory as nodes and as clusters, the transport to the agents, the
-- terminal, and the environment's API key.
pub record Shell (W : Type 0) : Type 0 where
  pub load_all : Action W (List EthereumNode)
  pub load_all_clusters : Action W (List Cluster)
  pub wire : Wire W
  pub print : String → W → W
  pub read_line : W → String × W
  -- The columns of a text that has tabs between them.
  pub align : String → String
  pub env_key : String
  pub agent_port : ℤ

abbrev pub found_node : String → List EthereumNode → Result EthereumNode
found_node name List.[] = err ("node \"" <> name <> "\" not found in inventory")
found_node name (List.◌∷◌ n ns) = if n.name == name then ok n else found_node name ns

-- `for _, x := range xs { … }`, where the body only prints.
abbrev pub each_line {ℓ} : {A : Type ℓ} → (A → String) → List A → String
each_line line List.[] = ""
each_line line (List.◌∷◌ x xs) = line x <> each_line line xs

-- `%-30s`
spaces : ℕ → String
spaces zero = ""
spaces (suc n) = " " <> spaces n

char_count : String → ℕ
char_count [] = 0
char_count (c ∷ s) = suc (char_count s)

unfoldable pub padded : ℕ → String → String
unfolding spaces char_count
padded width s = s <> spaces (width - char_count s)

abbrev pub bullet : String → String
bullet s = "  • " <> s <> "\n"

-- What `sync` prints of a result.
unfoldable pub sync_report : String → ReconcileResult → String
sync_report name r =
    if is_empty r.actions
    then "✓ " <> name <> " already in sync\n"
    else "✓ "
      <> name
      <> " reconciled:\n"
      <> each_line bullet r.actions
      <> (if is_empty r.errors then "" else "⚠ Errors:\n" <> each_line bullet r.errors)

abbrev pub drift_line : DriftItem → String
drift_line d =
    "  "
    <> padded 30 d.field
    <> " desired="
    <> padded 30 d.desired
    <> " actual="
    <> d.actual
    <> "\n"

unfoldable pub diff_report : String → DiffResult → String
unfolding padded
diff_report name d =
    if d.in_sync
    then "✓ " <> name <> " is in sync\n"
    else "⚠ " <> name <> " has drift:\n" <> each_line drift_line d.drifts

module _ {W : Type 0} (shell : Shell W) where
  abbrev pub say : String → Action W (Unit {0})
  say s w = (ok tt, shell.print s w)

  unfoldable pub find_node : String → Action W EthereumNode
  find_node name = do
    nodes ← wrap (λ e. "load inventory: " <> e) shell.load_all
    λ w. (found_node name nodes, w)

  abbrev pub client_of : EthereumNode → Client
  client_of node = new shell.env_key node.name node.host shell.agent_port

  unfoldable pub with_node_client : String → (Client → Action W (Unit {0})) → Action W (Unit {0})
  unfolding find_node
  with_node_client name f = do node ← find_node name; f (client_of node)

  unfoldable pub cordon_cmd : String → String → Action W (Unit {0})
  unfolding with_node_client
  cordon_cmd reason name =
      with_node_client name
        (λ client. do cordon shell.wire client reason; say ("✓ " <> name <> " cordoned\n"))

  unfoldable pub uncordon_cmd : String → Action W (Unit {0})
  unfolding with_node_client
  uncordon_cmd name =
      with_node_client name
        (λ client. do uncordon shell.wire client; say ("✓ " <> name <> " uncordoned\n"))

  unfoldable pub sync_cmd : String → Action W (Unit {0})
  unfolding with_node_client sync_report
  sync_cmd name =
      with_node_client name
        (λ client. do result ← trigger_reconcile shell.wire client; say (sync_report name result))

  unfoldable pub logs_cmd : String → Bool → String → Action W (Unit {0})
  unfolding with_node_client
  logs_cmd which follow name =
      with_node_client name (λ client. do log ← stream_logs shell.wire client which follow; say log)

  unfoldable pub restart_cmd : String → String → Action W (Unit {0})
  unfolding with_node_client
  restart_cmd which name = with_node_client name (λ client. do
    restart shell.wire client which
    say ("✓ " <> name <> " " <> which <> " restarted\n"))

  unfoldable pub diff_cmd : String → Action W (Unit {0})
  unfolding with_node_client diff_report
  diff_cmd name =
      with_node_client name
        (λ client. do diff ← get_diff shell.wire client; say (diff_report name diff))

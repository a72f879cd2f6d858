-- ===== src/Cli/Upgrade.antt =====
-- cli/commands/commands.go: `ethctl upgrade`, which upgrades nodes one after the other. It is written over the clients of the nodes'
-- agents, what is printed, and the pause between two nodes.
use eth_node_operator.Common.{
  ℕ, ◌+◌, String, ◌<>◌, Bool, not, Option, none, some, List, [], ◌∷◌, map, if◌then◌else◌, ltb,
  length, is_empty, Result, ok, err, Action, pure, fail, wrap, ◌>>=◌, ◌>>◌,
}
use eth_node_operator.Common.Dict.{Dict, lookup, insert_all}
use eth_node_operator.Common.Int.{ℤ, pos, show_int}
use eth_node_operator.Types.{EthereumNode, ReconcileResult}
use eth_node_operator.AgentClient.{node_client}
use eth_node_operator.Upgrade.{NodeClient, show_list}
use eth_node_operator.Cli.{Shell, client_of, each_line, bullet}

-- The flags of the command.
pub record Flags : Type 0 where
  pub el_image : String
  pub cl_image : String
  pub mev_image : String
  pub max_unavailable : ℤ
  pub skip_preflight : Bool

pub record Rollout (W : Type 0) : Type 0 where
  pub reach : EthereumNode → NodeClient W
  pub print : String → W → W
  pub pause : W → W

-- `if test { return fmt.Errorf(…) }`
abbrev pub refuse : {W : Type 0} → Bool → String → Action W (Unit {0})
refuse test message = if test then fail message else pure tt

abbrev pub show_nat : ℕ → String
show_nat n = show_int (pos n)

-- The names of the arguments, or of all nodes.
abbrev pub targets : List String → List EthereumNode → List String
targets args nodes = if is_empty args then map (λ (n : EthereumNode). n.name) nodes else args

-- `nodeMap[n.Name] = n`
abbrev pub node_map : List EthereumNode → Dict EthereumNode
node_map nodes = insert_all [] (map (λ (n : EthereumNode). (n.name, n)) nodes)

module _ {W : Type 0} (rollout : Rollout W) where
  abbrev pub say : String → Action W (Unit {0})
  say s w = (ok tt, rollout.print s w)

  unfoldable pub preflight : Bool → String → NodeClient W → Action W (Unit {0})
  preflight skip name client = if skip then pure tt else (do
    status ← wrap (λ e. "preflight status for " <> name <> ": " <> e) client.get_status
    refuse (not status.el.synced) ("preflight failed for " <> name <> ": EL not synced")
    refuse (not status.cl.synced) ("preflight failed for " <> name <> ": CL not synced")
    say "  ✓ preflight passed\n")

  -- The node is uncordoned if the reconcile fails; whether that works does not matter.
  abbrev pub after_reconcile : String → NodeClient W → Result ReconcileResult → Action W (Unit {0})
  after_reconcile name client (err e) w =
      let (_, w') = client.uncordon w in (err ("reconcile " <> name <> ": " <> e), w')
  after_reconcile name client (ok result) w = say (each_line bullet result.actions) w

  abbrev pub uncordon_note : String → Result (Unit {0}) → String
  uncordon_note name (err e) = "  ⚠ failed to uncordon " <> name <> ": " <> e <> "\n"
  uncordon_note name (ok u) = "  ✓ uncordoned\n"

  abbrev pub release : String → NodeClient W → Action W (Unit {0})
  release name client w =
      let (r, w') = client.uncordon w in
      say (uncordon_note name r <> "  ✓ " <> name <> " upgraded\n") w'

  -- The upgrade of a node that is cordoned.
  abbrev pub upgrade_cordoned : String → NodeClient W → Action W (Unit {0})
  upgrade_cordoned name client = do
    say "  ✓ cordoned\n"
    λ w. (let (r, w') = client.trigger_reconcile w in after_reconcile name client r w')
    release name client

  unfoldable pub cordon_and_upgrade : String → NodeClient W → Action W (Unit {0})
  cordon_and_upgrade name client = do
    wrap (λ e. "cordon " <> name <> ": " <> e) (client.cordon "rolling upgrade")
    upgrade_cordoned name client

  unfoldable pub upgrade_one : Bool → String → NodeClient W → Action W (Unit {0})
  unfolding preflight cordon_and_upgrade
  upgrade_one skip name client = do preflight skip name client; cordon_and_upgrade name client

  -- Between two nodes.
  abbrev pub rest_before_next : ℕ → ℕ → Action W (Unit {0})
  rest_before_next i total w =
      if ltb (i + 1) total
      then (ok tt, rollout.pause (rollout.print "  Waiting 30s before next node...\n" w))
      else (ok tt, w)

  abbrev pub upgrade_named : Bool → ℕ → ℕ → String → Option EthereumNode → Action W (Unit {0})
  upgrade_named skip i total name none = fail ("node \"" <> name <> "\" not found in inventory")
  upgrade_named skip i total name (some node) = do
    say ("[" <> show_nat (i + 1) <> "/" <> show_nat total <> "] Upgrading " <> name <> "...\n")
    upgrade_one skip name (rollout.reach node)
    rest_before_next i total

  -- The loop over the names; `i` is the index of the first one.
  unfoldable pub upgrade_each : Bool → Dict EthereumNode → ℕ → ℕ → List String → Action W (Unit {0})
  unfolding upgrade_one
  upgrade_each skip nodes i total [] = pure tt
  upgrade_each skip nodes i total (name ∷ names) = do
    upgrade_named skip i total name (lookup name nodes)
    upgrade_each skip nodes (i + 1) total names

  unfoldable pub upgrade_nodes : Flags → List String → List EthereumNode → Action W (Unit {0})
  unfolding upgrade_each
  upgrade_nodes flags args nodes = do
    let names = targets args nodes
    say (
        "Upgrading "
        <> show_nat (length names)
        <> " node(s): "
        <> show_list names
        <> "\n  EL image: "
        <> flags.el_image
        <> "\n  CL image: "
        <> flags.cl_image
        <> "\n  Max unavailable: "
        <> show_int flags.max_unavailable
        <> "\n\n")
    upgrade_each flags.skip_preflight (node_map nodes) 0 (length names) names
    say ("\n✓ All " <> show_nat (length names) <> " nodes upgraded\n")

module _ {W : Type 0} (shell : Shell W) (sleep : W → W) where
  abbrev pub rollout_of : Rollout W
  rollout_of = record {
    reach = λ node. node_client shell.wire (client_of shell node);
    print = shell.print;
    pause = sleep;
  }

  unfoldable pub upgrade_cmd : Flags → List String → Action W (Unit {0})
  unfolding upgrade_nodes
  upgrade_cmd flags args = do
    nodes ← wrap (λ e. "load inventory: " <> e) shell.load_all
    upgrade_nodes rollout_of flags args nodes

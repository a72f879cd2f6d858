-- ===== src/Cli/Dns.antt =====
-- cli/commands/commands.go: the commands of `ethctl dns`. The runner of `aws` and its decoder are given with the shell.
use eth_node_operator.Common.{
  String, ◌<>◌, Bool, true, false, ◌||◌, List, [], ◌∷◌, ◌++◌, if◌then◌else◌, ◌==◌, length, is_empty,
  Result, ok, err, Action, pure, wrap, ◌>>=◌, ◌>>◌,
}
use eth_node_operator.Common.Int.{show_int}
use eth_node_operator.Types.{EthereumNode, Cluster, ClusterNode}
use eth_node_operator.Dns.{hostname}
use eth_node_operator.Dns.Records.{Host, ZoneRecord, delete}
use eth_node_operator.Dns.Zone.{AwsRecord, list_zone_records, audit}
use eth_node_operator.Upgrade.{show_list}
use eth_node_operator.Cli.{Shell, say, padded, find_node, each_line}
use eth_node_operator.Cli.Upgrade.{refuse, show_nat}

-- `if client != "" { expected[dns.Hostname(…)] = true }`; the keys of the map, each as often as it is written.
abbrev pub expected_name : String → String → String → List String → List String
expected_name name client zone rest =
    if client == "" then rest else hostname name client zone ∷ rest

unfoldable pub names_of_nodes : String → List EthereumNode → List String
names_of_nodes zone [] = []
names_of_nodes zone (n ∷ ns) =
    expected_name n.name n.spec.execution.client zone (names_of_nodes zone ns)

unfoldable pub names_of_cluster : String → List ClusterNode → List String
names_of_cluster zone [] = []
names_of_cluster zone (n ∷ ns) =
    let rest = names_of_cluster zone ns in
    if n.disabled then rest else expected_name n.name n.spec.execution.client zone rest

unfoldable pub names_of_clusters : String → List Cluster → List String
unfolding names_of_cluster
names_of_clusters zone [] = []
names_of_clusters zone (c ∷ cs) = names_of_cluster zone c.nodes ++ names_of_clusters zone cs

abbrev pub or_given : String → String → String
or_given given own = if given == "" then own else given

abbrev pub record_line : ZoneRecord → String
record_line r = r.hostname <> "\t" <> r.ip <> "\t" <> show_int r.ttl <> "\n"

abbrev pub stale_line : ZoneRecord → String
stale_line r = r.hostname <> "\t" <> r.ip <> "\tnot in cluster\n"

-- `%-55s`
abbrev pub delete_line : ZoneRecord → String
delete_line r = "  DELETE  " <> padded 55 r.hostname <> " → " <> r.ip <> "\n"

module _ {W : Type 0} (shell : Shell W) where
  -- If the clusters cannot be read, the inventory is read as nodes; if that fails too, the first error counts.
  abbrev pub expected_or_nodes : String → Result (List Cluster) → Action W (List String)
  expected_or_nodes zone (ok clusters) w = (ok (names_of_clusters zone clusters), w)
  expected_or_nodes zone (err e) w =
      let (r, w') = shell.load_all w in
      (elim r [ ok nodes ↦ ok (names_of_nodes zone nodes) | err _ ↦ err e ], w')

  unfoldable pub expected_hostnames : String → Action W (List String)
  unfolding names_of_clusters names_of_nodes
  expected_hostnames zone w = let (r, w') = shell.load_all_clusters w in expected_or_nodes zone r w'

module _ {W : Type 0} (shell : Shell W) (host : Host W)
    (parse_list : String → Result (List AwsRecord)) (configured : W → Bool) where
  abbrev pub require_aws : String → Action W (Unit {0})
  require_aws message w = if configured w then (ok tt, w) else (err message, w)

  unfoldable pub dns_list_cmd : String → String → Action W (Unit {0})
  dns_list_cmd zone_id zone = do
    require_aws "aws CLI not configured — set AWS_ACCESS_KEY_ID and AWS_SECRET_ACCESS_KEY"
    records ← list_zone_records host.aws parse_list zone_id zone
    say shell (
        if is_empty records
        then "No A records found in zone " <> zone_id <> " matching \"" <> zone <> "\"\n"
        else shell.align
            ("HOSTNAME\tIP\tTTL\n────────\t──\t───\n" <> each_line record_line records))

  unfoldable pub dns_audit_cmd : String → String → Action W (Unit {0})
  unfolding expected_hostnames
  dns_audit_cmd zone_id zone = do
    require_aws "aws CLI not configured"
    expected ← wrap (λ e. "load cluster inventory: " <> e) (expected_hostnames shell zone)
    stale ← audit host.aws parse_list zone_id zone expected
    say shell (
        if is_empty stale
        then "✓ All records in zone " <> zone <> " match active cluster nodes\n"
        else "⚠ Found "
          <> show_nat (length stale)
          <> " stale record(s) in zone "
          <> zone
          <> ":\n\n"
          <> shell.align
              ("HOSTNAME\tIP\tSTATUS\n────────\t──\t──────\n" <> each_line stale_line stale)
          <> "\nRun 'ethctl dns cleanup --zone-id "
          <> zone_id
          <> " --zone "
          <> zone
          <> "' to delete them.\n")

  -- What the terminal answers, unless it is not asked.
  unfoldable pub confirmed : Bool → String → Action W Bool
  confirmed is_sure question w =
      if is_sure
      then (ok true, w)
      else (let (answer, w') = shell.read_line (shell.print question w) in
          if answer == "y" || answer == "Y"
          then (ok true, w')
          else (ok false, shell.print "Aborted.\n" w'))

  abbrev pub deletion_line : String → Result (Unit {0}) → String
  deletion_line name (ok u) = "  ✓ deleted " <> name <> "\n"
  deletion_line name (err e) = "  ✗ " <> name <> "\n"

  abbrev pub with_failure : String → Result (Unit {0}) → List String → List String
  with_failure name (ok u) failed = failed
  with_failure name (err e) failed = (name <> ": " <> e) ∷ failed

  -- The loop over the stale records, with the deletions that failed.
  unfoldable pub delete_each : String → List ZoneRecord → W → List String × W
  delete_each zone_id [] w = ([], w)
  delete_each zone_id (r ∷ rs) w =
      let (d, w1) = delete host r.hostname zone_id w in
      let (failed, w2) = delete_each zone_id rs (shell.print (deletion_line r.hostname d) w1) in
      (with_failure r.hostname d failed, w2)

  abbrev pub delete_all : String → List ZoneRecord → Action W (Unit {0})
  delete_all zone_id stale w =
      let (failed, w') = delete_each zone_id stale w in
      (if is_empty failed then ok tt else err ("some deletions failed: " <> show_list failed), w')

  abbrev pub delete_confirmed : String → List ZoneRecord → Bool → Action W (Unit {0})
  delete_confirmed zone_id stale true = delete_all zone_id stale
  delete_confirmed zone_id stale false = pure tt

  unfoldable pub dns_cleanup_cmd : Bool → String → String → Action W (Unit {0})
  unfolding expected_hostnames confirmed delete_each
  dns_cleanup_cmd is_sure zone_id zone = do
    require_aws "aws CLI not configured"
    expected ← wrap (λ e. "load inventory: " <> e) (expected_hostnames shell zone)
    stale ← audit host.aws parse_list zone_id zone expected
    if is_empty stale then say shell "✓ Nothing to clean up\n" else (do
      say shell (
          "Will delete "
          <> show_nat (length stale)
          <> " stale record(s):\n"
          <> each_line delete_line stale)
      go ← confirmed is_sure "\nProceed? [y/N] "
      delete_confirmed zone_id stale go)

  abbrev pub delete_one : String → String → Bool → Action W (Unit {0})
  delete_one name zone_id false = pure tt
  delete_one name zone_id true = do
    require_aws "aws CLI not configured"
    wrap (λ e. "delete " <> name <> ": " <> e) (delete host name zone_id)
    say shell (
        "✓ Deleted " <> name
        <> "\n\nNext steps:\n  1. Remove bare metal hardware / return to provider\n  2. Remove or disable node in inventory/clusters/*.yaml\n  3. Run 'ethctl dns audit' to confirm zone is clean\n")

  unfoldable pub dns_decommission_cmd : String → Bool → String → Action W (Unit {0})
  unfolding confirmed
  dns_decommission_cmd given is_sure node_name = do
    node ← find_node shell node_name
    let zone_id = or_given given node.spec.network.route53.zone_id
    let zone = node.spec.network.route53.zone
    refuse (zone_id == "" || zone == "")
        ("node " <> node_name <> " has no Route 53 config (zoneId / zone missing)")
    let name = hostname node_name node.spec.execution.client zone
    go ←
        confirmed is_sure ("Will delete: " <> name <> " (zone: " <> zone_id <> ")\nProceed? [y/N] ")
    delete_one name zone_id go

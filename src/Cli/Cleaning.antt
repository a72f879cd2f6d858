-- ===== src/Cli/Cleaning.antt =====
-- cli/commands/commands.go: which records `ethctl dns cleanup` deletes.
use eth_node_operator.Common.{String, ◌≡◌, ◌≢◌, Bool, List, All, Result, ok}
use eth_node_operator.Types.{Cluster, ClusterNode}
use eth_node_operator.Dns.{hostname}
use eth_node_operator.Dns.Records.{Host, current_args}
use eth_node_operator.Dns.Zone.{AwsRecord}
use eth_node_operator.Cli.{Shell}
use eth_node_operator.Cli.Dns.{dns_cleanup_cmd}
use eth_node_operator.Cli.Expected.{Among, IsActive, names_of_clusters-expected}
use eth_node_operator.Cli.Spared.{IsLogged, cleanup-Spared}

-- For a node that is not disabled and names its execution client in its own entry, `ethctl dns cleanup` does not
-- run the lookup with which the deletion of the node's record begins, if it was not run before, whatever the
-- zone holds and whatever is answered at the prompt; the file of clusters can be read, it has the node, and only
-- the runner of `aws` counts commands.
pub dns_cleanup_cmd-spares :
    {W : Type 0} (shell : Shell W) (host : Host W) (parse_list : String → Result (List AwsRecord))
    (configured : W → Bool) (ran : W → List (List String)) (is_sure : Bool) (zone_id zone : String)
    (clusters : List Cluster) (c : Cluster) (n : ClusterNode) (w : W)
    → IsLogged shell host ran
    → ((w : W) → (shell.load_all_clusters w).0 ≡ ok clusters)
    → Among c clusters
    → Among n c.nodes
    → IsActive n
    → All
        (λ args. args ≢ current_args zone_id (hostname n.name n.spec.execution.client zone))
        (ran w)
    → All
        (λ args. args ≢ current_args zone_id (hostname n.name n.spec.execution.client zone))
        (ran (dns_cleanup_cmd shell host parse_list configured is_sure zone_id zone w).1)
dns_cleanup_cmd-spares shell host parse_list configured ran is_sure zone_id zone clusters c n w
      logged reads among_clusters among_nodes active =
    (cleanup-Spared shell host parse_list configured ran logged zone_id
        (hostname n.name n.spec.execution.client zone) is_sure zone clusters reads
        (names_of_clusters-expected zone n c clusters active among_nodes among_clusters)).at
      w

-- ===== src/Reconciler/Naming.antt =====
-- internal/reconciler/reconciler.go: the host name under which step 4 of a pass registers the node.
use eth_node_operator.Common.{
  String, ◌≡◌, ◌≢◌, refl, ◌∙◌, true, Option, none, some, List, arith, eq_iff,
}
use eth_node_operator.Types.{NodeSpec, ReconcileResult}
use eth_node_operator.Dns.{hostname}
use eth_node_operator.Reconciler.{Managers, reconcile_snapshot}
use eth_node_operator.Reconciler.Pass.{
  add_report, add_dns, snapshot_step, firewall_step, dns_step, before_dns, no_result,
}

report_node_name :
    (part : String) (d : List String × Option String) (r : ReconcileResult)
    → (add_report part d r).node_name ≡ r.node_name
report_node_name part (actions, none) r = refl
report_node_name part (actions, some e) r = refl

module _ {W : Type 0} (m : Managers W) (desired : NodeSpec) where
  snapshot_node_name :
      (r : ReconcileResult) (w : W) → (snapshot_step m desired (r, w)).0.node_name ≡ r.node_name
  unfolding snapshot_step
  snapshot_node_name r w =
      ground (arith, report_node_name "snapshot" (reconcile_snapshot m desired w).0 r)

  firewall_node_name :
      (r : ReconcileResult) (w : W) → (firewall_step m desired (r, w)).0.node_name ≡ r.node_name
  unfolding firewall_step
  firewall_node_name r w = ground arith

  before_dns_node_name : (w : W) → (before_dns m desired w).0.node_name ≡ ""
  unfolding before_dns
  before_dns_node_name w =
      let (d, w1) = m.disk desired.system.disk w in
      let r1 = add_report "disk" d (no_result m desired) in
      let (r2, w2) = snapshot_step m desired (r1, w1) in
      firewall_node_name r2 w2
      ∙ snapshot_node_name r1 w1
      ∙ report_node_name "disk" d (no_result m desired)

  -- Where DNS is configured, a pass registers the host name of a node whose own name is empty: the
  -- name that is registered is the same for all nodes with this client and this zone. What is added
  -- to the result is an action only if the registration answers "UPSERT".
  dns_step-hostname :
      (w : W)
      → desired.network.route53.zone_id ≢ ""
      → m.dns_configured (before_dns m desired w).1 ≡ true
      → let (r, w1) = before_dns m desired w in
        let name = hostname "" desired.execution.client desired.network.route53.zone in
        let (d, w2) =
          m.dns_register name desired.network.route53.zone_id desired.network.route53.ttl w1 in
        dns_step m desired (before_dns m desired w) ≡ (add_dns d r, w2)
  unfolding dns_step
  dns_step-hostname w z c =
      ground (arith, eq_iff desired.network.route53.zone_id "", before_dns_node_name w)

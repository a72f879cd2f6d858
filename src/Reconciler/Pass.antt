-- ===== src/Reconciler/Pass.antt =====
-- internal/reconciler/reconciler.go: the whole pass of `Reconcile`, step by step. A step adds to the
-- result, and acts on the host; no step stops the pass. The duration of a pass is left out.
use eth_node_operator.Common.{
  String, ◌<>◌, not, ◌&&◌, Option, none, some, List, [], ◌∷◌, ◌++◌, if◌then◌else◌, ◌==◌, Result, ok,
  err, is_empty,
}
use eth_node_operator.Types.{ClientSpec, NodeSpec, ReconcileResult}
use eth_node_operator.Dns.{RegisterResult, hostname}
use eth_node_operator.Reconciler.{
  Report, Managers, management_spec, vc_gateway_spec, reconcile_client, reconcile_mev,
  reconcile_firewall, reconcile_snapshot,
}

abbrev pub add_action : String → ReconcileResult → ReconcileResult
add_action action r = record r { actions = r.actions ++ action ∷ [] }

abbrev pub add_error : String → ReconcileResult → ReconcileResult
add_error e r = record r { errors = r.errors ++ e ∷ [] }

-- `if err != nil { …Errors… }` and then `…Actions = append(…, actions...)`
abbrev pub add_report : String → (List String × Option String) → ReconcileResult → ReconcileResult
add_report part (actions, none) r = record r { actions = r.actions ++ actions }
add_report part (actions, some e) r = record r {
  actions = r.actions ++ actions;
  errors = r.errors ++ (part <> ": " <> e) ∷ [];
}

-- `if action, err := …; err != nil { …Errors… } else if action != "" { …Actions… }`
abbrev pub add_outcome : String → Result String → ReconcileResult → ReconcileResult
add_outcome part (ok action) r = if not (action == "") then add_action action r else r
add_outcome part (err e) r = add_error (part <> ": " <> e) r

abbrev pub add_failure : String → Result (Unit {0}) → ReconcileResult → ReconcileResult
add_failure part (ok _) r = r
add_failure part (err e) r = add_error (part <> ": " <> e) r

-- The firewall step reports its success too.
abbrev pub add_firewall : Result (Unit {0}) → ReconcileResult → ReconcileResult
add_firewall (ok _) r = add_action "firewall: reconciled" r
add_firewall (err e) r = add_error ("firewall: " <> e) r

abbrev pub add_dns : Result RegisterResult → ReconcileResult → ReconcileResult
add_dns (ok d) r =
    if d.action == "UPSERT" then add_action ("dns: " <> d.hostname <> " → " <> d.ip) r else r
add_dns (err e) r = add_error ("dns: " <> e) r

-- An error of the observability stack hides what it had done.
abbrev pub add_obs : (List String × Option String) → ReconcileResult → ReconcileResult
add_obs (actions, none) r = record r { actions = r.actions ++ actions }
add_obs (actions, some e) r = add_error ("obs: " <> e) r

abbrev pub Step : Type 0 → Type 0
Step W = ReconcileResult × W → ReconcileResult × W

module _ {W : Type 0} (m : Managers W) (desired : NodeSpec) where
  -- 1. Disk
  unfoldable pub disk_step : Step W
  disk_step (r, w) = let (d, w') = m.disk desired.system.disk w in (add_report "disk" d r, w')

  -- 2. Snapshot restore
  unfoldable pub snapshot_step : Step W
  snapshot_step (r, w) =
      if desired.snapshot.enabled
      then (let (s, w') = reconcile_snapshot m desired w in (add_report "snapshot" s r, w'))
      else (r, w)

  -- 3. Firewall
  unfoldable pub firewall_step : Step W
  firewall_step (r, w) =
      if desired.network.firewall.provider == "ufw"
      then (let (f, w') = reconcile_firewall m desired.network.firewall w in (add_firewall f r, w'))
      else (r, w)

  -- 4. Route 53 DNS registration
  unfoldable pub dns_step : Step W
  dns_step (r, w) =
      if not (desired.network.route53.zone_id == "") && m.dns_configured w
      then (let name = hostname r.node_name desired.execution.client desired.network.route53.zone in
          let (d, w') =
            m.dns_register name desired.network.route53.zone_id desired.network.route53.ttl w in
          (add_dns d r, w'))
      else (r, w)

  -- 4b. Management addresses
  unfoldable pub management_step : Step W
  management_step (r, w) =
      if not (is_empty desired.network.management_cidrs)
      then (let (f, w') = reconcile_firewall m (management_spec desired) w in
          (add_failure "management-firewall" f r, w'))
      else (r, w)

  -- 4c. Validator-client gateways
  unfoldable pub vc_gateway_step : Step W
  vc_gateway_step (r, w) =
      if not (is_empty desired.network.vc_gateways)
      then (let (f, w') = reconcile_firewall m (vc_gateway_spec desired) w in
          (add_failure "vc-gateway-firewall" f r, w'))
      else (r, w)

  -- 5. and 6. Execution client, consensus client
  unfoldable pub client_step : String → String → ClientSpec → Step W
  client_step name part client (r, w) =
      let (c, w') = reconcile_client m name client w in (add_outcome part c r, w')

  -- 7. MEV-Boost
  unfoldable pub mev_step : Step W
  mev_step (r, w) =
      if desired.mev.enabled
      then (let (c, w') = reconcile_mev m desired.mev w in (add_outcome "mev" c r, w'))
      else (r, w)

  obs_report : Option (Report W) → Step W
  obs_report none (r, w) = (r, w)
  obs_report (some obs) (r, w) =
      if desired.observability.metrics.enabled
      then (let (o, w') = obs w in (add_obs o r, w'))
      else (r, w)

  -- 8. Observability stack
  unfoldable pub obs_step : Step W
  unfolding obs_report
  obs_step = obs_report m.obs

  -- The result starts empty: its node name is never set.
  abbrev pub no_result : ReconcileResult
  no_result = record { node_name = ""; actions = []; errors = [] }

  -- The pass up to the registration of the host name.
  unfoldable pub before_dns : W → ReconcileResult × W
  unfolding disk_step snapshot_step firewall_step
  before_dns w = firewall_step (snapshot_step (disk_step (no_result, w)))

  unfoldable pub reconcile : W → ReconcileResult × W
  unfolding before_dns dns_step management_step vc_gateway_step client_step mev_step obs_step
  reconcile w = obs_step (
      mev_step (
        client_step "consensus" "cl" desired.consensus (
          client_step "execution" "el" desired.execution
            (vc_gateway_step (management_step (dns_step (before_dns w)))))))

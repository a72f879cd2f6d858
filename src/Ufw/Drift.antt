-- ===== src/Ufw/Drift.antt =====
-- internal/ufw/manager.go: what `DriftCheck` and `buildRuleArgs` look at.
use eth_node_operator.Common.{
  String, ◌≡◌, ◌≢◌, refl, List, [], ◌∷◌, map, arith, eq_iff, map_result, Runner,
}
use eth_node_operator.Common.Text.{to_lower}
use eth_node_operator.Common.Int.{ℤ}
use eth_node_operator.Types.{FirewallRule, FirewallSpec}
use eth_node_operator.Ufw.{build_rule_args, missing_rules, drift_check}

abbrev pub ports : List FirewallRule → List ℤ
ports rules = map (λ r. r.port) rules

-- The arguments of an inbound rule with a source are the same whatever its action: a rule that
-- denies is applied as one that allows.
inbound_action_ignored :
    (rule : FirewallRule) (action : String)
    → to_lower rule.direction ≡ "inbound"
    → rule.source ≢ ""
    → build_rule_args (record rule { action = action }) ≡ build_rule_args rule
unfolding build_rule_args
inbound_action_ignored rule action d s =
    ground (arith, eq_iff (to_lower rule.direction) "inbound", eq_iff rule.source "")

missing_ports :
    (active : String) (xs ys : List FirewallRule)
    → ports xs ≡ ports ys
    → ports (missing_rules active xs) ≡ ports (missing_rules active ys)
unfolding missing_rules
missing_ports active [] [] h = refl
missing_ports active [] (y ∷ ys) h = cc
missing_ports active (x ∷ xs) [] h = cc
missing_ports active (x ∷ xs) (y ∷ ys) h = ground (arith, missing_ports active xs ys)

-- The drift check sees the ports of the rules and nothing else of them: two rule lists with the same ports
-- are found missing at the same ports, whatever their actions, sources and protocols, and so in
-- the same cases not at all.
drift_check-ports :
    {W : Type 0} (run : Runner W) (a b : FirewallSpec) (w : W)
    → ports a.rules ≡ ports b.rules
    → let (ra, wa) = drift_check run a w in
      let (rb, wb) = drift_check run b w in (map_result ports ra ≡ map_result ports rb) × (wa ≡ wb)
unfolding drift_check
drift_check-ports run a b w h =
    ground (arith, missing_ports ((run ("status" ∷ "verbose" ∷ []) w).0.0) a.rules b.rules h)

-- ===== src/Ufw/Tests.antt =====
-- internal/ufw/manager.go: the theorems on a small rule set.
use eth_node_operator.Common.{
  String, inl, inr, Bool-cases, ap, ◌≡◌, refl, Bool, true, false, none, List, [], ◌∷◌, ◌++◌, ok,
  Runner, recorded, if◌then◌else◌, ◌==◌, eq_iff,
}
use eth_node_operator.Common.Int.{pos}
use eth_node_operator.Common.Plan.{Command, is_ok}
use eth_node_operator.Common.Text.{contains, to_lower}
use eth_node_operator.Types.{FirewallRule, FirewallSpec}
use eth_node_operator.Ufw.{apply_rules, says_active}
use eth_node_operator.Ufw.Commands.{apply_rules-Ran, apply_plan}
use eth_node_operator.Ufw.Inactive.{UfwLaws, first_arg, is_action, apply_rules_inactive}

abbrev second_arg : List String → String
second_arg [] = ""
second_arg (arg ∷ args) = first_arg args

-- The world is whether the firewall is active.
abbrev ufw_sim : Runner Bool
ufw_sim args active = (
  ("Status: inactive", none),
  if first_arg args == "--force"
      then (if second_arg args == "reset" then false else true)
      else if first_arg args == "enable"
      then true
      else active,
)

rule_off :
    (command : String) (a b : Bool)
    → is_action command ≡ true
    → b ≡ false
    → (if command == "--force" then a else if command == "enable" then true else b) ≡ false
rule_off command a b h e = elim (Bool-cases (command == "--force")) [
  | inl x ↦ cc (h, ap is_action ((eq_iff command "--force").0 x))
  | inr x ↦ elim (Bool-cases (command == "enable")) [
    | inl y ↦ cc (h, ap is_action ((eq_iff command "enable").0 y))
    | inr y ↦ rw (x, y) e
  ]
]

ufw_sim-UfwLaws : UfwLaws ufw_sim (λ active. active)
ufw_sim-UfwLaws = record {
  reset_disables = λ w out h. refl;
  rules_keep_off = λ w args n h. rule_off (first_arg args) _ _ n h;
}

abbrev deny_ssh : FirewallRule
deny_ssh = record {
  description = "ssh";
  port = pos 22;
  proto = "tcp";
  direction = "inbound";
  source = "10.0.0.0/8";
  destination = "";
  action = "deny";
}

abbrev test_spec : FirewallSpec
test_spec = record { provider = "ufw"; policy = "deny"; rules = deny_ssh ∷ [] }

apply_rules_test : (apply_rules ufw_sim test_spec false) ≡ (ok tt, false)
unfolding apply_rules says_active contains to_lower
apply_rules_test = refl

apply_rules-Ran_example :
    let res = apply_rules (recorded ufw_sim) test_spec (false, []) in
    (rest : List Command) × (res.1.1 ++ rest
      ≡ apply_plan (says_active "Status: inactive") test_spec)
    × (is_ok res.0 ≡ true → rest ≡ [])
apply_rules-Ran_example = apply_rules-Ran ufw_sim test_spec false false "Status: inactive" refl

apply_rules_inactive_example : (apply_rules ufw_sim test_spec false).1 ≡ false
unfolding apply_rules says_active contains to_lower
apply_rules_inactive_example =
    apply_rules_inactive ufw_sim (λ active. active) ufw_sim-UfwLaws test_spec false
      (apply_rules ufw_sim test_spec false).1 (refl, _) refl

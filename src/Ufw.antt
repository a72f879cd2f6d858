-- ===== src/Ufw.antt =====
-- internal/ufw/manager.go: the firewall manager. Each method is a function of the `Runner` that runs
-- `ufw` with the given arguments.
mod Tests
mod Commands
mod Inactive
mod Drift
use eth_node_operator.Common.{
  String, ◌<>◌, Bool, not, ◌&&◌, List, [], ◌∷◌, if◌then◌else◌, ◌==◌, Action, pure, wrap, ◌>>=◌,
  ◌>>◌, Runner, exec,
}
use eth_node_operator.Common.Text.{to_lower, contains, split, trim_space}
use eth_node_operator.Common.Int.{show_int}
use eth_node_operator.Types.{FirewallRule, FirewallSpec}
use text.Mathlib.Text.{starts_with}

-- `fmt.Sprintf("%d/%s", rule.Port, rule.Proto)`
abbrev pub port_proto : FirewallRule → String
port_proto rule = show_int rule.port <> "/" <> rule.proto

unfoldable pub build_rule_args : FirewallRule → List String
build_rule_args rule =
    let direction = to_lower rule.direction in
    if direction == "inbound"
    then (if not (rule.source == "")
        then "allow"
          ∷ "from"
          ∷ rule.source
          ∷ "to"
          ∷ "any"
          ∷ "port"
          ∷ show_int rule.port
          ∷ "proto"
          ∷ rule.proto
          ∷ []
        else rule.action ∷ port_proto rule ∷ [])
    else if direction == "outbound"
    then (if not (rule.destination == "")
        then rule.action
          ∷ "out"
          ∷ "to"
          ∷ rule.destination
          ∷ "port"
          ∷ show_int rule.port
          ∷ "proto"
          ∷ rule.proto
          ∷ []
        else rule.action ∷ "out" ∷ port_proto rule ∷ [])
    else rule.action ∷ port_proto rule ∷ []

-- `%+v` of a rule
show_rule : FirewallRule → String
show_rule r =
    "{Description:"
    <> r.description
    <> " Port:"
    <> show_int r.port
    <> " Proto:"
    <> r.proto
    <> " Direction:"
    <> r.direction
    <> " Source:"
    <> r.source
    <> " Destination:"
    <> r.destination
    <> " Action:"
    <> r.action
    <> "}"

-- The test of `IsEnabled` on what `ufw status` prints.
unfoldable pub says_active : String → Bool
says_active out =
    let lower = to_lower out in contains lower "status: active" && not (contains lower "inactive")

unfoldable pub policy_action : String → String
policy_action policy = if policy == "allow-by-default" then "allow" else "deny"

-- The loop of `DriftCheck` over the desired rules, against what `ufw status verbose` printed.
unfoldable pub missing_rules : String → List FirewallRule → List FirewallRule
missing_rules active [] = []
missing_rules active (rule ∷ rules) =
    let rest = missing_rules active rules in
    if not (contains active (show_int rule.port)) then rule ∷ rest else rest

-- The loop of `ListRules` over the lines.
numbered_lines : List String → List String
numbered_lines [] = []
numbered_lines (line ∷ lines) =
    let rest = numbered_lines lines in
    if starts_with (trim_space line) "[" then trim_space line ∷ rest else rest

module _ {W : Type 0} (run : Runner W) where
  unfoldable pub status : Action W String
  status = wrap (λ e. "ufw status: " <> e) (exec run ("status" ∷ "verbose" ∷ []))

  unfoldable pub is_enabled : Action W Bool
  is_enabled = do
    out ← wrap (λ e. "ufw status: " <> e) (exec run ("status" ∷ []))
    pure (says_active out)

  force_enable : Action W Unit
  force_enable = do wrap (λ e. "ufw enable: " <> e) (exec run ("--force" ∷ "enable" ∷ [])); pure tt

  unfoldable pub enable : Action W Unit
  unfolding is_enabled force_enable
  enable = do enabled ← is_enabled; if enabled then pure tt else force_enable

  unfoldable pub set_default_policy : String → Action W Unit
  unfolding policy_action
  set_default_policy policy = do
    wrap (λ e. "ufw default " <> policy_action policy <> ": " <> e)
        (exec run ("default" ∷ policy_action policy ∷ "incoming" ∷ []))
    exec run ("default" ∷ "allow" ∷ "outgoing" ∷ [])
    pure tt

  unfoldable pub apply_rule : FirewallRule → Action W Unit
  unfolding build_rule_args show_rule
  apply_rule rule = do
    wrap (λ e. "apply ufw rule " <> show_rule rule <> ": " <> e) (exec run (build_rule_args rule))
    pure tt

  -- The loop over the rules: it stops at the first one that fails.
  unfoldable pub apply_each : List FirewallRule → Action W Unit
  unfolding apply_rule
  apply_each [] = pure tt
  apply_each (rule ∷ rules) = apply_rule rule >> apply_each rules

  unfoldable pub apply_rules : FirewallSpec → Action W Unit
  unfolding enable set_default_policy apply_each
  apply_rules spec = do
    enable
    set_default_policy spec.policy
    wrap (λ e. "ufw reset: " <> e) (exec run ("--force" ∷ "reset" ∷ []))
    apply_each spec.rules

  unfoldable pub delete_rule : FirewallRule → Action W Unit
  unfolding build_rule_args
  delete_rule rule = do
    wrap (λ e. "delete ufw rule: " <> e) (exec run ("delete" ∷ build_rule_args rule))
    pure tt

  unfoldable pub list_rules : Action W (List String)
  unfolding numbered_lines
  list_rules = do
    out ← wrap (λ e. "ufw status numbered: " <> e) (exec run ("status" ∷ "numbered" ∷ []))
    pure (numbered_lines (split out 10))

  unfoldable pub drift_check : FirewallSpec → Action W (List FirewallRule)
  unfolding status missing_rules
  drift_check spec = do active ← status; pure (missing_rules active spec.rules)

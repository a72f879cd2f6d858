-- ===== src/Ufw/Commands.antt =====
-- internal/ufw/manager.go: which commands `ApplyRules` runs, in which order, and where it stops.
use eth_node_operator.Common.{
  String, ◌<>◌, none, ◌≡◌, refl, Bool, true, false, List, [], ◌∷◌, ◌++◌, map, wrap, ◌>>◌, Runner,
  exec, recorded,
}
use eth_node_operator.Common.Plan.{
  Command, is_ok, Ran, Follows, Follows-pure, Follows-wrap, Follows-exec, Follows-bind,
  Ran-continue,
}
use eth_node_operator.Types.{FirewallRule, FirewallSpec}
use eth_node_operator.Ufw.{
  build_rule_args, policy_action, says_active, enable, set_default_policy, apply_rule, apply_each,
  apply_rules,
}

-- The commands that apply a rule set, given whether the firewall is active at the start.
pub enable_plan : Bool → List Command
enable_plan true = ("status" ∷ []) ∷ []
enable_plan false = ("status" ∷ []) ∷ ("--force" ∷ "enable" ∷ []) ∷ []

abbrev pub policy_plan : String → List Command
policy_plan policy =
    ("default" ∷ policy_action policy ∷ "incoming" ∷ [])
    ∷ ("default" ∷ "allow" ∷ "outgoing" ∷ [])
    ∷ []

pub apply_plan : Bool → FirewallSpec → List Command
unfolding enable_plan
apply_plan active spec =
    enable_plan active
    ++ (policy_plan spec.policy ++ (("--force" ∷ "reset" ∷ []) ∷ map build_rule_args spec.rules))

module _ {W : Type 0} (run : Runner W) where
  policy-Follows :
      (policy : String) → Follows (policy_plan policy) (set_default_policy (recorded run) policy)
  unfolding set_default_policy
  policy-Follows policy =
      Follows-bind _ _ _ _ (Follows-wrap _ _ _ (Follows-exec run _))
        (λ _. Follows-bind _ _ _ _ (Follows-exec run _) (λ _. Follows-pure tt))

  rule-Follows :
      (rule : FirewallRule) → Follows (build_rule_args rule ∷ []) (apply_rule (recorded run) rule)
  unfolding apply_rule
  rule-Follows rule =
      Follows-bind _ _ _ _ (Follows-wrap _ _ _ (Follows-exec run _)) (λ _. Follows-pure tt)

  rules-Follows :
      (rules : List FirewallRule)
      → Follows (map build_rule_args rules) (apply_each (recorded run) rules)
  unfolding apply_each
  rules-Follows [] = Follows-pure tt
  rules-Follows (rule ∷ rules) = Follows-bind _ _ _ _ (rule-Follows rule) (λ _. rules-Follows rules)

  after_enable-Follows :
      (spec : FirewallSpec)
      → Follows
          (policy_plan spec.policy ++ (("--force" ∷ "reset" ∷ []) ∷ map build_rule_args spec.rules))
          (do
            set_default_policy (recorded run) spec.policy
            wrap (λ e. "ufw reset: " <> e) (exec (recorded run) ("--force" ∷ "reset" ∷ []))
            apply_each (recorded run) spec.rules)
  after_enable-Follows spec = Follows-bind _ _ _ _ (policy-Follows spec.policy) (λ _.
      Follows-bind _ _ _ _ (Follows-wrap _ _ _ (Follows-exec run _))
        (λ _. rules-Follows spec.rules))

  enable-Ran :
      (w w1 : W) (out : String) (active : Bool)
      → run ("status" ∷ []) w ≡ ((out, none), w1)
      → says_active out ≡ active
      → let res = enable (recorded run) (w, []) in Ran (is_ok res.0) [] (enable_plan active) res.1.1
  unfolding enable enable_plan
  enable-Ran w w1 out true h a = rw (h, a) ([], refl, λ _. refl)
  enable-Ran w w1 out false h a =
      rw (h, a)
        ((Follows-bind _ _ _ _ (Follows-wrap _ _ _ (Follows-exec run _)) (λ _. Follows-pure tt)).at
          w1 (("status" ∷ []) ∷ []))

  -- Once `ufw status` has answered, `ApplyRules` runs the commands of its plan in order: all of them if it
  -- succeeds, an initial part if it fails. The plan enables the firewall where the answer does not say that
  -- it is active, then sets the two default policies, resets, and adds each rule of the list.
  pub apply_rules-Ran :
      (spec : FirewallSpec) (w w1 : W) (out : String)
      → run ("status" ∷ []) w ≡ ((out, none), w1)
      → let res = apply_rules (recorded run) spec (w, []) in
        (rest : List Command) × (res.1.1 ++ rest ≡ apply_plan (says_active out) spec)
        × (is_ok res.0 ≡ true → rest ≡ [])
  unfolding apply_rules apply_plan
  apply_rules-Ran spec w w1 out h =
      let res = enable (recorded run) (w, []) in
      Ran-continue _ _ _ res.0 res.1.0 [] res.1.1 (enable-Ran w w1 out (says_active out) h refl)
        (λ _. after_enable-Follows spec)

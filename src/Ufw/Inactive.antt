-- ===== src/Ufw/Inactive.antt =====
-- internal/ufw/manager.go: the state that `ApplyRules` leaves the firewall in. `ufw` itself is not
-- part of the program; what its manual says of `reset` is a hypothesis.
use eth_node_operator.Common.{
  String, ◌≡◌, refl, ◌<>◌, ◌⊎◌, inl, inr, Bool, true, false, ◌||◌, ◌==◌, List, [], ◌∷◌, arith,
  Result, ok, err, wrap, map_err, to_result, >>=-eq-ok, Runner, exec, subst, All,
}
use eth_node_operator.Types.{FirewallRule, FirewallSpec}
use eth_node_operator.Ufw.{
  build_rule_args, enable, set_default_policy, apply_rule, apply_each, apply_rules,
}

abbrev pub first_arg : List String → String
first_arg [] = ""
first_arg (arg ∷ args) = arg

-- The actions of the rules of `ufw`.
abbrev pub is_action : String → Bool
is_action action = action == "allow" || action == "deny" || action == "reject" || action == "limit"

-- The manual of `ufw`: `reset` disables the firewall, and a command that adds a rule does not enable it, whether it is
-- accepted or not. (`enable` does, with `--force` or without.)
pub record UfwLaws {W : Type 0} (run : Runner W) (active : W → Bool) : Type 0 where
  pub reset_disables :
      (w : W) (out : String)
      → to_result (run ("--force" ∷ "reset" ∷ []) w).0 ≡ ok out
      → active (run ("--force" ∷ "reset" ∷ []) w).1 ≡ false
  pub rules_keep_off :
      (w : W) (args : List String)
      → is_action (first_arg args) ≡ true
      → active w ≡ false
      → active (run args w).1 ≡ false

first_arg_cases :
    (rule : FirewallRule)
    → (first_arg (build_rule_args rule) ≡ "allow")
      ⊎ (first_arg (build_rule_args rule) ≡ rule.action)
unfolding build_rule_args
first_arg_cases rule = ground arith

first_arg-build_rule_args :
    (rule : FirewallRule)
    → is_action rule.action ≡ true
    → is_action (first_arg (build_rule_args rule)) ≡ true
first_arg-build_rule_args rule h = elim (first_arg_cases rule) [
  | inl e ↦ rw e refl
  | inr e ↦ rw e h
]

module _ {W : Type 0} (run : Runner W) (active : W → Bool) (laws : UfwLaws run active) where
  rule_keeps :
      (rule : FirewallRule) (w : W)
      → is_action rule.action ≡ true
      → active w ≡ false
      → active (apply_rule run rule w).1 ≡ false
  unfolding apply_rule
  rule_keeps rule w h a =
      ground
        (arith, laws.rules_keep_off w (build_rule_args rule) (first_arg-build_rule_args rule h) a)

  rules_keep :
      (rules : List FirewallRule) (w : W)
      → All (λ r. is_action r.action ≡ true) rules
      → active w ≡ false
      → active (apply_each run rules w).1 ≡ false
  unfolding apply_each
  rules_keep [] w h a = a
  rules_keep (rule ∷ rules) w (h, hs) a =
      ground (arith, rule_keeps rule w h a, rules_keep rules (apply_rule run rule w).1 hs)

  ok_of_map_err :
      {A : Type 0} (f : String → String) (r : Result A) {a : A} → map_err f r ≡ ok a → r ≡ ok a
  ok_of_map_err f (ok a) h = h
  ok_of_map_err f (err e) h = cc

  -- When `ApplyRules` succeeds, the firewall is not active, if each rule of the specification has one of the actions of `ufw`:
  -- `allow`, `deny`, `reject` or `limit`.
  pub apply_rules_inactive :
      (spec : FirewallSpec) (w w' : W)
      → All (λ r. is_action r.action ≡ true) spec.rules
      → apply_rules run spec w ≡ (ok tt, w')
      → active w' ≡ false
  unfolding apply_rules
  apply_rules_inactive spec w w' h e =
      let (_, _, e1) = >>=-eq-ok (enable run) _ w e in
      let (_, _, e2) = >>=-eq-ok (set_default_policy run spec.policy) _ (enable run w).1 e1 in
      let w2 = (set_default_policy run spec.policy (enable run w).1).1 in
      let (out, reset, e3) =
        >>=-eq-ok (wrap (λ x. "ufw reset: " <> x) (exec run ("--force" ∷ "reset" ∷ [])))
          (λ _. apply_each run spec.rules) w2 e2 in
      let off = laws.reset_disables w2 out (ok_of_map_err (λ x. "ufw reset: " <> x) _ reset) in
      let kept = rules_keep spec.rules (run ("--force" ∷ "reset" ∷ []) w2).1 h off in
      subst (λ (r : Result Unit × W). active r.1 ≡ false) e3 kept

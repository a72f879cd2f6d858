-- ===== src/Profiles/Spec/Folding.antt =====
-- pkg/profile/merger.go: what the merge of a list of states, one over the other, comes to.
use eth_node_operator.Common.{
  String, Bool, true, false, ◌||◌, Option, none, some, List, [], ◌∷◌, ◌++◌, map, if◌then◌else◌,
  eq_iff, ◌≡◌, refl, sym, ap, arith, ◌∙◌, All,
}
use eth_node_operator.Common.Dict.{Dict, lookup, lookup-insert_all, or_else, NodupKeys}
use eth_node_operator.Types.{NodeSpec, Profile}
use eth_node_operator.Profiles.Indexed.{find_last, find_last-merge_by}
use eth_node_operator.Profiles.Spec.{or_text, merge_specs, rule_key}

-- The states of the named profiles, if all are there.
abbrev pub profile_specs : Dict Profile → List String → Option (List NodeSpec)
profile_specs profiles [] = some []
profile_specs profiles (name ∷ names) = elim (lookup name profiles) [
  | none ↦ none
  | some p ↦ elim (profile_specs profiles names) [
    | none ↦ none
    | some specs ↦ some (p.spec ∷ specs)
  ]
]

-- The last text that is not empty.
abbrev pub last_text : List String → String
last_text [] = ""
last_text (x ∷ xs) = or_text x (last_text xs)

-- The last value that is there.
abbrev pub last_some {ℓ} : {A : Type ℓ} → List (Option A) → Option A
last_some [] = none
last_some (o ∷ os) = or_else (last_some os) o

abbrev pub any : List Bool → Bool
any [] = false
any (b ∷ bs) = b || any bs

abbrev pub concat {ℓ} : {A : Type ℓ} → List (List A) → List A
concat [] = []
concat (xs ∷ xss) = xs ++ concat xss

-- The flags of both clients are maps.
pub record HasMaps (s : NodeSpec) : Type 0 where
  pub el : NodupKeys s.execution.flags
  pub cl : NodupKeys s.consensus.flags

-- What a merge of the states over `base` comes to.
pub record Merged (base : NodeSpec) (specs : List NodeSpec) (s : NodeSpec) : Type 0 where
  el_image :
      s.execution.image
      ≡ or_text base.execution.image (last_text (map (λ x. x.execution.image) specs))
  cl_image :
      s.consensus.image
      ≡ or_text base.consensus.image (last_text (map (λ x. x.consensus.image) specs))
  schedule :
      s.maintenance.window.schedule
      ≡ or_text base.maintenance.window.schedule
          (last_text (map (λ x. x.maintenance.window.schedule) specs))
  el_flags :
      (k : String)
      → lookup k s.execution.flags
        ≡ or_else
            (last_some (map (λ x. lookup k x.execution.flags) specs))
            (lookup k base.execution.flags)
  cl_flags :
      (k : String)
      → lookup k s.consensus.flags
        ≡ or_else
            (last_some (map (λ x. lookup k x.consensus.flags) specs))
            (lookup k base.consensus.flags)
  packages :
      (k : String)
      → find_last (λ p. p.name) k s.system.packages
        ≡ or_else
            (last_some (map (λ x. find_last (λ p. p.name) k x.system.packages) specs))
            (find_last (λ p. p.name) k base.system.packages)
  rules :
      (k : String)
      → find_last rule_key k s.network.firewall.rules
        ≡ or_else
            (last_some (map (λ x. find_last rule_key k x.network.firewall.rules) specs))
            (find_last rule_key k base.network.firewall.rules)
  gateways :
      s.network.vc_gateways
      ≡ base.network.vc_gateways ++ concat (map (λ x. x.network.vc_gateways) specs)
  mev : s.mev.enabled ≡ base.mev.enabled || any (map (λ x. x.mev.enabled) specs)

abbrev pub fold_specs : NodeSpec → List NodeSpec → NodeSpec
fold_specs base [] = base
fold_specs base (x ∷ xs) = fold_specs (merge_specs base x) xs

or_text_assoc : (a b c : String) → or_text (or_text a b) c ≡ or_text a (or_text b c)
or_text_assoc a b c = ground (arith, eq_iff b "", eq_iff c "")

or_else_assoc {ℓ} :
    {A : Type ℓ} (a b c : Option A) → or_else a (or_else b c) ≡ or_else (or_else a b) c
or_else_assoc a b c = ground arith

or_else_step {ℓ} :
    {A : Type ℓ} (last a b : Option A) {o : Option A}
    → o ≡ or_else b a
    → or_else last o ≡ or_else (or_else last b) a
or_else_step last a b h = ap (or_else last) h ∙ or_else_assoc last b a

or_true : (b c d : Bool) → ((if c then true else b) || d) ≡ (b || (c || d))
or_true b c d = ground arith

append_assoc {ℓ} : {A : Type ℓ} (a b c : List A) → (a ++ b) ++ c ≡ a ++ (b ++ c)
append_assoc [] b c = refl
append_assoc (x ∷ a) b c = rw (append_assoc a b c)

append_nil {ℓ} : {A : Type ℓ} (a : List A) → a ++ [] ≡ a
append_nil [] = refl
append_nil (x ∷ a) = rw (append_nil a)

merge_specs-Merged :
    (base x : NodeSpec) (xs : List NodeSpec) (s : NodeSpec)
    → HasMaps x
    → Merged (merge_specs base x) xs s
    → Merged base (x ∷ xs) s
unfolding merge_specs
merge_specs-Merged base x xs s h m = record {
  el_image =
      m.el_image
      ∙ or_text_assoc base.execution.image x.execution.image
          (last_text (map (λ x. x.execution.image) xs));
  cl_image =
      m.cl_image
      ∙ or_text_assoc base.consensus.image x.consensus.image
          (last_text (map (λ x. x.consensus.image) xs));
  schedule =
      m.schedule
      ∙ or_text_assoc base.maintenance.window.schedule x.maintenance.window.schedule
          (last_text (map (λ x. x.maintenance.window.schedule) xs));
  el_flags = λ k.
      m.el_flags k
      ∙ or_else_step (last_some (map (λ x. lookup k x.execution.flags) xs))
          (lookup k base.execution.flags) (lookup k x.execution.flags)
          (lookup-insert_all base.execution.flags x.execution.flags k h.el);
  cl_flags = λ k.
      m.cl_flags k
      ∙ or_else_step (last_some (map (λ x. lookup k x.consensus.flags) xs))
          (lookup k base.consensus.flags) (lookup k x.consensus.flags)
          (lookup-insert_all base.consensus.flags x.consensus.flags k h.cl);
  packages = λ k.
      m.packages k
      ∙ or_else_step (last_some (map (λ x. find_last (λ p. p.name) k x.system.packages) xs))
          (find_last (λ p. p.name) k base.system.packages)
          (find_last (λ p. p.name) k x.system.packages)
          (find_last-merge_by (λ p. p.name) base.system.packages x.system.packages k);
  rules = λ k.
      m.rules k
      ∙ or_else_step (last_some (map (λ x. find_last rule_key k x.network.firewall.rules) xs))
          (find_last rule_key k base.network.firewall.rules)
          (find_last rule_key k x.network.firewall.rules)
          (find_last-merge_by rule_key base.network.firewall.rules x.network.firewall.rules k);
  gateways =
      m.gateways
      ∙ append_assoc base.network.vc_gateways x.network.vc_gateways
          (concat (map (λ x. x.network.vc_gateways) xs));
  mev = m.mev ∙ or_true base.mev.enabled x.mev.enabled (any (map (λ x. x.mev.enabled) xs));
}

or_text_nil : (a : String) → or_text a "" ≡ a
or_text_nil a = ground arith

or_false : (b : Bool) → b ≡ (b || false)
or_false b = ground arith

nil-Merged : (base : NodeSpec) → Merged base [] base
nil-Merged base = record {
  el_image = refl;
  cl_image = refl;
  schedule = refl;
  el_flags = λ k. refl;
  cl_flags = λ k. refl;
  packages = λ k. refl;
  rules = λ k. refl;
  gateways = sym (append_nil base.network.vc_gateways);
  mev = or_false base.mev.enabled;
}

pub fold_specs-Merged :
    (specs : List NodeSpec) (base : NodeSpec)
    → All HasMaps specs
    → Merged base specs (fold_specs base specs)
fold_specs-Merged [] base h = nil-Merged base
fold_specs-Merged (x ∷ xs) base h =
    merge_specs-Merged base x xs (fold_specs (merge_specs base x) xs) h.0
      (fold_specs-Merged xs (merge_specs base x) h.1)

pub fold_specs-append :
    (base : NodeSpec) (specs : List NodeSpec) (x : NodeSpec)
    → fold_specs base (specs ++ x ∷ []) ≡ merge_specs (fold_specs base specs) x
fold_specs-append base [] x = refl
fold_specs-append base (y ∷ specs) x = fold_specs-append (merge_specs base y) specs x

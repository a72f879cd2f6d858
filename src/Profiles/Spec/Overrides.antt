-- ===== src/Profiles/Spec/Overrides.antt =====
-- pkg/profile/merger.go: what `Merge` makes of a node's own state and of its profiles, and its error.
use eth_node_operator.Common.{
  String, ◌<>◌, true, Option, none, some, List, [], ◌∷◌, ◌++◌, eq_iff, ◌≡◌, refl, sym, ap, arith,
  ◌∙◌, Result, ok, err, All, All-append, Option-cases, ◌⊎◌, inl, inr,
}
use eth_node_operator.Common.Dict.{Dict, lookup}
use eth_node_operator.Types.{NodeSpec, Profile, empty_spec}
use eth_node_operator.Profiles.Indexed.{has_key}
use eth_node_operator.Profiles.Spec.{merge_specs, merge_profiles, merge}
use eth_node_operator.Profiles.Spec.Folding.{
  profile_specs, HasMaps, Merged, fold_specs, fold_specs-Merged, fold_specs-append,
}

some-inj {ℓ} : {A : Type ℓ} {a b : A} → some a ≡ some b → a ≡ b
some-inj h = cc

pub Result-cases {ℓ} :
    {A : Type ℓ} (r : Result A) → ((a : A) × (r ≡ ok a)) ⊎ ((e : String) × (r ≡ err e))
Result-cases (ok a) = inl (a, refl)
Result-cases (err e) = inr (e, refl)

merge_profiles_lem :
    (profiles : Dict Profile) (names : List String) (base : NodeSpec) (specs : List NodeSpec)
    → profile_specs profiles names ≡ some specs
    → merge_profiles profiles names base ≡ ok (fold_specs base specs)
merge_profiles_lem profiles [] base specs h =
    ground (arith, ap (fold_specs base) {x = []} {y = specs})
merge_profiles_lem profiles (name ∷ names) base specs h =
    elim (Option-cases (lookup name profiles)) [
      | inl e ↦ cc (rw (e, profile_specs) at h)
      | inr (p, e) ↦
          rw (e, merge_profiles)
            (elim (Option-cases (profile_specs profiles names)) [
              | inl e1 ↦ cc (rw e1 at (rw (e, profile_specs) at h))
              | inr (rest, e1) ↦
                  merge_profiles_lem profiles names (merge_specs base p.spec) rest e1
                  ∙ ap (λ xs. ok (fold_specs base xs))
                      (some-inj (rw e1 at (rw (e, profile_specs) at h)))
            ])
    ]

pub merge-ok :
    (profiles : Dict Profile) (names : List String) (node base : NodeSpec)
    → merge_profiles profiles names empty_spec ≡ ok base
    → merge profiles names node ≡ ok (merge_specs base node)
merge-ok profiles names node base h = rw (h, merge) refl

pub merge-err :
    (profiles : Dict Profile) (names : List String) (node : NodeSpec) (e : String)
    → merge_profiles profiles names empty_spec ≡ err e
    → merge profiles names node ≡ err e
merge-err profiles names node e h = rw (h, merge) refl

-- If all named profiles exist, `Merge` returns their merge in the order of their names, with the node's own
-- state at the end. In it the image of each client and the maintenance schedule are the last that are not empty; a flag of a
-- client has the last value that it is given; a package and a firewall rule are the last under their key; the gateways
-- are all those of the profiles and the node in their order; and MEV is enabled if any of the profiles or the node enables
-- it, so a node that says it is not enabled does not win over a profile that enables it.
pub merge-Merged :
    (profiles : Dict Profile) (names : List String) (node : NodeSpec) (specs : List NodeSpec)
    → profile_specs profiles names ≡ some specs
    → All HasMaps specs
    → HasMaps node
    → (s : NodeSpec) × (merge profiles names node ≡ ok s) × Merged empty_spec (specs ++ node ∷ []) s
merge-Merged profiles names node specs h maps m = (
  fold_specs empty_spec (specs ++ node ∷ []),
  merge-ok profiles names node (fold_specs empty_spec specs)
        (merge_profiles_lem profiles names empty_spec specs h)
      ∙ ap ok (sym (fold_specs-append empty_spec specs node)),
  fold_specs-Merged (specs ++ node ∷ []) empty_spec
      (All-append HasMaps specs (node ∷ []) maps (m, _)),
)

specs_rest :
    (o : Option (List NodeSpec)) (x : NodeSpec)
    → elim o [ none ↦ none | some specs ↦ some (x ∷ specs) ] ≡ none
    → o ≡ none
specs_rest none x h = refl
specs_rest (some specs) x h = cc

merge_profiles-missing :
    (profiles : Dict Profile) (names : List String) (base : NodeSpec)
    → profile_specs profiles names ≡ none
    → (name : String) × (has_key name names ≡ true)
      × (lookup name profiles ≡ none)
      × (merge_profiles profiles names base ≡ err ("profile \"" <> name <> "\" not found"))
merge_profiles-missing profiles [] base h = cc
merge_profiles-missing profiles (name ∷ names) base h = elim (Option-cases (lookup name profiles)) [
  | inl e ↦ (name, ground (arith, eq_iff name name), e, rw (e, merge_profiles) refl)
  | inr (p, e) ↦
      let (other, is_named, fresh, failed) =
        merge_profiles-missing profiles names (merge_specs base p.spec)
          (specs_rest (profile_specs profiles names) p.spec (rw (e, profile_specs) at h)) in
      (other, ground (arith, eq_iff name other), fresh, rw (e, merge_profiles) failed)
]

-- If a named profile does not exist, `Merge` fails, and its error names such a profile.
pub merge-missing :
    (profiles : Dict Profile) (names : List String) (node : NodeSpec)
    → profile_specs profiles names ≡ none
    → (name : String) × (has_key name names ≡ true)
      × (lookup name profiles ≡ none)
      × (merge profiles names node ≡ err ("profile \"" <> name <> "\" not found"))
merge-missing profiles names node h =
    let (name, is_named, fresh, e) = merge_profiles-missing profiles names empty_spec h in
    (
      name,
      is_named,
      fresh,
      merge-err profiles names node ("profile \"" <> name <> "\" not found") e,
    )

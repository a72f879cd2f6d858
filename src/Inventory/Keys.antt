-- ===== src/Inventory/Keys.antt =====
-- pkg/profile/merger.go: the map of profiles that the loader makes.
use eth_node_operator.Common.{
  String, ◌<>◌, Bool, true, false, Option, none, some, List, [], ◌∷◌, ◌==◌, eq_iff, ◌≡◌, ◌≢◌, refl,
  subst, ap, All, arith, Result, ok, err, ok-inj, if◌then◌else◌,
}
use eth_node_operator.Common.Dict.{Dict, lookup, insert, lookup-insert}
use eth_node_operator.Types.{Profile}
use eth_node_operator.Inventory.Files.{
  Entry, is_skipped, load_file, add_profile, load_entry, end_of_walk, load,
}

-- Each profile stands under its own name, which is not empty.
pub record IsKeyed (profiles : Dict Profile) : Type 0 where
  pub keyed : (k : String) (p : Profile) → lookup k profiles ≡ some p → (p.name ≡ k) × (k ≢ "")

insert-IsKeyed :
    (p : Profile) (profiles : Dict Profile)
    → p.name ≢ ""
    → IsKeyed profiles
    → IsKeyed (insert p.name p profiles)
insert-IsKeyed p profiles fresh x = record {
  keyed = λ k q h. ground (arith, lookup-insert p.name k p profiles, eq_iff p.name k, x.keyed k q);
}

module _ (path : String) (p : Profile) (profiles more : Dict Profile) where
  add_profile-cases :
      (is_nameless : Bool) (o : Option Profile)
      → (if is_nameless then err ("profile " <> path <> " has no name field") else elim o [
        | some q ↦ err ("duplicate profile name \"" <> p.name <> "\" (found in " <> path <> ")")
        | none ↦ ok (insert p.name p profiles)
      ])
        ≡ ok more
      → (is_nameless ≡ false) × (o ≡ none) × (insert p.name p profiles ≡ more)
  add_profile-cases true o h = cc
  add_profile-cases false none h = (refl, refl, ok-inj h)
  add_profile-cases false (some q) h = cc

  add_profile-ok :
      add_profile path p profiles ≡ ok more
      → (p.name ≢ "") × (lookup p.name profiles ≡ none) × (insert p.name p profiles ≡ more)
  add_profile-ok h =
      let (named, fresh, e) = add_profile-cases (p.name == "") (lookup p.name profiles) h in
      (ground (arith, eq_iff p.name ""), fresh, e)

load_entry-ok :
    (e : Entry) (r : Result Profile) (profiles more : Dict Profile)
    → elim r [ err x ↦ err x | ok p ↦ add_profile e.path p profiles ] ≡ ok more
    → (p : Profile) × (r ≡ ok p) × (add_profile e.path p profiles ≡ ok more)
load_entry-ok e (ok p) profiles more h = (p, refl, h)
load_entry-ok e (err x) profiles more h = cc

module _ (unmarshal : String → Result Profile) where
  -- The profile of the file is in the map.
  pub record IsLoaded (profiles : Dict Profile) (e : Entry) : Type 0 where
    pub is_loaded :
        is_skipped e ≡ false
        → (p : Profile) × (load_file "profile" unmarshal e ≡ ok p)
          × (lookup p.name profiles ≡ some p)

module _ (unmarshal : String → Result Profile) (failed : Option String) where
  -- What the walk makes of the map.
  record Loads (before : Dict Profile) (es : List Entry) (after : Dict Profile) : Type 0 where
    keyed : IsKeyed before → IsKeyed after
    keeps : (k : String) (p : Profile) → lookup k before ≡ some p → lookup k after ≡ some p
    loaded : All (IsLoaded unmarshal after) es
    complete : failed ≡ none

  load-next :
      (e : Entry) (es : List Entry) (r : Result (Dict Profile)) {after : Dict Profile}
      → elim r [ err x ↦ err x | ok more ↦ load unmarshal failed es more ] ≡ ok after
      → (more : Dict Profile) × (r ≡ ok more) × (load unmarshal failed es more ≡ ok after)
  load-next e es (ok more) h = (more, refl, h)
  load-next e es (err x) h = cc

  entry-Loads :
      (e : Entry) (es : List Entry) (p : Profile) (before more after : Dict Profile)
      → load_file "profile" unmarshal e ≡ ok p
      → add_profile e.path p before ≡ ok more
      → Loads more es after
      → Loads before (e ∷ es) after
  entry-Loads e es p before more after f h x =
      let (named, fresh, i) = add_profile-ok e.path p before more h in
      record {
        keyed = λ k. x.keyed (subst IsKeyed i (insert-IsKeyed p before named k));
        keeps = λ k q l. x.keeps k q (subst (λ m. lookup k m ≡ some q) i (kept named fresh k q l));
        loaded = (
          record {
            is_loaded =
                λ u. (p, f, x.keeps p.name p (subst (λ m. lookup p.name m ≡ some p) i at_name));
          },
          x.loaded,
        );
        complete = x.complete;
      }
    where
      kept :
          p.name ≢ ""
          → lookup p.name before ≡ none
          → (k : String) (q : Profile) → lookup k before ≡ some q
          → lookup k (insert p.name p before) ≡ some q
      kept named fresh k q l = ground (
        arith,
        lookup-insert p.name k p before,
        eq_iff p.name k,
        ap (λ (j : String). lookup j before) {x = p.name} {y = k},
      )

      at_name : lookup p.name (insert p.name p before) ≡ some p
      at_name = ground (arith, lookup-insert p.name p.name p before, eq_iff p.name p.name)

  skipped-Loads :
      (e : Entry) (es : List Entry) (before after : Dict Profile)
      → is_skipped e ≡ true
      → Loads before es after
      → Loads before (e ∷ es) after
  skipped-Loads e es before after s x = record {
    keyed = x.keyed;
    keeps = x.keeps;
    loaded = (record { is_loaded = λ u. absurd (cc (s, u)) }, x.loaded);
    complete = x.complete;
  }

  cons-Loads :
      (e : Entry) (es : List Entry) (before after : Dict Profile) (skipped : Bool)
      → is_skipped e ≡ skipped
      → ((more : Dict Profile) → load unmarshal failed es more ≡ ok after → Loads more es after)
      → (if skipped then load unmarshal failed es before else elim (load_entry unmarshal e before) [
        | err x ↦ err x
        | ok more ↦ load unmarshal failed es more
      ])
        ≡ ok after
      → Loads before (e ∷ es) after
  cons-Loads e es before after true s k h = skipped-Loads e es before after s (k before h)
  cons-Loads e es before after false s k h =
      let (more, r, l) = load-next e es (load_entry unmarshal e before) h in
      let (p, f, a) = load_entry-ok e (load_file "profile" unmarshal e) before more r in
      entry-Loads e es p before more after f a (k more l)

  end-Loads :
      (o : Option String) (before after : Dict Profile)
      → failed ≡ o
      → end_of_walk o before ≡ ok after
      → Loads before [] after
  end-Loads none before after f h = record {
    keyed = λ k. subst IsKeyed (ok-inj h) k;
    keeps = λ k p l. subst (λ m. lookup k m ≡ some p) (ok-inj h) l;
    loaded = _;
    complete = f;
  }
  end-Loads (some e) before after f h = cc

  load-Loads :
      (es : List Entry) (before after : Dict Profile)
      → load unmarshal failed es before ≡ ok after
      → Loads before es after
  unfolding load
  load-Loads [] before after h = end-Loads failed before after refl h
  load-Loads (e ∷ es) before after h =
      cons-Loads e es before after (is_skipped e) refl (λ more. load-Loads es more after) h

nil-IsKeyed : IsKeyed []
unfolding lookup
nil-IsKeyed = record { keyed = λ k p l. absurd (cc l) }

-- When the loader of profiles succeeds, the walk of its directory passed in no error, each profile of its map stands under its own name, which is not empty, and the
-- profile of each file that it does not skip is in the map: none is lost to another of the same name.
pub load-IsLoaded :
    (unmarshal : String → Result Profile) (failed : Option String) (entries : List Entry)
    (profiles : Dict Profile)
    → load unmarshal failed entries [] ≡ ok profiles
    → (failed ≡ none) × IsKeyed profiles × All (IsLoaded unmarshal profiles) entries
load-IsLoaded unmarshal failed entries profiles h =
    let x = load-Loads unmarshal failed entries [] profiles h in
    (x.complete, x.keyed nil-IsKeyed, x.loaded)

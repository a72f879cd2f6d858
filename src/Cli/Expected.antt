-- ===== src/Cli/Expected.antt =====
-- cli/commands/commands.go: the host names that `ethctl dns` expects, and what its audit makes of them.
use eth_node_operator.Common.{
  String, ◌≡◌, ◌≢◌, refl, subst, sym, ap, Bool, true, false, ◌||◌, List, [], ◌∷◌, ◌++◌, All,
  if◌then◌else◌, eq_iff, eq_refl, Bool-cases, inl, inr, ◌⊎◌, Result, ok, err, continue, Runner,
  arith,
}
use eth_node_operator.Types.{Cluster, ClusterNode}
use eth_node_operator.Dns.{hostname}
use eth_node_operator.Dns.Records.{ZoneRecord}
use eth_node_operator.Dns.Zone.{AwsRecord, list_zone_records, audit, stale_of, is_expected}
use eth_node_operator.Cli.Dns.{names_of_clusters, names_of_cluster, expected_name}

-- What is stale is not expected.
pub stale_of-All :
    (expected : List String) (records : List ZoneRecord)
    → All (λ r. is_expected expected r.hostname ≡ false) (stale_of expected records)
unfolding stale_of
stale_of-All expected [] = tt
stale_of-All expected (r ∷ rs) = elim (Bool-cases (is_expected expected r.hostname)) [
  | inl known ↦ rw known (stale_of-All expected rs)
  | inr stale ↦ rw stale (stale, stale_of-All expected rs)
]

is_expected-append :
    (xs ys : List String) (s : String)
    → is_expected (xs ++ ys) s ≡ (is_expected xs s || is_expected ys s)
is_expected-append [] ys s = refl
is_expected-append (x ∷ xs) ys s = ground (arith, is_expected-append xs ys s)

-- One of a list.
abbrev pub Among : {A : Type 0} → A → List A → Type 0
Among a [] = ⊥
Among a (x ∷ xs) = (x ≡ a) ⊎ Among a xs

-- A node that counts for the names: it is not disabled, and its own entry names its execution client.
pub record IsActive (n : ClusterNode) : Type 0 where
  pub enabled : n.disabled ≡ false
  pub named : n.spec.execution.client ≢ ""

expected_name-own :
    (name client zone : String) (rest : List String)
    → client ≢ ""
    → is_expected (expected_name name client zone rest) (hostname name client zone) ≡ true
expected_name-own name client zone rest n =
    ground (arith, eq_iff client "", eq_refl (hostname name client zone))

kept_name :
    (b : Bool) (name client zone : String) (rest : List String) (s : String)
    → is_expected rest s ≡ true
    → is_expected (if b then rest else expected_name name client zone rest) s ≡ true
kept_name b name client zone rest s h = ground (arith, h)

names_of_cluster-expected :
    (zone : String) (n : ClusterNode) (ns : List ClusterNode)
    → IsActive n
    → Among n ns
    → is_expected (names_of_cluster zone ns) (hostname n.name n.spec.execution.client zone) ≡ true
unfolding names_of_cluster
names_of_cluster-expected zone n [] a k = absurd k
names_of_cluster-expected zone n (m ∷ ns) a (inl e) = rw e (
    rw a.enabled
      (expected_name-own n.name n.spec.execution.client zone (names_of_cluster zone ns) a.named))
names_of_cluster-expected zone n (m ∷ ns) a (inr k) =
    kept_name m.disabled m.name m.spec.execution.client zone _ _
      (names_of_cluster-expected zone n ns a k)

pub names_of_clusters-expected :
    (zone : String) (n : ClusterNode) (c : Cluster) (cs : List Cluster)
    → IsActive n
    → Among n c.nodes
    → Among c cs
    → is_expected (names_of_clusters zone cs) (hostname n.name n.spec.execution.client zone) ≡ true
unfolding names_of_clusters
names_of_clusters-expected zone n c [] a k m = absurd m
names_of_clusters-expected zone n c (d ∷ cs) a k (inl e) =
    let own =
      names_of_cluster-expected zone n d.nodes a
        (subst (λ (x : Cluster). Among n x.nodes) (sym e) k) in
    ground (
      arith,
      own,
      is_expected-append (names_of_cluster zone d.nodes) (names_of_clusters zone cs)
          (hostname n.name n.spec.execution.client zone),
    )
names_of_clusters-expected zone n c (d ∷ cs) a k (inr m) =
    let rest = names_of_clusters-expected zone n c cs a k m in
    ground (
      arith,
      rest,
      is_expected-append (names_of_cluster zone d.nodes) (names_of_clusters zone cs)
          (hostname n.name n.spec.execution.client zone),
    )

-- No node of the clusters names its client itself: the clients come from profiles.
abbrev pub AllFromProfiles : List Cluster → Type 0
AllFromProfiles =
    All (λ (c : Cluster). All (λ (n : ClusterNode). n.spec.execution.client ≡ "") c.nodes)

names_of_cluster-nil :
    (zone : String) (ns : List ClusterNode)
    → All (λ (n : ClusterNode). n.spec.execution.client ≡ "") ns
    → names_of_cluster zone ns ≡ []
unfolding names_of_cluster
names_of_cluster-nil zone [] h = refl
names_of_cluster-nil zone (n ∷ ns) (e, h) =
    ground (arith, names_of_cluster-nil zone ns h, e, eq_iff n.spec.execution.client "")

names_of_clusters-nil :
    (zone : String) (cs : List Cluster) → AllFromProfiles cs → names_of_clusters zone cs ≡ []
unfolding names_of_clusters
names_of_clusters-nil zone [] h = refl
names_of_clusters-nil zone (c ∷ cs) (e, h) =
    rw (names_of_cluster-nil zone c.nodes e) (names_of_clusters-nil zone cs h)

stale_of-nil : (rs : List ZoneRecord) → stale_of [] rs ≡ rs
unfolding stale_of
stale_of-nil [] = refl
stale_of-nil (r ∷ rs) = ap (λ l. r ∷ l) (stale_of-nil rs)

unjudged :
    {W : Type 0} (x : Result (List ZoneRecord) × W)
    → continue x.0 (λ records w. (ok (stale_of [] records), w)) x.1 ≡ x
unjudged (ok records, w) = rw (stale_of-nil records) refl
unjudged (err e, w) = refl

-- If no node of the clusters names its execution client in its own entry, then the audit reports all records of
-- the zone as stale.
pub audit_of_profiles :
    {W : Type 0} (aws : Runner W) (parse_list : String → Result (List AwsRecord))
    (zone_id zone : String) (clusters : List Cluster) (w : W)
    → AllFromProfiles clusters
    → audit aws parse_list zone_id zone (names_of_clusters zone clusters) w
      ≡ list_zone_records aws parse_list zone_id zone w
unfolding audit
audit_of_profiles aws parse_list zone_id zone clusters w h =
    rw (names_of_clusters-nil zone clusters h)
      (unjudged (list_zone_records aws parse_list zone_id zone w))

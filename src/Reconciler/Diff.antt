-- ===== src/Reconciler/Diff.antt =====
-- internal/reconciler/reconciler.go: `Diff`, the report of drift between the desired and the actual
-- state.
use eth_node_operator.Common.{
  String, ◌<>◌, arith, refl, ◌≡◌, ◌↔◌, Bool, true, false, not, ◌&&◌, List, [], ◌∷◌, ◌++◌,
  if◌then◌else◌, ◌==◌, Result, ok, err, append-cons-ne-nil,
}
use eth_node_operator.Types.{FirewallRule, NodeSpec, DiffResult}
use eth_node_operator.Docker.{ContainerInfo, inspect}
use eth_node_operator.Ufw.{port_proto, drift_check}
use eth_node_operator.Reconciler.{Managers}

-- `result.InSync = false` and one more drift
abbrev pub add_drift : String → String → String → DiffResult → DiffResult
add_drift field desired actual r = record r {
  in_sync = false;
  drifts = r.drifts ++ record { field = field; desired = desired; actual = actual } ∷ [];
}

unfoldable pub image_drift : String → String → Result ContainerInfo → DiffResult → DiffResult
image_drift field image (ok info) r =
    if not (info.image == image) then add_drift field image info.image r else r
image_drift field image (err e) r = r

unfoldable pub running_drift : Result ContainerInfo → DiffResult → DiffResult
running_drift (ok info) r =
    if not info.running then add_drift "execution.running" "true" "false" r else r
running_drift (err e) r = r

unfoldable pub rule_drifts : List FirewallRule → DiffResult → DiffResult
rule_drifts [] r = r
rule_drifts (rule ∷ rules) r =
    rule_drifts rules (add_drift ("firewall.rule[" <> port_proto rule <> "]") "present" "missing" r)

unfoldable pub firewall_drift : Result (List FirewallRule) → DiffResult → DiffResult
unfolding rule_drifts
firewall_drift (ok missing) r = rule_drifts missing r
firewall_drift (err e) r = r

module _ {W : Type 0} (m : Managers W) (desired : NodeSpec) where
  execution_diff : DiffResult × W → DiffResult × W
  unfolding image_drift running_drift
  execution_diff (r, w) =
      if not (desired.execution.image == "")
      then (let (info, w') = inspect m.docker "execution" w in
          (running_drift info (image_drift "execution.image" desired.execution.image info r), w'))
      else (r, w)

  consensus_diff : DiffResult × W → DiffResult × W
  unfolding image_drift
  consensus_diff (r, w) =
      if not (desired.consensus.image == "")
      then (let (info, w') = inspect m.docker "consensus" w in
          (image_drift "consensus.image" desired.consensus.image info r, w'))
      else (r, w)

  mev_diff : DiffResult × W → DiffResult × W
  unfolding image_drift
  mev_diff (r, w) =
      if desired.mev.enabled && not (desired.mev.image == "")
      then (let (info, w') = inspect m.docker "mev-boost" w in
          (image_drift "mev.image" desired.mev.image info r, w'))
      else (r, w)

  firewall_diff : DiffResult × W → DiffResult × W
  unfolding firewall_drift
  firewall_diff (r, w) =
      if desired.network.firewall.provider == "ufw"
      then (let (missing, w') = drift_check m.ufw desired.network.firewall w in
          (firewall_drift missing r, w'))
      else (r, w)

  unfoldable pub diff : W → DiffResult × W
  unfolding execution_diff consensus_diff mev_diff firewall_diff
  diff w = firewall_diff (
      mev_diff (
        consensus_diff
          (execution_diff (record { node_name = ""; drifts = []; in_sync = true }, w))))

-- A report is in sync exactly when it lists no drift.
pub record IsCoherent (r : DiffResult) : Type 0 where
  pub iff : (r.in_sync ≡ true) ↔ (r.drifts ≡ [])

add-IsCoherent : (f d a : String) (r : DiffResult) → IsCoherent (add_drift f d a r)
add-IsCoherent f d a r = record {
  iff = (λ h. cc, λ h. absurd (append-cons-ne-nil r.drifts _ [] h));
}

image-IsCoherent :
    (field image : String) (i : Result ContainerInfo) (r : DiffResult)
    → IsCoherent r
    → IsCoherent (image_drift field image i r)
unfolding image_drift
image-IsCoherent field image (ok info) r h = ground (arith, add-IsCoherent field image info.image r)
image-IsCoherent field image (err e) r h = h

running-IsCoherent :
    (i : Result ContainerInfo) (r : DiffResult) → IsCoherent r → IsCoherent (running_drift i r)
unfolding running_drift
running-IsCoherent (ok info) r h =
    ground (arith, add-IsCoherent "execution.running" "true" "false" r)
running-IsCoherent (err e) r h = h

rules-IsCoherent :
    (rules : List FirewallRule) (r : DiffResult) → IsCoherent r → IsCoherent (rule_drifts rules r)
unfolding rule_drifts
rules-IsCoherent [] r h = h
rules-IsCoherent (rule ∷ rules) r h = rules-IsCoherent rules _ (add-IsCoherent _ _ _ r)

-- The report is coherent, whatever the world beside it.
record Coherent {W : Type 0} (p : DiffResult × W) : Type 0 where
  report : IsCoherent p.0

if-Coherent :
    {W : Type 0} (b : Bool) (p q : DiffResult × W)
    → IsCoherent p.0
    → IsCoherent q.0
    → Coherent (if b then p else q)
if-Coherent true p q h k = record { report = h }
if-Coherent false p q h k = record { report = k }

firewall-IsCoherent :
    (missing : Result (List FirewallRule)) (r : DiffResult)
    → IsCoherent r
    → IsCoherent (firewall_drift missing r)
unfolding firewall_drift
firewall-IsCoherent (ok missing) r h = rules-IsCoherent missing r h
firewall-IsCoherent (err e) r h = h

module _ {W : Type 0} (m : Managers W) (desired : NodeSpec) where
  execution-Coherent : (p : DiffResult × W) → Coherent p → Coherent (execution_diff m desired p)
  unfolding execution_diff
  execution-Coherent (r, w) h =
      let (info, w') = inspect m.docker "execution" w in
      let r' = image_drift "execution.image" desired.execution.image info r in
      if-Coherent (not (desired.execution.image == "")) (running_drift info r', w') (r, w)
        (running-IsCoherent info r' (image-IsCoherent _ _ info r h.report)) h.report

  consensus-Coherent : (p : DiffResult × W) → Coherent p → Coherent (consensus_diff m desired p)
  unfolding consensus_diff
  consensus-Coherent (r, w) h =
      let (info, w') = inspect m.docker "consensus" w in
      let r' = image_drift "consensus.image" desired.consensus.image info r in
      if-Coherent (not (desired.consensus.image == "")) (r', w') (r, w)
        (image-IsCoherent _ _ info r h.report) h.report

  mev-Coherent : (p : DiffResult × W) → Coherent p → Coherent (mev_diff m desired p)
  unfolding mev_diff
  mev-Coherent (r, w) h =
      let (info, w') = inspect m.docker "mev-boost" w in
      let r' = image_drift "mev.image" desired.mev.image info r in
      if-Coherent (desired.mev.enabled && not (desired.mev.image == "")) (r', w') (r, w)
        (image-IsCoherent _ _ info r h.report) h.report

  firewall_diff-Coherent : (p : DiffResult × W) → Coherent p → Coherent (firewall_diff m desired p)
  unfolding firewall_diff
  firewall_diff-Coherent (r, w) h =
      let (missing, w') = drift_check m.ufw desired.network.firewall w in
      if-Coherent (desired.network.firewall.provider == "ufw") (firewall_drift missing r, w') (r, w)
        (firewall-IsCoherent missing r h.report) h.report

  -- Whatever the host answers, the report is in sync exactly when it lists no drift.
  pub diff-IsCoherent :
      (w : W) → ((diff m desired w).0.in_sync ≡ true) ↔ ((diff m desired w).0.drifts ≡ [])
  unfolding diff
  diff-IsCoherent w =
      (firewall_diff-Coherent _ (
        mev-Coherent _ (
          consensus-Coherent _ (
            execution-Coherent (record { node_name = ""; drifts = []; in_sync = true }, w)
              (record { report = record { iff = (λ _. refl, λ _. refl) } }))))).report.iff
